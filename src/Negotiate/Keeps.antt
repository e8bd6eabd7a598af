-- ===== src/Negotiate/Keeps.antt =====
-- What the later parsers of a target's answer leave alone.
use i_scsiinitiator.Base.{
  Str, ℕ, ◌<◌, ◌%◌, ◌^◌, ◌==◌, Bool, false, Option, none, some, ◌≡◌, refl, ◌∙◌, subst, inl, inr,
  arith, Bool-cases,
}
use i_scsiinitiator.Dict.{Dict, get}
use i_scsiinitiator.Platform.{Platform}
use i_scsiinitiator.Keys.{key_max_recv_data_segment_length}
use i_scsiinitiator.Hba.{
  World, SessionParameter, ConnectionParameter, session_parameter_code, invalid_session_id,
}
use i_scsiinitiator.Hba.Calls.{set_session_parameter, set_connection_parameter, is_invalid}
use i_scsiinitiator.Negotiate.Values.{range_invalid}
use i_scsiinitiator.Negotiate.Answer.{
  Outcome, then_do, Bounds, optional, unchecked, store, checked_minimum, parse_first_burst,
  first_burst_matters, parse_flags, parse_sw_dict_normal, declared_length, parse_lengths,
  store_digests,
}

-- The outcome leaves the session's parameter `q` as it was in `w`.
abbrev pub Keeps : ℕ → SessionParameter → World → Outcome → Type 0
Keeps session_id q w none = Unit
Keeps session_id q w (some (error, v)) =
    v.session_values session_id q ≡ w.session_values session_id q

module _ (session_id : ℕ) (q : SessionParameter) where
  Keeps-then_do :
      (w : World) (m : Outcome) (next : World → Outcome)
      → Keeps session_id q w m
      → ((v : World) → Keeps session_id q v (next v))
      → Keeps session_id q w (then_do m next)
  unfolding then_do
  Keeps-then_do w none next k h = tt
  Keeps-then_do w (some (error, v)) next k h = elim (Bool-cases (error == 0)) [
    | inl e ↦ rw e (further (next v) (h v))
    | inr e ↦ rw e k
  ]
    where
      further : (m : Outcome) → Keeps session_id q v m → Keeps session_id q w m
      further none _ = tt
      further (some (error', u)) j = j ∙ k

  session_values-set_ne :
      (parameter : SessionParameter) (value : ℕ) (w : World)
      → (session_parameter_code q == session_parameter_code parameter) ≡ false
      → (set_session_parameter session_id parameter value w).session_values session_id q
        ≡ w.session_values session_id q
  unfolding set_session_parameter
  session_values-set_ne parameter value w other =
      elim (Bool-cases (session_id == invalid_session_id)) [
        | inl e ↦ rw e refl
        | inr e ↦ rw (e, other) (ground arith)
      ]

  Keeps-store :
      (parameter : SessionParameter) (combine : Str → ℕ) (cmd : Option Str) (w : World)
      → (session_parameter_code q == session_parameter_code parameter) ≡ false
      → Keeps session_id q w (store session_id parameter combine cmd w)
  unfolding store
  Keeps-store parameter combine none w other = tt
  Keeps-store parameter combine (some cmd) w other = session_values-set_ne parameter _ w other

  Keeps-unchecked :
      (parameter : SessionParameter) (combine : Str → Str → ℕ) (cmd rsp : Option Str) (w : World)
      → (session_parameter_code q == session_parameter_code parameter) ≡ false
      → Keeps session_id q w (unchecked session_id parameter combine cmd rsp w)
  unfolding unchecked
  Keeps-unchecked parameter combine cmd none w other = refl
  Keeps-unchecked parameter combine cmd (some rsp) w other = Keeps-store parameter _ cmd w other

  Keeps-optional :
      (sys : Platform) (parameter : SessionParameter) (b : Bounds) (cmd rsp : Option Str)
      (w : World)
      → (session_parameter_code q == session_parameter_code parameter) ≡ false
      → Keeps session_id q w (optional sys session_id parameter b cmd rsp w)
  unfolding optional checked_minimum
  Keeps-optional sys parameter b cmd none w other = refl
  Keeps-optional sys parameter b cmd (some rsp) w other =
      elim (Bool-cases (range_invalid (sys.int_value rsp % 2 ^ b.width) b.low b.high)) [
        | inl e ↦ rw e refl
        | inr e ↦ rw e (Keeps-store parameter _ cmd w other)
      ]

  -- The parameters that every login negotiates have the first three codes.
  abbrev pub IsCommon : Type 0
  IsCommon = session_parameter_code q < 3

  Keeps-parse_flags :
      (sys : Platform) (cmd rsp : Dict Str) (w : World)
      → IsCommon
      → Keeps session_id q w (parse_flags sys session_id cmd rsp w)
  unfolding parse_flags
  Keeps-parse_flags sys cmd rsp w c =
      Keeps-then_do w _ _
        (Keeps-then_do w _ _
          (Keeps-then_do w _ _ (Keeps-unchecked _ _ _ _ w (ground (arith, c)))
            (λ v. Keeps-unchecked _ _ _ _ v (ground (arith, c))))
          (λ v. Keeps-unchecked _ _ _ _ v (ground (arith, c))))
        (λ v. Keeps-unchecked _ _ _ _ v (ground (arith, c)))

  Keeps-parse_first_burst :
      (sys : Platform) (cmd rsp : Dict Str) (w : World)
      → IsCommon
      → Keeps session_id q w (parse_first_burst sys session_id cmd rsp w)
  unfolding parse_first_burst
  Keeps-parse_first_burst sys cmd rsp w c = elim (Bool-cases (first_burst_matters sys cmd rsp)) [
    | inl e ↦ rw e (Keeps-optional sys _ _ _ _ w (ground (arith, c)))
    | inr e ↦ rw e refl
  ]

  pub Keeps-parse_sw_dict_normal :
      (sys : Platform) (cmd rsp : Dict Str) (w : World)
      → IsCommon
      → Keeps session_id q w (parse_sw_dict_normal sys session_id cmd rsp w)
  unfolding parse_sw_dict_normal
  Keeps-parse_sw_dict_normal sys cmd rsp w c =
      Keeps-then_do w _ _
        (Keeps-then_do w _ _
          (Keeps-then_do w _ _
            (Keeps-then_do w _ _ (Keeps-optional sys _ _ _ _ w (ground (arith, c)))
              (λ v. Keeps-parse_flags sys cmd rsp v c))
            (λ v. Keeps-unchecked _ _ _ _ v (ground (arith, c))))
          (λ v. Keeps-parse_first_burst sys cmd rsp v c))
        (λ v. Keeps-optional sys _ _ _ _ v (ground (arith, c)))

  session_values-set_connection :
      (connection_id : ℕ) (parameter : ConnectionParameter) (value : ℕ) (w : World)
      → (set_connection_parameter session_id connection_id parameter value w).session_values
          session_id q
        ≡ w.session_values session_id q
  unfolding set_connection_parameter
  session_values-set_connection connection_id parameter value w =
      elim (Bool-cases (is_invalid session_id connection_id)) [
        | inl e ↦ rw e refl
        | inr e ↦ rw e refl
      ]

  Keeps-parse_lengths :
      (sys : Platform) (connection_id : ℕ) (rsp : Dict Str) (w : World)
      → (parse_lengths sys session_id connection_id rsp w).1.session_values session_id q
        ≡ w.session_values session_id q
  unfolding parse_lengths
  Keeps-parse_lengths sys connection_id rsp w =
      elim (Bool-cases ((declared_length sys (get key_max_recv_data_segment_length rsp)).0 == 0)) [
        | inl e ↦ rw e (
            session_values-set_connection connection_id _ _ _
            ∙ session_values-set_connection connection_id _ _ w)
        | inr e ↦ rw e (session_values-set_connection connection_id _ _ w)
      ]

  pub Keeps-store_digests :
      (sys : Platform) (connection_id : ℕ) (rsp : Dict Str) (w : World)
      (for_data for_header : Option Bool)
      → Keeps session_id q w (store_digests sys session_id connection_id rsp w for_data for_header)
  unfolding store_digests
  Keeps-store_digests sys connection_id rsp w none for_header = tt
  Keeps-store_digests sys connection_id rsp w (some on_data) none = tt
  Keeps-store_digests sys connection_id rsp w (some on_data) (some on_header) =
      Keeps-parse_lengths sys connection_id rsp _
      ∙ session_values-set_connection connection_id _ _ _
      ∙ session_values-set_connection connection_id _ _ w

  -- What the outcome keeps, where it is known.
  pub Keeps-known :
      (w w' : World) (m : Outcome) (error : ℕ)
      → Keeps session_id q w m
      → m ≡ some (error, w')
      → w'.session_values session_id q ≡ w.session_values session_id q
  Keeps-known w w' m error k e = subst (λ (x : Outcome). Keeps session_id q w x) e k
