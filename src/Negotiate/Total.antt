-- ===== src/Negotiate/Total.antt =====
-- Whether the negotiation can end the process, and what it does to the digests.
use i_scsiinitiator.Base.{
  Str, str_eq, ℕ, ◌≤◌, ◌%◌, ◌^◌, zero, suc, ◌==◌, true, false, Option, none, some, ◌≡◌, refl, inl,
  inr, arith, Bool-cases,
}
use i_scsiinitiator.Dict.{Dict, get, add_values, add_value, contains_key}
use i_scsiinitiator.Platform.{Platform}
use i_scsiinitiator.Keys.{
  key_max_connections, key_initial_r2t, key_immediate_data, key_max_burst_length,
  key_first_burst_length, key_max_outstanding_r2t, key_data_pdu_in_order,
  key_data_sequence_in_order,
}
use i_scsiinitiator.Hba.{World, SessionParameter}
use i_scsiinitiator.Negotiate.Values.{range_invalid, range_invalid-true}
use i_scsiinitiator.Negotiate.Offer.{
  SessionConfig, ConnectionConfig, build_session, build_sw_dict_common, build_sw_dict_normal,
  build_cw_dict,
}
use i_scsiinitiator.Negotiate.Answer.{
  first_burst_matters, Outcome, then_do, Bounds, optional, unchecked, store, checked_minimum,
  parse_first_burst, parse_flags, parse_sw_dict_normal,
}

-- The outcome is one with which the process goes on.
abbrev pub GoesOn : Outcome → Type 0
GoesOn none = ⊥
GoesOn (some r) = Unit

GoesOn-then_do :
    (m : Outcome) (next : World → Outcome)
    → GoesOn m
    → ((w : World) → GoesOn (next w))
    → GoesOn (then_do m next)
unfolding then_do
GoesOn-then_do none next g h = g
GoesOn-then_do (some (zero, w)) next g h = h w
GoesOn-then_do (some (suc e, w)) next g h = elim (Bool-cases (suc e == 0)) [
  | inl z ↦ rw z (h w)
  | inr z ↦ rw z tt
]

-- The key was offered.
abbrev pub IsOffered : Option Str → Type 0
IsOffered none = ⊥
IsOffered (some offer) = Unit

GoesOn-unchecked :
    (session_id : ℕ) (parameter : SessionParameter) (combine : Str → Str → ℕ) (cmd rsp : Option Str)
    → IsOffered cmd
    → (w : World) → GoesOn (unchecked session_id parameter combine cmd rsp w)
unfolding unchecked store
GoesOn-unchecked session_id parameter combine none rsp o w = absurd o
GoesOn-unchecked session_id parameter combine (some cmd) none o w = tt
GoesOn-unchecked session_id parameter combine (some cmd) (some rsp) o w = tt

module _ (sys : Platform) (session_id : ℕ) where
  GoesOn-optional :
      (parameter : SessionParameter) (b : Bounds) (cmd rsp : Option Str)
      → IsOffered cmd
      → (w : World) → GoesOn (optional sys session_id parameter b cmd rsp w)
  unfolding optional checked_minimum store
  GoesOn-optional parameter b none rsp o w = absurd o
  GoesOn-optional parameter b (some cmd) none o w = tt
  GoesOn-optional parameter b (some cmd) (some rsp) o w =
      elim (Bool-cases (range_invalid (sys.int_value rsp % 2 ^ b.width) b.low b.high)) [
        | inl e ↦ rw e tt
        | inr e ↦ rw e tt
      ]

  -- Every key of a normal session was offered.
  record NormalOffered (cmd : Dict Str) : Type 0 where
    connections : IsOffered (get key_max_connections cmd)
    r2t : IsOffered (get key_initial_r2t cmd)
    immediate : IsOffered (get key_immediate_data cmd)
    pdu_order : IsOffered (get key_data_pdu_in_order cmd)
    sequence_order : IsOffered (get key_data_sequence_in_order cmd)
    max_burst : IsOffered (get key_max_burst_length cmd)
    first_burst : IsOffered (get key_first_burst_length cmd)
    outstanding : IsOffered (get key_max_outstanding_r2t cmd)

  GoesOn-parse_flags :
      (cmd rsp : Dict Str) (w : World)
      → NormalOffered cmd
      → GoesOn (parse_flags sys session_id cmd rsp w)
  unfolding parse_flags
  GoesOn-parse_flags cmd rsp w o =
      GoesOn-then_do _ _
        (GoesOn-then_do _ _
          (GoesOn-then_do _ _ (GoesOn-unchecked session_id _ _ _ _ o.r2t w)
            (GoesOn-unchecked session_id _ _ _ _ o.immediate))
          (GoesOn-unchecked session_id _ _ _ _ o.pdu_order))
        (GoesOn-unchecked session_id _ _ _ _ o.sequence_order)

  GoesOn-parse_first_burst :
      (cmd rsp : Dict Str) (w : World)
      → NormalOffered cmd
      → GoesOn (parse_first_burst sys session_id cmd rsp w)
  unfolding parse_first_burst
  GoesOn-parse_first_burst cmd rsp w o = elim (Bool-cases (first_burst_matters sys cmd rsp)) [
    | inl e ↦ rw e (GoesOn-optional _ _ _ _ o.first_burst w)
    | inr e ↦ rw e tt
  ]

  GoesOn-normal :
      (cmd rsp : Dict Str) (w : World)
      → NormalOffered cmd
      → GoesOn (parse_sw_dict_normal sys session_id cmd rsp w)
  unfolding parse_sw_dict_normal
  GoesOn-normal cmd rsp w o =
      GoesOn-then_do _ _
        (GoesOn-then_do _ _
          (GoesOn-then_do _ _
            (GoesOn-then_do _ _ (GoesOn-optional _ _ _ _ o.connections w)
              (λ v. GoesOn-parse_flags cmd rsp v o))
            (GoesOn-unchecked session_id _ _ _ _ o.max_burst))
          (λ v. GoesOn-parse_first_burst cmd rsp v o))
        (GoesOn-optional _ _ _ _ o.outstanding)

  build_session-offers :
      (sess_cfg : SessionConfig) (conn_cfg : ConnectionConfig)
      → NormalOffered (build_session sys sess_cfg conn_cfg false)
  unfolding build_session build_sw_dict_common build_sw_dict_normal build_cw_dict add_values
      add_value contains_key get str_eq
  build_session-offers sess_cfg conn_cfg = record {
    connections = tt;
    r2t = tt;
    immediate = tt;
    pdu_order = tt;
    sequence_order = tt;
    max_burst = tt;
    first_burst = tt;
    outstanding = tt;
  }

  -- The parameters of a normal session are parsed to an end whatever the target answers: every key
  -- that the code reads was offered, so none of its lookups gives NULL.
  pub parse_sw_dict_normal-GoesOn :
      (sess_cfg : SessionConfig) (conn_cfg : ConnectionConfig) (rsp : Dict Str) (w : World)
      → GoesOn
          (parse_sw_dict_normal sys session_id (build_session sys sess_cfg conn_cfg false) rsp w)
  parse_sw_dict_normal-GoesOn sess_cfg conn_cfg rsp w =
      GoesOn-normal (build_session sys sess_cfg conn_cfg false) rsp w
        (build_session-offers sess_cfg conn_cfg)

  discovery-missing :
      (sess_cfg : SessionConfig) (conn_cfg : ConnectionConfig)
      → get key_max_connections (build_session sys sess_cfg conn_cfg true) ≡ none
  unfolding build_session build_sw_dict_common build_cw_dict add_values add_value contains_key get
      str_eq
  discovery-missing sess_cfg conn_cfg = refl

  -- In a discovery session the code parses the parameters of a normal session as well, since the
  -- target's name is blank and not NULL. They were not offered: where the target answers
  -- MaxConnections with a value in its range, the process ends.
  pub parse_sw_dict_normal-discovery :
      (sess_cfg : SessionConfig) (conn_cfg : ConnectionConfig) (answer : Str) (rsp : Dict Str)
      (w : World)
      → get key_max_connections rsp ≡ some answer
      → 1 ≤ sys.int_value answer
      → sys.int_value answer ≤ 65535
      → parse_sw_dict_normal sys session_id (build_session sys sess_cfg conn_cfg true) rsp w ≡ none
  unfolding parse_sw_dict_normal then_do optional checked_minimum store
  parse_sw_dict_normal-discovery sess_cfg conn_cfg answer rsp w answered low high =
      rw (answered, discovery-missing sess_cfg conn_cfg, range_invalid-true _ 1 65535 low' high')
        refl
    where
      low' : 1 ≤ sys.int_value answer % 2 ^ 32
      low' = omega (arith, sys.int_value-lt answer)

      high' : sys.int_value answer % 2 ^ 32 ≤ 65535
      high' = omega (arith, high, sys.int_value-lt answer)
