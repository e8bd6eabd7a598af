-- ===== src/Query/Advance.antt =====
-- What a login query guarantees to the negotiation that calls it, whatever the target sends.
use i_scsiinitiator.Base.{
  Str, ℕ, zero, suc, ◌==◌, ◌||◌, Bool, true, false, not, Option, none, List, [], ◌∷◌, ◌≡◌, inl, inr,
  ◌⊎◌, arith, Bool-cases, subst, ◌++◌, append_assoc, ap, sym, ◌∙◌, refl,
}
use i_scsiinitiator.Dict.{Dict}
use i_scsiinitiator.Platform.{Platform}
use i_scsiinitiator.Pdu.Create.{create_from_dict}
use i_scsiinitiator.Hba.{Delivery, delivered, failed, World, Pdu, Request, login}
use i_scsiinitiator.Hba.Calls.{send, is_invalid}
use i_scsiinitiator.Query.Stages.{stage_eq}
use i_scsiinitiator.Query.Frame.{SameRoute, single_query-route}
use i_scsiinitiator.Query.{
  Context, Query, update_context, handle_pdu, receive_loop, receive, login_request, single_query,
  retry, login_query, login_success, max_retry_count, op_login_rsp, status_of, has_flag,
  transit_flag, stops,
}

-- The target agrees to advance: a successful login response with the transit flag set.
abbrev pub Agrees : Delivery → Type 0
Agrees (failed e) = ⊥
Agrees (delivered p) =
    (p.op_code ≡ op_login_rsp)
    × (status_of p ≡ login_success)
    × (has_flag p.stage transit_flag ≡ true)

-- Some delivery of the list agrees.
abbrev pub SomeAgree : List Delivery → Type 0
SomeAgree [] = ⊥
SomeAgree (d ∷ ds) = Agrees d ⊎ SomeAgree ds

-- Of `all`, those were received that are not left, and one of these agrees.
pub record HasAgreed (all left : List Delivery) : Type 0 where
  pub received : List Delivery
  pub split : all ≡ received ++ left
  pub agreed : SomeAgree received

-- Of `all`, those were received that are not left, and the flag is set only by an agreement.
record IsAgreed (before : Bool) (all left : List Delivery) (after : Bool) : Type 0 where
  received : List Delivery
  split : all ≡ received ++ left
  transits : after ≡ true → (before ≡ true) ⊎ SomeAgree received

agrees-late : (ds es : List Delivery) → SomeAgree es → SomeAgree (ds ++ es)
agrees-late [] es s = s
agrees-late (d ∷ ds) es s = inr (agrees-late ds es s)

-- The flag was set by these, or an agreement comes later.
HasAgreed-here :
    {before after : Bool} {all left : List Delivery}
    → IsAgreed before all left after
    → after ≡ true
    → (before ≡ true) ⊎ HasAgreed all left
HasAgreed-here a t = elim (a.transits t) [
  | inl b ↦ inl b
  | inr s ↦ inr (record { received = a.received; split = a.split; agreed = s })
]

HasAgreed-later :
    {before after : Bool} {all middle left : List Delivery}
    → IsAgreed before all middle after
    → HasAgreed middle left
    → HasAgreed all left
HasAgreed-later {left = left} a h = record {
  received = a.received ++ h.received;
  split =
      a.split ∙ ap (λ ds. a.received ++ ds) h.split ∙ sym (append_assoc a.received h.received left);
  agreed = agrees-late a.received h.received h.agreed;
}

handle_pdu-Agrees :
    (p : Pdu) (q : Query)
    → (handle_pdu p q).context.transit_next_stage ≡ true
    → (q.context.transit_next_stage ≡ true) ⊎ Agrees (delivered p)
unfolding handle_pdu update_context
handle_pdu-Agrees p q h = ground arith

IsAgreed-cons :
    (p : Pdu) (q : Query) (ds left : List Delivery) (after : Bool)
    → IsAgreed (handle_pdu p q).context.transit_next_stage ds left after
    → IsAgreed q.context.transit_next_stage (delivered p ∷ ds) left after
IsAgreed-cons p q ds left after a = record {
  received = delivered p ∷ a.received;
  split = ap (λ es. delivered p ∷ es) a.split;
  transits = λ h. elim (a.transits h) [
    | inl b ↦ elim (handle_pdu-Agrees p q b) [ inl c ↦ inl c | inr c ↦ inr (inl c) ]
    | inr s ↦ inr (inr s)
  ];
}

receive_loop-agrees :
    (ds : List Delivery) (q : Query)
    → IsAgreed q.context.transit_next_stage ds
        (receive_loop ds q).1
        (receive_loop ds q).0.context.transit_next_stage
unfolding receive_loop
receive_loop-agrees [] q = record { received = []; split = refl; transits = inl }
receive_loop-agrees (failed e ∷ ds) q = record {
  received = failed e ∷ [];
  split = refl;
  transits = inl;
}
receive_loop-agrees (delivered p ∷ ds) q = elim (Bool-cases (stops p)) [
  | inl e ↦ rw e (record {
    received = delivered p ∷ [];
    split = refl;
    transits = λ h. elim (handle_pdu-Agrees p q h) [ inl b ↦ inl b | inr a ↦ inr (inl a) ];
  })
  | inr e ↦ rw e (IsAgreed-cons p q ds _ _ (receive_loop-agrees ds (handle_pdu p q)))
]

receive-agrees :
    (q : Query) (w : World)
    → IsAgreed q.context.transit_next_stage w.deliveries
        (receive q w).1.deliveries
        (receive q w).0.context.transit_next_stage
unfolding receive
receive-agrees q w = elim (Bool-cases (is_invalid q.context.session_id q.context.connection_id)) [
  | inl e ↦ rw e (record { received = []; split = refl; transits = inl })
  | inr e ↦ rw e (receive_loop-agrees w.deliveries q)
]

deliveries-send :
    (session_id connection_id : ℕ) (request : Request) (segment : List ℕ) (w : World)
    → (send session_id connection_id request segment w).1.deliveries ≡ w.deliveries
unfolding send
deliveries-send session_id connection_id request segment w = ground arith

module _ (sys : Platform) where
  single_query-agrees :
      (c : Context) (status : ℕ) (cmd rsp : Option (Dict Str)) (w : World)
      → let r = single_query sys c status cmd rsp w in
        IsAgreed c.transit_next_stage w.deliveries r.1.deliveries r.0.context.transit_next_stage
  unfolding single_query
  single_query-agrees c status cmd rsp w =
      subst
        (λ ds.
          let r = single_query sys c status cmd rsp w in
          IsAgreed c.transit_next_stage ds r.1.deliveries r.0.context.transit_next_stage)
        (deliveries-send c.session_id c.connection_id (login (login_request c)) segment w) cases
    where
      segment : List ℕ
      segment = create_from_dict sys cmd

      sending : ℕ × World
      sending = send c.session_id c.connection_id (login (login_request c)) segment w

      cases :
          let r = single_query sys c status cmd rsp w in
          IsAgreed c.transit_next_stage sending.1.deliveries r.1.deliveries
            r.0.context.transit_next_stage
      cases = elim (Bool-cases (sending.0 == 0)) [
        | inl e ↦ rw e (receive-agrees _ sending.1)
        | inr e ↦ rw e (record { received = []; split = refl; transits = inl })
      ]

  retry-agrees :
      (rounds : ℕ) (q : Query) (w : World)
      → let r = retry sys rounds q w in
        r.0.status ≡ login_success
        → (q.context.transit_next_stage ≡ true) ⊎ HasAgreed w.deliveries r.1.deliveries
  unfolding retry
  retry-agrees zero q w h = absurd (omega arith)
  retry-agrees (suc rounds) q w h = elim (Bool-cases r.0.context.transit_next_stage) [
    | inl e ↦ rw e (HasAgreed-here a e)
    | inr e ↦
        rw e (elim (retry-agrees rounds (record r.0 { text_rsp = q.text_rsp }) r.1 (rw e at h)) [
          | inl b ↦ absurd (cc (b, e))
          | inr s ↦ inr (HasAgreed-later a s)
        ])
  ]
    where
      r : Query × World
      r = single_query sys q.context q.status none none w

      a :
          IsAgreed q.context.transit_next_stage w.deliveries r.1.deliveries
            r.0.context.transit_next_stage
      a = single_query-agrees q.context q.status none none w

  -- A login query that is to move to another stage, from a context whose transit flag is clear, and that
  -- returns without an error and with status "success": among the deliveries that it received, which are
  -- those that were to come without those that are left, there is a successful login response with the
  -- transit flag set.
  pub login_query-agreed :
      (c : Context) (status : ℕ) (cmd rsp : Option (Dict Str)) (w : World)
      → c.transit_next_stage ≡ false
      → stage_eq c.current_stage c.next_stage ≡ false
      → (login_query sys c status cmd rsp w).0.error ≡ 0
      → (login_query sys c status cmd rsp w).0.status ≡ login_success
      → HasAgreed w.deliveries (login_query sys c status cmd rsp w).1.deliveries
  unfolding login_query
  login_query-agreed c status cmd rsp w clear differ returns success =
      elim (Bool-cases (not (r.0.error == 0) || not (r.0.status == login_success))) [
        | inl e ↦ absurd (ground (arith, returns, success, e))
        | inr e ↦ elim (Bool-cases r.0.context.transit_next_stage) [
          | inl t ↦ rw (e, moves, t) (unset (HasAgreed-here a t))
          | inr t ↦
              rw (e, moves, t)
                (elim (retry-agrees max_retry_count r.0 r.1
                  (ground (arith, success, e, t, moves))) [
                    | inl b ↦ absurd (cc (b, t))
                    | inr s ↦ HasAgreed-later a s
                  ])
        ]
      ]
    where
      r : Query × World
      r = single_query sys c status cmd rsp w

      a : IsAgreed c.transit_next_stage w.deliveries r.1.deliveries r.0.context.transit_next_stage
      a = single_query-agrees c status cmd rsp w

      route : SameRoute r.0.context c
      route = single_query-route sys c status cmd rsp w

      moves : stage_eq r.0.context.current_stage r.0.context.next_stage ≡ false
      moves = rw (route.current_stage, route.next_stage) differ

      unset : {P : Type 0} → (c.transit_next_stage ≡ true) ⊎ P → P
      unset (inl set) = absurd (cc (set, clear))
      unset (inr x) = x
