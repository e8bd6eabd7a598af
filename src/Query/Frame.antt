-- ===== src/Query/Frame.antt =====
-- What a query leaves alone, and how many requests it sends.
use i_scsiinitiator.Base.{
  Str, ℕ, zero, suc, ◌+◌, ◌≤◌, ◌==◌, not, Option, none, List, [], ◌∷◌, ◌≡◌, refl, ap, ◌∙◌, inl, inr,
  arith, Bool-cases, ◌||◌, Bool, true, false, if◌then◌else◌,
}
use i_scsiinitiator.Dict.{Dict}
use i_scsiinitiator.Platform.{Platform}
use i_scsiinitiator.Pdu.Create.{create_from_dict}
use i_scsiinitiator.Hba.{
  Delivery, delivered, failed, World, Pdu, Request, login, Event, sent, set_session, set_connection,
  activated, released_connection, deactivated, released_session, deactivated_all,
}
use i_scsiinitiator.Hba.Calls.{send, is_invalid}
use i_scsiinitiator.Query.Stages.{stage_eq}
use i_scsiinitiator.Query.{
  Context, Query, update_context, handle_pdu, stops, receive_loop, receive, login_request,
  single_query, retry, login_query, login_success, max_retry_count,
}

-- The fields of the context that say where a query goes.
pub record SameRoute (c d : Context) : Type 0 where
  pub session_id : c.session_id ≡ d.session_id
  pub connection_id : c.connection_id ≡ d.connection_id
  pub current_stage : c.current_stage ≡ d.current_stage
  pub next_stage : c.next_stage ≡ d.next_stage

route_refl : (c : Context) → SameRoute c c
route_refl c = record {
  session_id = refl;
  connection_id = refl;
  current_stage = refl;
  next_stage = refl;
}

route_trans : {c d e : Context} → SameRoute c d → SameRoute d e → SameRoute c e
route_trans a b = record {
  session_id = a.session_id ∙ b.session_id;
  connection_id = a.connection_id ∙ b.connection_id;
  current_stage = a.current_stage ∙ b.current_stage;
  next_stage = a.next_stage ∙ b.next_stage;
}

handle_pdu-route : (p : Pdu) (q : Query) → SameRoute (handle_pdu p q).context q.context
unfolding handle_pdu update_context
handle_pdu-route p q = record {
  session_id = ground arith;
  connection_id = ground arith;
  current_stage = ground arith;
  next_stage = ground arith;
}

receive_loop-route :
    (ds : List Delivery) (q : Query) → SameRoute (receive_loop ds q).0.context q.context
unfolding receive_loop
receive_loop-route [] q = route_refl q.context
receive_loop-route (failed e ∷ ds) q = route_refl q.context
receive_loop-route (delivered p ∷ ds) q = elim (Bool-cases (stops p)) [
  | inl e ↦ rw e (handle_pdu-route p q)
  | inr e ↦ rw e (route_trans (receive_loop-route ds (handle_pdu p q)) (handle_pdu-route p q))
]

receive-route : (q : Query) (w : World) → SameRoute (receive q w).0.context q.context
unfolding receive
receive-route q w = elim (Bool-cases (is_invalid q.context.session_id q.context.connection_id)) [
  | inl e ↦ rw e (route_refl q.context)
  | inr e ↦ rw e (receive_loop-route w.deliveries q)
]

-- The number of requests among the calls.
abbrev pub requests : List Event → ℕ
requests [] = 0
requests (sent session_id connection_id request segment ∷ events) = suc (requests events)
requests (set_session session_id parameter value ∷ events) = requests events
requests (set_connection session_id connection_id parameter value ∷ events) = requests events
requests (activated session_id connection_id ∷ events) = requests events
requests (released_connection session_id connection_id ∷ events) = requests events
requests (deactivated session_id connection_id ∷ events) = requests events
requests (released_session session_id ∷ events) = requests events
requests (deactivated_all session_id ∷ events) = requests events

requests-send :
    (session_id connection_id : ℕ) (request : Request) (segment : List ℕ) (w : World)
    → requests (send session_id connection_id request segment w).1.events ≤ suc (requests w.events)
unfolding send
requests-send session_id connection_id request segment w = ground arith

events-receive : (q : Query) (w : World) → (receive q w).1.events ≡ w.events
unfolding receive
events-receive q w = ground arith

stores-receive : (q : Query) (w : World) → (receive q w).1.stores ≡ w.stores
unfolding receive
stores-receive q w = ground arith

stores-send :
    (session_id connection_id : ℕ) (request : Request) (segment : List ℕ) (w : World)
    → (send session_id connection_id request segment w).1.stores ≡ w.stores
unfolding send
stores-send session_id connection_id request segment w = ground arith

module _ (sys : Platform) where
  pub single_query-route :
      (c : Context) (status : ℕ) (cmd rsp : Option (Dict Str)) (w : World)
      → SameRoute (single_query sys c status cmd rsp w).0.context c
  unfolding single_query
  single_query-route c status cmd rsp w = elim (Bool-cases (sending.0 == 0)) [
    | inl e ↦ rw e (receive-route _ sending.1)
    | inr e ↦ rw e (route_refl c)
  ]
    where
      sending : ℕ × World
      sending =
          send c.session_id c.connection_id (login (login_request c)) (create_from_dict sys cmd) w

  retry-route :
      (rounds : ℕ) (q : Query) (w : World) → SameRoute (retry sys rounds q w).0.context q.context
  unfolding retry
  retry-route zero q w = route_refl q.context
  retry-route (suc rounds) q w = elim (Bool-cases r.0.context.transit_next_stage) [
    | inl e ↦ rw e (single_query-route q.context q.status none none w)
    | inr e ↦ rw e (
        route_trans (retry-route rounds (record r.0 { text_rsp = q.text_rsp }) r.1)
          (single_query-route q.context q.status none none w))
  ]
    where
      r : Query × World
      r = single_query sys q.context q.status none none w

  pub login_query-route :
      (c : Context) (status : ℕ) (cmd rsp : Option (Dict Str)) (w : World)
      → SameRoute (login_query sys c status cmd rsp w).0.context c
  unfolding login_query
  login_query-route c status cmd rsp w =
      elim (Bool-cases (not (r.0.error == 0) || not (r.0.status == login_success))) [
        | inl e ↦ rw e first
        | inr e ↦
            elim (Bool-cases (
              stage_eq r.0.context.current_stage r.0.context.next_stage
              || r.0.context.transit_next_stage)) [
                | inl d ↦ rw (e, d) first
                | inr d ↦ rw (e, d) (route_trans (retry-route max_retry_count r.0 r.1) first)
              ]
      ]
    where
      r : Query × World
      r = single_query sys c status cmd rsp w

      first : SameRoute r.0.context c
      first = single_query-route c status cmd rsp w

  requests-single_query :
      (c : Context) (status : ℕ) (cmd rsp : Option (Dict Str)) (w : World)
      → requests (single_query sys c status cmd rsp w).1.events ≤ suc (requests w.events)
  unfolding single_query
  requests-single_query c status cmd rsp w = ground (
    arith,
    requests-send c.session_id c.connection_id (login (login_request c)) (create_from_dict sys cmd)
        w,
    ap requests (
        events-receive (record { error = 0; status = status; context = c; text_rsp = rsp })
          (send c.session_id c.connection_id (login (login_request c)) (create_from_dict sys cmd)
            w).1),
  )

  requests-retry :
      (rounds : ℕ) (q : Query) (w : World)
      → requests (retry sys rounds q w).1.events ≤ requests w.events + rounds
  unfolding retry
  requests-retry zero q w = omega arith
  requests-retry (suc rounds) q w =
      let r = single_query sys q.context q.status none none w in
      ground (
        arith,
        requests-single_query q.context q.status none none w,
        requests-retry rounds (record r.0 { text_rsp = q.text_rsp }) r.1,
      )

  -- A login query sends at most six requests, however the target answers: one, and five retries.
  pub requests-login_query :
      (c : Context) (status : ℕ) (cmd rsp : Option (Dict Str)) (w : World)
      → requests (login_query sys c status cmd rsp w).1.events ≤ requests w.events + 6
  unfolding login_query
  requests-login_query c status cmd rsp w =
      let r = single_query sys c status cmd rsp w in
      ground
        (arith, requests-single_query c status cmd rsp w, requests-retry max_retry_count r.0 r.1)

  stores-single_query :
      (c : Context) (status : ℕ) (cmd rsp : Option (Dict Str)) (w : World)
      → (single_query sys c status cmd rsp w).1.stores ≡ w.stores
  unfolding single_query
  stores-single_query c status cmd rsp w =
      elim (Bool-cases (sending.0 == 0)) [
        | inl e ↦ rw e (stores-receive _ sending.1)
        | inr e ↦ rw e refl
      ]
      ∙ stores-send c.session_id c.connection_id (login (login_request c))
          (create_from_dict sys cmd) w
    where
      sending : ℕ × World
      sending =
          send c.session_id c.connection_id (login (login_request c)) (create_from_dict sys cmd) w

  stores-retry : (rounds : ℕ) (q : Query) (w : World) → (retry sys rounds q w).1.stores ≡ w.stores
  unfolding retry
  stores-retry zero q w = refl
  stores-retry (suc rounds) q w =
      elim (Bool-cases r.0.context.transit_next_stage) [
        | inl e ↦ rw e refl
        | inr e ↦ rw e (stores-retry rounds (record r.0 { text_rsp = q.text_rsp }) r.1)
      ]
      ∙ stores-single_query q.context q.status none none w
    where
      r : Query × World
      r = single_query sys q.context q.status none none w

  pub stores-login_query :
      (c : Context) (status : ℕ) (cmd rsp : Option (Dict Str)) (w : World)
      → (login_query sys c status cmd rsp w).1.stores ≡ w.stores
  unfolding login_query
  stores-login_query c status cmd rsp w =
      ending (not (r.0.error == 0) || not (r.0.status == login_success)) (
        stage_eq r.0.context.current_stage r.0.context.next_stage || r.0.context.transit_next_stage)
      ∙ stores-single_query c status cmd rsp w
    where
      r : Query × World
      r = single_query sys c status cmd rsp w

      ending :
          (failed stays : Bool)
          → (if failed then r else if stays then r else retry sys max_retry_count r.0 r.1).1.stores
            ≡ r.1.stores
      ending true stays = refl
      ending false true = refl
      ending false false = stores-retry max_retry_count r.0 r.1
