-- ===== src/Query/Response.antt =====
-- How a response is put together from its PDUs, and what in it reaches the context.
use i_scsiinitiator.Base.{
  Str, ◌<◌, ◌^◌, true, false, Option, List, [], ◌∷◌, ◌++◌, map, ◌≡◌, refl, ap, ◌∙◌, arith, All,
}
use i_scsiinitiator.Dict.{Dict}
use i_scsiinitiator.Pdu.Parse.{parse_to_dict}
use i_scsiinitiator.Hba.{Delivery, delivered, Pdu}
use i_scsiinitiator.Query.{
  Context, Query, handle_pdu, stops, receive_loop, login_request, login_success, op_login_rsp,
  status_of, has_flag, continue_flag, swap16,
}

-- A successful login response that announces more, and one that ends the response.
abbrev pub IsPart : Pdu → Type 0
IsPart p =
    (p.op_code ≡ op_login_rsp)
    × (status_of p ≡ login_success)
    × (has_flag p.stage continue_flag ≡ true)

abbrev pub IsLast : Pdu → Type 0
IsLast p =
    (p.op_code ≡ op_login_rsp)
    × (status_of p ≡ login_success)
    × (has_flag p.stage continue_flag ≡ false)

-- The pairs of all segments, in the order of arrival.
unfoldable pub merged : List Pdu → Option (Dict Str) → Option (Dict Str)
merged [] text_rsp = text_rsp
merged (p ∷ ps) text_rsp = merged ps (parse_to_dict p.segment p.after text_rsp)

handle_pdu-success :
    (p : Pdu) (q : Query)
    → p.op_code ≡ op_login_rsp
    → status_of p ≡ login_success
    → (handle_pdu p q).text_rsp ≡ parse_to_dict p.segment p.after q.text_rsp
unfolding handle_pdu
handle_pdu-success p q op status = ground arith

error-handle_pdu-success :
    (p : Pdu) (q : Query)
    → p.op_code ≡ op_login_rsp
    → ((handle_pdu p q).error ≡ q.error) × ((handle_pdu p q).status ≡ status_of p)
unfolding handle_pdu
error-handle_pdu-success p q op = ground arith

stops-part : (p : Pdu) → IsPart p → stops p ≡ false
unfolding stops
stops-part p h = ground arith

stops-last : (p : Pdu) → IsLast p → stops p ≡ true
unfolding stops
stops-last p h = ground arith

-- A login response that the target splits over several PDUs: all parts and the last PDU are taken, no
-- delivery behind them is, the status is success, the error stays, and each segment is parsed by itself.
pub receive_loop-parts :
    (ps : List Pdu) (p : Pdu) (rest : List Delivery) (q : Query)
    → All IsPart ps
    → IsLast p
    → ((receive_loop (map delivered ps ++ delivered p ∷ rest) q).1 ≡ rest)
      × ((receive_loop (map delivered ps ++ delivered p ∷ rest) q).0.error ≡ q.error)
      × ((receive_loop (map delivered ps ++ delivered p ∷ rest) q).0.status ≡ login_success)
      × ((receive_loop (map delivered ps ++ delivered p ∷ rest) q).0.text_rsp
          ≡ merged (ps ++ p ∷ []) q.text_rsp)
unfolding receive_loop merged
receive_loop-parts [] p rest q hs h =
    let e = error-handle_pdu-success p q h.0 in
    rw (stops-last p h) (refl, e.0, e.1 ∙ h.1, handle_pdu-success p q h.0 h.1)
receive_loop-parts (r ∷ ps) p rest q hs h =
    let e = error-handle_pdu-success r q hs.0.0 in
    let more = receive_loop-parts ps p rest (handle_pdu r q) hs.1 h in
    rw (stops-part r hs.0) (
      more.0,
      more.1 ∙ e.0,
      more.2,
      more.3 ∙ ap (merged (ps ++ p ∷ [])) (handle_pdu-success r q hs.0.0 hs.0.1),
    )

-- The header's CID is zero for every connection identifier below 2 ^ 16, since the identifier is
-- swapped as 32 bits before it is cut to 16; the session's identifiers are swapped as 16 bits, and a
-- target reads them back.
login_request-identifiers :
    (c : Context)
    → c.connection_id < 2 ^ 16
    → c.session_id < 2 ^ 16
    → c.target_session_id < 2 ^ 16
    → ((login_request c).cid ≡ 0)
      × (swap16 (login_request c).isid_d ≡ c.session_id)
      × (swap16 (login_request c).tsih ≡ c.target_session_id)
unfolding login_request
login_request-identifiers c cid sid tsih = omega arith
