-- ===== src/Query/Pairs.antt =====
-- Source/User/iscsid/iSCSIQueryTarget.c: the pairs of a login response that is split over several PDUs.
use i_scsiinitiator.Base.{
  Str, some, List, [], ◌∷◌, ◌++◌, append_assoc, map, ◌≡◌, refl, ap, sym, ◌∙◌, All,
}
use i_scsiinitiator.Dict.{Dict, add_value, add_values}
use i_scsiinitiator.Pdu.Parse.{parse_to_dict, to_dict_callback}
use i_scsiinitiator.Pdu.Create.{populate}
use i_scsiinitiator.Pdu.RoundTrip.{
  IsSendable, parse_common-eq, parse_bytes-populate, out-parse_bytes-start,
}
use i_scsiinitiator.Hba.{Delivery, delivered, Pdu}
use i_scsiinitiator.Query.{Query, receive_loop, login_success}
use i_scsiinitiator.Query.Response.{IsPart, IsLast, merged, receive_loop-parts}

-- A PDU whose data segment has exactly these pairs, each ended.
abbrev pub Carries : Dict Str → Pdu → Type 0
Carries d p = All IsSendable d × (p.segment ≡ populate d)

-- The PDUs with their pairs, and all pairs in order.
abbrev pub pdus_of : List (Pdu × Dict Str) → List Pdu
pdus_of parts = map (λ x. x.0) parts

unfoldable pub pairs_of : List (Pdu × Dict Str) → Dict Str
pairs_of [] = []
pairs_of ((p, d) ∷ parts) = d ++ pairs_of parts

parse_to_dict-populate :
    (d out : Dict Str) (p : Pdu)
    → Carries d p
    → parse_to_dict p.segment p.after (some out) ≡ some (add_values out d)
unfolding parse_to_dict
parse_to_dict-populate d out p h = rw h.1 (
    ap some (
      parse_common-eq to_dict_callback (populate d) p.after out
      ∙ ap (λ q. q.out) (parse_bytes-populate d out (p.after ∷ []) h.0)
      ∙ out-parse_bytes-start to_dict_callback p.after (add_values out d)))

add_values-append : (out d e : Dict Str) → add_values out (d ++ e) ≡ add_values (add_values out d) e
unfolding add_values
add_values-append out [] e = refl
add_values-append out ((key, value) ∷ d) e = add_values-append (add_value key value out) d e

merged-All :
    (parts : List (Pdu × Dict Str)) (p : Pdu) (d out : Dict Str)
    → All (λ x. Carries x.1 x.0) (parts ++ (p, d) ∷ [])
    → merged (pdus_of parts ++ p ∷ []) (some out) ≡ some (add_values out (pairs_of parts ++ d))
unfolding merged pairs_of
merged-All [] p d out h = parse_to_dict-populate d out p h.0
merged-All ((r, e) ∷ parts) p d out h =
    ap (merged (pdus_of parts ++ p ∷ [])) (parse_to_dict-populate e out r h.0)
    ∙ merged-All parts p d (add_values out e) h.1
    ∙ ap some (
        sym (add_values-append out e (pairs_of parts ++ d))
        ∙ ap (add_values out) (sym (append_assoc e (pairs_of parts) d)))

-- A login response that the target splits between pairs over several PDUs, each of whole pairs of short
-- plain texts: all parts and the last PDU are taken, no delivery behind them is, the status is success, the
-- error stays, and the caller's dictionary gets the pairs of all PDUs in order, of which the first under a
-- key counts. Nothing is said of a pair that is itself split over two PDUs.
pub receive_loop-pairs :
    (parts : List (Pdu × Dict Str)) (p : Pdu) (d out : Dict Str) (rest : List Delivery) (q : Query)
    → All IsPart (pdus_of parts)
    → IsLast p
    → All (λ x. Carries x.1 x.0) (parts ++ (p, d) ∷ [])
    → q.text_rsp ≡ some out
    → let after = receive_loop (map delivered (pdus_of parts) ++ delivered p ∷ rest) q in
      (after.1 ≡ rest)
      × (after.0.error ≡ q.error)
      × (after.0.status ≡ login_success)
      × (after.0.text_rsp ≡ some (add_values out (pairs_of parts ++ d)))
receive_loop-pairs parts p d out rest q are_parts is_last carries empty =
    let (taken, error, status, texts) =
      receive_loop-parts (pdus_of parts) p rest q are_parts is_last in
    (taken, error, status, texts ∙ rw empty (merged-All parts p d out carries))
