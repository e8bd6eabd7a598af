-- ===== src/Examples/Logins.antt =====
-- Logins, authentication and logouts.
use i_scsiinitiator.Base.{codes, str_eq, some, List, [], ◌∷◌, ◌++◌, ◌≡◌, refl, arith}
use i_scsiinitiator.Dict.{get, add_values, add_value, contains_key}
use i_scsiinitiator.Platform.Ascii.{ascii, value, same, block, digest_bytes}
use i_scsiinitiator.Keys.{key_auth_chap_id, key_auth_chap_challenge, key_auth_chap_response}
use i_scsiinitiator.Target.{get_method, get_chap_values, set_alias}
use i_scsiinitiator.Hba.{Delivery, delivered}
use i_scsiinitiator.Hba.Calls.{send}
use i_scsiinitiator.Pdu.Parse.{
  parse_to_dict, parse_common, parse_bytes, parse_byte, to_dict_callback,
}
use i_scsiinitiator.Pdu.Create.{create_from_dict, byte_size, populate, text_command}
use i_scsiinitiator.Query.{
  login_query, single_query, retry, receive, receive_loop, handle_pdu, stops, update_context,
  login_request, login_success,
}
use i_scsiinitiator.Query.Stages.{login_stage}
use i_scsiinitiator.Negotiate.Login.{response, save_alias}
use i_scsiinitiator.Auth.Hex.{
  create_response, hex_string_with_bytes, data_with_hex_string, written, prefix_length, pairs,
  scan1, scan2, with_low, after_first, second_digit, digit_value,
}
use i_scsiinitiator.Auth.Chap.{
  expected, first_query, second_query, negotiate_chap, security_context, chap_answer,
  initiator_answer, target_challenge, finish_chap, verify,
}
use i_scsiinitiator.Auth.HexTrip.{data_with_hex_string-hex_string_with_bytes}
use i_scsiinitiator.Auth.Mutual.{IsProof, negotiate_chap-authenticates}
use i_scsiinitiator.Examples.Data.{reply, pair, world_of, setting, disk, chap_auth}

abbrev chap_replies : List Delivery
chap_replies =
    delivered
      (reply 0 (pair key_auth_chap_id (codes "1") ++ pair key_auth_chap_challenge (codes "0x0a")))
    ∷ delivered (reply 0x81 (pair key_auth_chap_response (expected ascii setting (codes "secret"))))
    ∷ []

credentials : get_chap_values chap_auth ≡ (some (codes "u"), some (codes "secret"))
unfolding get_chap_values get_method get str_eq
credentials = refl

chap_succeeds :
    let l = negotiate_chap ascii setting disk chap_auth chap_auth 3 4 0 9 (world_of chap_replies) in
    (l.error ≡ 0) × (l.status ≡ login_success)
unfolding negotiate_chap first_query second_query security_context chap_answer initiator_answer
    target_challenge finish_chap verify create_response hex_string_with_bytes data_with_hex_string
    written prefix_length pairs scan1 scan2 second_digit with_low after_first digit_value
    get_chap_values get_method get str_eq add_values add_value contains_key response save_alias
    set_alias login_query single_query retry receive receive_loop handle_pdu stops update_context
    login_request login_stage send create_from_dict byte_size populate text_command parse_to_dict
    parse_common parse_bytes parse_byte to_dict_callback ascii value same block digest_bytes
chap_succeeds = (refl, refl)

negotiate_chap-authenticates_example :
    let (q, w') = first_query ascii setting 3 4 0 9 (world_of chap_replies) in
    let (q2, w2) = second_query ascii setting chap_auth chap_auth q w' in
    IsProof ascii setting (codes "secret") (get key_auth_chap_response (response q2))
negotiate_chap-authenticates_example =
    negotiate_chap-authenticates ascii setting disk chap_auth chap_auth (codes "u") (codes "secret")
      3 4 0 9 (world_of chap_replies) credentials chap_succeeds.0 chap_succeeds.1

data_with_hex_string-hex_string_with_bytes_example :
    data_with_hex_string (hex_string_with_bytes (0x0f ∷ 0xa5 ∷ [])) (0 ∷ 1 ∷ 2 ∷ 3 ∷ [])
    ≡ 0x0f ∷ 0xa5 ∷ []
data_with_hex_string-hex_string_with_bytes_example =
    data_with_hex_string-hex_string_with_bytes (0x0f ∷ 0xa5 ∷ []) (0 ∷ 1 ∷ 2 ∷ 3 ∷ [])
      (omega arith, (omega arith, tt)) refl
