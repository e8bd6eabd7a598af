-- ===== src/Examples/Proofs.antt =====
-- CHAP from the first query of a login on.
use i_scsiinitiator.Auth.Chap.{
  build_dict, chap_answer, expected, finish_chap, first_query, initiator_answer, negotiate_chap,
  offered_methods, second_query, security_context, target_challenge, verify,
}
use i_scsiinitiator.Auth.EndToEnd.{negotiate-authenticates}
use i_scsiinitiator.Auth.Hex.{
  after_first, create_response, data_with_hex_string, digit_value, hex_string_with_bytes, pairs,
  prefix_length, scan1, scan2, second_digit, with_low, written,
}
use i_scsiinitiator.Auth.Mutual.{IsProof}
use i_scsiinitiator.Auth.Security.{
  after_chap, after_tag, authenticate, by_method, check_tag, choose, negotiate, open_query,
  record_stat_sn, valid,
}
use i_scsiinitiator.Base.{true, List, Option, [], codes, none, refl, some, str_eq, ◌++◌, ◌∷◌, ◌≡◌}
use i_scsiinitiator.Dict.{add_value, add_values, contains_key, get}
use i_scsiinitiator.Examples.Data.{chap_auth, disk, pair, reply, setting, world_of}
use i_scsiinitiator.Hba.{Delivery, World, delivered, target_portal_group_tag, target_session_id}
use i_scsiinitiator.Hba.Calls.{
  get_session_parameter, send, set_connection_parameter, set_session_parameter,
}
use i_scsiinitiator.Keys.{
  key_auth_chap_challenge, key_auth_chap_id, key_auth_chap_response, key_auth_method,
  key_target_portal_group_tag, value_auth_method_chap,
}
use i_scsiinitiator.Negotiate.Login.{Login, response, save_alias}
use i_scsiinitiator.Pdu.Create.{byte_size, create_from_dict, populate, text_command}
use i_scsiinitiator.Pdu.Parse.{
  parse_byte, parse_bytes, parse_common, parse_to_dict, to_dict_callback,
}
use i_scsiinitiator.Platform.Ascii.{ascii, block, digest_bytes, find, occurs, same, starts, value}
use i_scsiinitiator.Query.{
  Query, handle_pdu, login_query, login_request, login_success, receive, receive_loop, retry,
  single_query, stops, update_context,
}
use i_scsiinitiator.Query.Stages.{login_stage}
use i_scsiinitiator.Target.{get_chap_values, get_method, is_discovery, set_alias}

abbrev replies : List Delivery
replies =
    delivered (
      reply 0 (pair key_auth_method (codes "CHAP") ++ pair key_target_portal_group_tag (codes "1")))
    ∷ delivered
        (reply 0 (pair key_auth_chap_id (codes "1") ++ pair key_auth_chap_challenge (codes "0x0a")))
    ∷ delivered (reply 0x81 (pair key_auth_chap_response (expected ascii setting (codes "secret"))))
    ∷ []

abbrev start_world : World
start_world = world_of replies

abbrev first : Query × World
first = open_query ascii setting disk chap_auth chap_auth 3 4 9 start_world

abbrev tagged : World
tagged = set_session_parameter 3 target_portal_group_tag 1 (record_stat_sn 3 4 first.0 first.1)

abbrev result_of : Option Login → Login
result_of none = record { error = 1; status = 1; target = disk; world = start_world }
result_of (some l) = l

abbrev authenticated : Login
authenticated = result_of (negotiate ascii setting disk chap_auth chap_auth 3 4 9 start_world)

facts :
    (get_chap_values chap_auth ≡ (some (codes "u"), some (codes "secret")))
    × (first.0.error ≡ 0)
    × (first.0.status ≡ login_success)
    × (check_tag ascii disk 3
          (get_session_parameter 3 target_session_id 0 start_world)
          (get key_target_portal_group_tag (response first.0))
          (record_stat_sn 3 4 first.0 first.1)
        ≡ valid tagged)
    × (get key_auth_method (response first.0) ≡ some (codes "CHAP"))
    × (str_eq (codes "CHAP") value_auth_method_chap ≡ true)
    × (negotiate ascii setting disk chap_auth chap_auth 3 4 9 start_world ≡ some authenticated)
    × (authenticated.error ≡ 0)
    × (authenticated.status ≡ login_success)
unfolding negotiate_chap first_query second_query security_context chap_answer initiator_answer
    target_challenge finish_chap verify create_response hex_string_with_bytes data_with_hex_string
    written prefix_length pairs scan1 scan2 second_digit with_low after_first digit_value
    get_chap_values get_method get str_eq add_values add_value contains_key response save_alias
    set_alias login_query single_query retry receive receive_loop handle_pdu stops update_context
    login_request login_stage send create_from_dict byte_size populate text_command parse_to_dict
    parse_common parse_bytes parse_byte to_dict_callback ascii value same block digest_bytes
    is_discovery occurs starts find build_dict offered_methods open_query record_stat_sn check_tag
    set_session_parameter get_session_parameter set_connection_parameter negotiate after_tag
    by_method choose authenticate after_chap
facts = (refl, refl, refl, refl, refl, refl, refl, refl, refl)

negotiate-authenticates_example :
    let (q1, w1) =
      first_query ascii setting 3 4
        (get_session_parameter 3 target_session_id 0 start_world)
        first.0.status
        tagged in
    let (q2, w2) = second_query ascii setting chap_auth chap_auth q1 w1 in
    IsProof ascii setting (codes "secret") (get key_auth_chap_response (response q2))
unfolding get_session_parameter
negotiate-authenticates_example =
    negotiate-authenticates ascii setting disk chap_auth chap_auth 3 4 9 start_world tagged
      (codes "u") (codes "secret") (codes "CHAP") authenticated facts.0 facts.1 facts.2 facts.3
      facts.4 facts.5 facts.6 facts.7 facts.8
