-- ===== src/Examples/Choices.antt =====
-- The security stage where the target answers something unexpected, and logins that end.
use i_scsiinitiator.Base.{
  codes, str_eq, Option, none, some, [], ◌∷◌, ◌++◌, ◌≡◌, refl, true, false, ◌%◌, ◌^◌,
}
use i_scsiinitiator.Dict.{get, add_values, add_value, contains_key}
use i_scsiinitiator.Platform.Ascii.{ascii, value, same, occurs, starts, find, block}
use i_scsiinitiator.Keys.{
  key_default_time2_wait, key_default_time2_retain, key_error_recovery_level, key_auth_method,
  key_target_portal_group_tag,
}
use i_scsiinitiator.Target.{create_none, get_method, is_discovery, set_alias}
use i_scsiinitiator.Hba.{World, delivered, target_session_id}
use i_scsiinitiator.Hba.Calls.{
  set_session_parameter, get_session_parameter, set_connection_parameter, send, create_session,
  create_connection, activate_connection, release_session,
}
use i_scsiinitiator.Pdu.Parse.{
  parse_to_dict, parse_common, parse_bytes, parse_byte, to_dict_callback,
}
use i_scsiinitiator.Pdu.Create.{create_from_dict, byte_size, populate, text_command}
use i_scsiinitiator.Query.{
  Query, login_query, single_query, retry, receive, receive_loop, handle_pdu, stops, update_context,
  login_request, login_success,
}
use i_scsiinitiator.Query.Stages.{login_stage}
use i_scsiinitiator.Negotiate.Login.{
  Login, response, save_alias, negotiate_session, operational_context, parse_answer, finish,
}
use i_scsiinitiator.Negotiate.Values.{get_min, get_equal, get_and, get_or, range_invalid}
use i_scsiinitiator.Negotiate.Offer.{
  build_session, build_sw_dict_common, build_sw_dict_normal, build_cw_dict,
}
use i_scsiinitiator.Negotiate.Answer.{
  store_digests, then_do, required, optional, unchecked, checked_minimum, store, chosen,
  parse_first_burst, parse_flags, agree, declared_length, parse_lengths, parse_sw_dict_common,
  parse_sw_dict_normal, parse_cw_dict,
}
use i_scsiinitiator.Auth.Chap.{security_context, build_dict, offered_methods}
use i_scsiinitiator.Auth.Security.{
  negotiate, open_query, record_stat_sn, check_tag, choose, after_tag, by_method, authenticate,
  move_to_operational, TagCheck,
}
use i_scsiinitiator.Session.Login.{
  Request, login, login_created, negotiations, if_succeeded, finished, finish_login, stopped,
  add_connection, succeeded,
}
use i_scsiinitiator.Session.Ends.{IsSettled, login-IsSettled}
use i_scsiinitiator.Examples.Data.{reply, pair, world_of, setting, disk, chap_auth}

abbrev result_of : Option Login → Login
result_of none = stopped 1 1 disk (world_of [])
result_of (some l) = l

-- The target has to authenticate by CHAP, and answers the method "HAP".
abbrev evasive : World
evasive = world_of (
    delivered (
      reply 0x81
        (pair key_auth_method (codes "HAP") ++ pair key_target_portal_group_tag (codes "1")))
    ∷ [])

abbrev evasive_query : Query × World
evasive_query = open_query ascii setting disk chap_auth chap_auth 3 4 9 evasive

abbrev evaded : Login
evaded = result_of (negotiate ascii setting disk chap_auth chap_auth 3 4 9 evasive)

abbrev tag : TagCheck
tag =
    check_tag ascii disk 3 (get_session_parameter 3 target_session_id 0 evasive % 2 ^ 16)
      (get key_target_portal_group_tag (response evasive_query.0))
      (record_stat_sn 3 4 evasive_query.0 evasive_query.1)

abbrev asked : Request
asked = record {
  target = disk;
  initiator_auth = create_none;
  target_auth = create_none;
  sess_cfg = record { max_connections = 1; error_recovery_level = 0 };
  conn_cfg = record { header_digest = false; data_digest = true };
}

-- Both stages, in two responses.
abbrev whole_login : World
whole_login = world_of (
    delivered (
      reply 0x81
        (pair key_auth_method (codes "None") ++ pair key_target_portal_group_tag (codes "1")))
    ∷ delivered (
        reply 0x87 (
          pair key_default_time2_retain (codes "20")
          ++ pair key_default_time2_wait (codes "2")
          ++ pair key_error_recovery_level (codes "0")))
    ∷ [])

abbrev logged_in : Login
logged_in = result_of (login ascii setting asked 0xffff 0 0 9 whole_login)

logs_in :
    (login ascii setting asked 0xffff 0 0 9 whole_login ≡ some logged_in)
    × (succeeded logged_in ≡ true)
unfolding get_method get str_eq add_values add_value contains_key response save_alias set_alias
    is_discovery login_query single_query retry receive receive_loop handle_pdu stops update_context
    login_request login_stage send create_from_dict byte_size populate text_command parse_to_dict
    parse_common parse_bytes parse_byte to_dict_callback ascii value same occurs starts find block
    security_context build_dict offered_methods open_query record_stat_sn check_tag
    set_session_parameter get_session_parameter set_connection_parameter negotiate after_tag
    by_method choose authenticate move_to_operational create_session create_connection login
    login_created negotiations if_succeeded finished finish_login activate_connection
    release_session negotiate_session operational_context parse_answer finish get_min get_equal
    get_and get_or range_invalid build_session build_sw_dict_common build_sw_dict_normal
    build_cw_dict then_do required optional unchecked checked_minimum store chosen parse_first_burst
    parse_flags agree declared_length parse_lengths parse_sw_dict_common parse_sw_dict_normal
    parse_cw_dict store_digests
logs_in = (refl, refl)

login-IsSettled_example : IsSettled 3 4 logged_in
unfolding create_session create_connection
login-IsSettled_example =
    login-IsSettled ascii setting asked 0xffff 0 9 whole_login logged_in refl logs_in.0

abbrev connected : Login
connected = result_of (add_connection ascii setting asked 3 0 login_success (world_of []))
