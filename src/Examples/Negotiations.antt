-- ===== src/Examples/Negotiations.antt =====
-- Negotiated parameters.
use i_scsiinitiator.Base.{
  Str, codes, str_eq, ◌≤◌, Option, none, some, [], ◌∷◌, ◌≡◌, refl, arith, true, false, ◌++◌,
}
use i_scsiinitiator.Dict.{Dict, get}
use i_scsiinitiator.Platform.Ascii.{ascii, value}
use i_scsiinitiator.Keys.{
  key_default_time2_wait, key_default_time2_retain, key_error_recovery_level, key_max_connections,
}
use i_scsiinitiator.Hba.{
  World, default_time2_retain, default_time2_wait, error_recovery_level, delivered,
}
use i_scsiinitiator.Hba.Calls.{set_session_parameter}
use i_scsiinitiator.Negotiate.Offer.{SessionConfig, ConnectionConfig, build_session}
use i_scsiinitiator.Negotiate.Answer.{
  retain_bounds, wait_bounds, level_bounds, parse_sw_dict_normal,
}
use i_scsiinitiator.Negotiate.Agreed.{Accepted}
use i_scsiinitiator.Negotiate.Total.{
  GoesOn, parse_sw_dict_normal-GoesOn, parse_sw_dict_normal-discovery,
}
use i_scsiinitiator.Examples.Data.{world_of, pair, reply, to_operational}
use i_scsiinitiator.Negotiate.Login.{Login, negotiate_session, operational_context}
use i_scsiinitiator.Target.{Target, is_discovery}
use i_scsiinitiator.Query.{Query, login_query}

abbrev offer : Dict Str
offer =
    (key_default_time2_wait, codes "2")
    ∷ (key_default_time2_retain, codes "20")
    ∷ (key_error_recovery_level, codes "0")
    ∷ []

abbrev answer : Dict Str
answer =
    (key_error_recovery_level, codes "1")
    ∷ (key_default_time2_retain, codes "60")
    ∷ (key_default_time2_wait, codes "1")
    ∷ []

-- What the kernel holds afterwards.
abbrev afterwards : World
afterwards = set_session_parameter 3 error_recovery_level 0 (
    set_session_parameter 3 default_time2_wait 1
      (set_session_parameter 3 default_time2_retain 20 (world_of [])))

retain-Accepted :
    Accepted ascii retain_bounds
      (get key_default_time2_retain offer)
      (get key_default_time2_retain answer)
unfolding get str_eq ascii value
retain-Accepted = record {
  offer = codes "20";
  answer = codes "60";
  offered = refl;
  answered = refl;
  low = omega arith;
  high = omega arith;
}

wait-Accepted :
    Accepted ascii wait_bounds
      (get key_default_time2_wait offer)
      (get key_default_time2_wait answer)
unfolding get str_eq ascii value
wait-Accepted = record {
  offer = codes "2";
  answer = codes "1";
  offered = refl;
  answered = refl;
  low = omega arith;
  high = omega arith;
}

level-Accepted :
    Accepted ascii level_bounds
      (get key_error_recovery_level offer)
      (get key_error_recovery_level answer)
unfolding get str_eq ascii value
level-Accepted = record {
  offer = codes "0";
  answer = codes "1";
  offered = refl;
  answered = refl;
  low = omega arith;
  high = omega arith;
}

parse_sw_dict_normal-GoesOn_example : GoesOn (
    parse_sw_dict_normal ascii 3
      (build_session ascii
        (record { max_connections = 1; error_recovery_level = 0 })
        (record { header_digest = false; data_digest = true })
        false)
      answer
      (world_of []))
parse_sw_dict_normal-GoesOn_example =
    parse_sw_dict_normal-GoesOn ascii 3 (record { max_connections = 1; error_recovery_level = 0 })
      (record { header_digest = false; data_digest = true }) answer (world_of [])

abbrev connections : Dict Str
connections = (key_max_connections, codes "4") ∷ []

four :
    (get key_max_connections connections ≡ some (codes "4"))
    × (1 ≤ ascii.int_value (codes "4"))
    × (ascii.int_value (codes "4") ≤ 65535)
unfolding get str_eq ascii value
four = (refl, omega arith, omega arith)

parse_sw_dict_normal-discovery_example :
    parse_sw_dict_normal ascii 3
      (build_session ascii
        (record { max_connections = 1; error_recovery_level = 0 })
        (record { header_digest = false; data_digest = true })
        true)
      connections
      (world_of [])
    ≡ none
parse_sw_dict_normal-discovery_example =
    parse_sw_dict_normal-discovery ascii 3
      (record { max_connections = 1; error_recovery_level = 0 })
      (record { header_digest = false; data_digest = true }) (codes "4") connections (world_of [])
      four.0 four.1 four.2

-- The operational stage of a discovery session.
abbrev replied : World
replied = world_of (
    delivered (
      reply 0x87 (
        pair key_default_time2_retain (codes "20")
        ++ pair key_default_time2_wait (codes "1")
        ++ pair key_error_recovery_level (codes "0")))
    ∷ [])

abbrev portal : Target
portal = record { iqn = []; alias = [] }

abbrev sess_cfg : SessionConfig
sess_cfg = record { max_connections = 1; error_recovery_level = 2 }

abbrev conn_cfg : ConnectionConfig
conn_cfg = record { header_digest = false; data_digest = true }

abbrev result_of : Option Login → Login
result_of none = record { error = 1; status = 1; target = portal; world = world_of [] }
result_of (some l) = l

abbrev negotiated : Login
negotiated =
    result_of (negotiate_session ascii to_operational portal 3 4 sess_cfg conn_cfg 0 replied)

abbrev operational_query : Query × World
operational_query =
    login_query ascii (operational_context to_operational 3 4) 0
      (some (build_session ascii sess_cfg conn_cfg (is_discovery portal))) (some []) replied
