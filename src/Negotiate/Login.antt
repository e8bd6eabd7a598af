-- ===== src/Negotiate/Login.antt =====
-- iSCSINegotiateSession: the query of the operational stage, and what becomes of its answer.
use i_scsiinitiator.Base.{Str, ℕ, ◌==◌, Option, none, some, [], if◌then◌else◌}
use i_scsiinitiator.Dict.{Dict, get}
use i_scsiinitiator.Platform.{Platform}
use i_scsiinitiator.Keys.{key_target_alias}
use i_scsiinitiator.Target.{Target, set_alias, is_discovery}
use i_scsiinitiator.Hba.{World, target_session_id}
use i_scsiinitiator.Hba.Calls.{set_session_parameter}
use i_scsiinitiator.Query.{Context, Query, login_query, login_success}
use i_scsiinitiator.Query.Stages.{operational, full_feature}
use i_scsiinitiator.Negotiate.Offer.{SessionConfig, ConnectionConfig, build_session}
use i_scsiinitiator.Negotiate.Answer.{
  Outcome, then_do, parse_sw_dict_common, parse_sw_dict_normal, parse_cw_dict,
}

-- What a step of the login leaves to its caller: its error, the status code behind the pointer, and
-- the target record. A step that ends the process leaves nothing.
pub record Login : Type 0 where
  pub error : ℕ
  pub status : ℕ
  pub target : Target
  pub world : World

-- The dictionary that the caller passed, as the query leaves it.
unfoldable pub response : Query → Dict Str
response q = elim q.text_rsp [ none ↦ [] | some d ↦ d ]

unfoldable pub save_alias : Dict Str → Target → Target
save_alias rsp target = elim (get key_target_alias rsp) [
  | none ↦ target
  | some alias ↦ set_alias alias target
]

unfoldable pub operational_context : Context → ℕ → ℕ → Context
operational_context stack session_id connection_id = record stack {
  session_id = session_id;
  connection_id = connection_id;
  current_stage = operational;
  next_stage = full_feature;
  target_session_id = 0;
}

-- The three parsers, each only after the success of the ones before. A target's IQN is never NULL.
unfoldable pub parse_answer : Platform → ℕ → ℕ → Dict Str → Query → World → Outcome
parse_answer sys session_id connection_id cmd q w =
    let stored = set_session_parameter session_id target_session_id q.context.target_session_id w in
    then_do
      (then_do
        (then_do (some (q.error, stored)) (parse_sw_dict_common sys session_id cmd (response q)))
        (parse_sw_dict_normal sys session_id cmd (response q)))
      (parse_cw_dict sys session_id connection_id cmd (response q))

unfoldable pub finish : Target → Query → Outcome → Option Login
finish target q none = none
finish target q (some (error, w)) = some (record {
  error = error;
  status = q.status;
  target = if error == 0 then save_alias (response q) target else target;
  world = w;
})

-- `stack` is what the struct on the stack holds before its fields are set.
unfoldable pub negotiate_session :
    Platform
    → Context
    → Target
    → ℕ
    → ℕ
    → SessionConfig
    → ConnectionConfig
    → ℕ
    → World
    → Option Login
negotiate_session sys stack target session_id connection_id sess_cfg conn_cfg status w =
    let cmd = build_session sys sess_cfg conn_cfg (is_discovery target) in
    let (q, w') =
      login_query sys (operational_context stack session_id connection_id) status (some cmd)
        (some []) w in
    let parsed = parse_answer sys session_id connection_id cmd q w' in
    if q.status == login_success
    then finish target q parsed
    else finish target q (some (q.error, w'))
