-- ===== src/Auth/Security.antt =====
-- iSCSIAuthNegotiate and iSCSIAuthInterrogate. A result is `none` where the code hands NULL to
-- CoreFoundation, which ends the process: where the target chooses no method at all.
use i_scsiinitiator.Base.{
  Str, str_eq, ℕ, ◌+◌, ◌%◌, ◌^◌, ◌==◌, ◌&&◌, not, Option, none, some, [], ◌∷◌, if◌then◌else◌,
}
use i_scsiinitiator.Dict.{Dict, get}
use i_scsiinitiator.Platform.{Platform}
use i_scsiinitiator.Keys.{
  key_initiator_name, key_initiator_alias, key_target_name, key_session_type,
  value_session_type_normal, key_auth_method, value_auth_method_all, value_auth_method_none,
  value_auth_method_chap, key_target_portal_group_tag,
}
use i_scsiinitiator.Target.{
  Target, Auth, AuthMethod, method_none, method_chap, method_invalid, get_method, is_none,
  is_discovery,
}
use i_scsiinitiator.Hba.{World, target_session_id, target_portal_group_tag, initial_exp_stat_sn}
use i_scsiinitiator.Hba.Calls.{
  set_session_parameter, get_session_parameter, set_connection_parameter, is_invalid,
}
use i_scsiinitiator.Query.{Query, login_query, login_success}
use i_scsiinitiator.Query.Stages.{security, operational}
use i_scsiinitiator.Negotiate.Login.{Login, response, save_alias}
use i_scsiinitiator.Auth.Chap.{
  Setting, e_auth, e_inval, security_context, negotiate_chap, offered_methods, build_dict,
}

-- How the validation of the portal group tag ends.
pub data TagCheck : Type 0 where
  missing mismatch : TagCheck
  valid : World → TagCheck

-- The tag of the first connection is stored, and that of a further connection compared.
unfoldable pub check_tag : Platform → Target → ℕ → ℕ → Option Str → World → TagCheck
check_tag sys target session_id tsih none w = if is_discovery target then valid w else missing
check_tag sys target session_id tsih (some tag) w =
    if is_discovery target
    then valid w
    else if tsih == 0
    then valid
        (set_session_parameter session_id target_portal_group_tag (sys.int_value tag % 2 ^ 16) w)
    else if get_session_parameter session_id target_portal_group_tag 0 w % 2 ^ 16
        == sys.int_value tag
    then valid w
    else mismatch

-- What is done with the method that the target chose.
pub data Choice : Type 0 where
  refused run_chap move_on stay : Choice

unfoldable pub choose : Platform → AuthMethod → Str → Str → Choice
choose sys initiator offered answer =
    if not (sys.find_ci offered answer)
    then refused
    else if str_eq answer value_auth_method_chap
    then run_chap
    else if str_eq answer value_auth_method_none
    then (if is_none initiator then stay else move_on)
    else stay

-- The end of a negotiation without CHAP: the alias is saved, and 0 returned.
abbrev pub accept : Dict Str → Target → ℕ → World → Login
accept rsp target status w = record {
  error = 0;
  status = status;
  target = save_alias rsp target;
  world = w;
}

-- The blank request that follows a choice of None, whose error is not looked at.
unfoldable pub move_to_operational : Platform → Target → Query → World → Login
move_to_operational sys target q w =
    let (q2, w2) =
      login_query sys (record q.context { next_stage = operational }) q.status none none w in
    accept (response q) target q2.status w2

-- The alias of the first answer, after CHAP has succeeded.
unfoldable pub after_chap : Dict Str → Login → Login
after_chap rsp l =
    if l.error == 0 && l.status == login_success
    then record l { target = save_alias rsp l.target }
    else l

unfoldable pub authenticate :
    Platform → Setting → Target → Auth → Auth → ℕ → ℕ → ℕ → Query → World → Choice → Login
authenticate sys env target initiator_auth target_auth session_id connection_id tsih q w refused =
    record { error = e_auth; status = q.status; target = target; world = w }
authenticate sys env target initiator_auth target_auth session_id connection_id tsih q w run_chap =
    after_chap (response q) (
      negotiate_chap sys env target initiator_auth target_auth session_id connection_id tsih
        q.status w)
authenticate sys env target initiator_auth target_auth session_id connection_id tsih q w move_on =
    move_to_operational sys target q w
authenticate sys env target initiator_auth target_auth session_id connection_id tsih q w stay =
    accept (response q) target q.status w

-- With the method that the target answered; it is looked for in the offer without a test for NULL.
unfoldable pub by_method :
    Platform
    → Setting
    → Target
    → Auth
    → Auth
    → ℕ
    → ℕ
    → ℕ
    → Query
    → World
    → Option Str
    → Option Login
by_method sys env target initiator_auth target_auth session_id connection_id tsih q w none = none
by_method sys env target initiator_auth target_auth session_id connection_id tsih q w
      (some answer) =
    let offered = offered_methods (get_method initiator_auth) (get_method target_auth) in
    some (
      authenticate sys env target initiator_auth target_auth session_id connection_id tsih q w
        (choose sys (get_method initiator_auth) offered answer))

-- From the tag on. A mismatch leaves with the error as it is, which is 0.
unfoldable pub after_tag :
    Platform → Setting → Target → Auth → Auth → ℕ → ℕ → ℕ → Query → World → TagCheck → Option Login
after_tag sys env target initiator_auth target_auth session_id connection_id tsih q w missing =
    some (record { error = e_auth; status = q.status; target = target; world = w })
after_tag sys env target initiator_auth target_auth session_id connection_id tsih q w mismatch =
    some (record { error = q.error; status = q.status; target = target; world = w })
after_tag sys env target initiator_auth target_auth session_id connection_id tsih q w (valid w') =
    by_method sys env target initiator_auth target_auth session_id connection_id tsih q w'
      (get key_auth_method (response q))

-- The first query of a login.
unfoldable pub open_query :
    Platform → Setting → Target → Auth → Auth → ℕ → ℕ → ℕ → World → Query × World
open_query sys env target initiator_auth target_auth session_id connection_id status w =
    let tsih = get_session_parameter session_id target_session_id 0 w % 2 ^ 16 in
    let next = if is_none (get_method initiator_auth) then operational else security in
    login_query sys (security_context env.stack session_id connection_id tsih next) status
      (some (build_dict env target initiator_auth target_auth)) (some []) w

-- The number that the first response gives is recorded.
unfoldable pub record_stat_sn : ℕ → ℕ → Query → World → World
record_stat_sn session_id connection_id q w =
    set_connection_parameter session_id connection_id initial_exp_stat_sn
      ((q.context.stat_sn + 1) % 2 ^ 32) w

-- iSCSIAuthNegotiate
unfoldable pub negotiate :
    Platform → Setting → Target → Auth → Auth → ℕ → ℕ → ℕ → World → Option Login
negotiate sys env target initiator_auth target_auth session_id connection_id status w =
    let tsih = get_session_parameter session_id target_session_id 0 w % 2 ^ 16 in
    let (q, w') =
      open_query sys env target initiator_auth target_auth session_id connection_id status w in
    let w2 = record_stat_sn session_id connection_id q w' in
    let tag = get key_target_portal_group_tag (response q) in
    if q.error == 0 && q.status == login_success
    then after_tag sys env target initiator_auth target_auth session_id connection_id tsih q w2
        (check_tag sys target session_id tsih tag w2)
    else some (record { error = q.error; status = q.status; target = target; world = w' })

-- What a target's choice says, where it makes one (iSCSIAuthInterrogate).
unfoldable pub method_of : Option Str → AuthMethod
method_of none = method_none
method_of (some answer) =
    if str_eq answer value_auth_method_chap
    then method_chap
    else if str_eq answer value_auth_method_none
    then method_none
    else method_invalid

pub record Interrogation : Type 0 where
  pub error : ℕ
  pub status : ℕ
  pub method : AuthMethod
  pub world : World

-- iSCSIAuthInterrogate; its pointers are taken to be valid. The caller's variable keeps `before` where
-- the identifiers are refused.
unfoldable pub interrogate :
    Platform → Setting → Target → ℕ → ℕ → AuthMethod → ℕ → World → Interrogation
interrogate sys env target session_id connection_id before status w =
    let context = security_context env.stack session_id connection_id 0 security in
    let cmd : Dict Str =
      (key_session_type, value_session_type_normal)
      ∷ (key_target_name, target.iqn)
      ∷ (key_initiator_name, env.initiator_iqn)
      ∷ (key_initiator_alias, env.initiator_alias)
      ∷ (key_auth_method, value_auth_method_all)
      ∷ [] in
    let (q, w') = login_query sys context status (some cmd) (some []) w in
    let method =
      if q.error == 0 && q.status == login_success
      then method_of (get key_auth_method (response q))
      else method_invalid in
    if is_invalid session_id connection_id
    then record { error = e_inval; status = status; method = before; world = w }
    else record { error = q.error; status = q.status; method = method; world = w' }
