-- ===== src/Auth/Chap.antt =====
-- iSCSIAuthNegotiateCHAP, iSCSIAuthNegotiateBuildDict, iSCSIAuthNegotiate and iSCSIAuthInterrogate.
use i_scsiinitiator.Base.{
  Str, codes, ℕ, ◌==◌, ◌&&◌, Option, none, some, List, [], ◌∷◌, if◌then◌else◌,
}
use i_scsiinitiator.Dict.{Dict, get, add_values}
use i_scsiinitiator.Platform.{Platform}
use i_scsiinitiator.Keys.{
  key_initiator_name, key_initiator_alias, key_target_name, key_session_type,
  value_session_type_discovery, value_session_type_normal, key_auth_method, value_auth_method_none,
  value_auth_method_chap, key_auth_chap_digest, value_auth_chap_digest_md5, key_auth_chap_id,
  key_auth_chap_challenge, key_auth_chap_response, key_auth_chap_name,
}
use i_scsiinitiator.Target.{
  Target, Auth, AuthMethod, get_method, get_chap_values, is_chap, is_none, is_discovery,
}
use i_scsiinitiator.Hba.{World}
use i_scsiinitiator.Query.{Context, Query, login_query, login_success}
use i_scsiinitiator.Query.Stages.{Stage, security, operational}
use i_scsiinitiator.Negotiate.Login.{Login, response, save_alias}
use i_scsiinitiator.Auth.Hex.{create_response, create_challenge, create_id}

-- EAUTH and EINVAL
abbrev pub e_auth : ℕ
e_auth = 80

abbrev pub e_inval : ℕ
e_inval = 22

-- What the functions find around them: the initiator's name and alias (global variables), the bytes
-- that /dev/random gives for an identifier and a challenge, and what is on the stack, where they have
-- structs and buffers that they do not clear.
pub record Setting : Type 0 where
  pub initiator_iqn : Str
  pub initiator_alias : Str
  pub random_id : ℕ
  pub random_challenge : List ℕ
  pub stack : Context
  pub behind : Str

unfoldable pub security_context : Context → ℕ → ℕ → ℕ → Stage → Context
security_context stack session_id connection_id tsih next = record stack {
  session_id = session_id;
  connection_id = connection_id;
  current_stage = security;
  next_stage = next;
  target_session_id = tsih;
}

-- Our name and response, where we have a name and a secret and the target sent a challenge.
unfoldable pub initiator_answer :
    Platform → Str → Option Str → Option Str → Option Str → Option Str → Dict Str
initiator_answer sys behind (some user) (some secret) (some identifier) (some challenge) =
    (key_auth_chap_response, create_response sys behind identifier secret challenge)
    ∷ (key_auth_chap_name, user)
    ∷ []
initiator_answer sys behind _ _ _ _ = []

-- Our challenge, where the target has to authenticate.
unfoldable pub target_challenge : Platform → Setting → Option Str → Option Str → Dict Str
target_challenge sys env (some user) (some secret) =
    (key_auth_chap_id, create_id sys env.random_id)
    ∷ (key_auth_chap_challenge, create_challenge env.random_challenge)
    ∷ []
target_challenge sys env _ _ = []

-- The response that the target has to give to our challenge.
abbrev pub expected : Platform → Setting → Str → Str
expected sys env secret =
    create_response sys env.behind (create_id sys env.random_id) secret
      (create_challenge env.random_challenge)

-- The error of the comparison: none where we need not authenticate the target.
unfoldable pub verify : Platform → Setting → Option Str → Option Str → Option Str → ℕ
verify sys env (some user) (some secret) (some rsp) =
    if sys.compare_ci rsp (expected sys env secret) then 0 else e_auth
verify sys env (some user) (some secret) none = e_auth
verify sys env none secret rsp = 0
verify sys env (some user) none rsp = 0

-- What follows the second query of CHAP.
unfoldable pub finish_chap : Platform → Setting → Target → Auth → Query → World → Login
finish_chap sys env target target_auth q w =
    let (user, secret) = get_chap_values target_auth in
    let queried = if q.status == login_success then q.error else e_auth in
    let error =
      if queried == 0
      then verify sys env user secret (get key_auth_chap_response (response q))
      else queried in
    record {
      error = error;
      status = q.status;
      target = if error == 0 then save_alias (response q) target else target;
      world = w;
    }

-- What the second query sends.
unfoldable pub chap_answer : Platform → Setting → Auth → Auth → Dict Str → Dict Str
chap_answer sys env initiator_auth target_auth rsp =
    let (initiator_user, initiator_secret) = get_chap_values initiator_auth in
    let (target_user, target_secret) = get_chap_values target_auth in
    add_values
      (initiator_answer sys env.behind initiator_user initiator_secret (get key_auth_chap_id rsp)
        (get key_auth_chap_challenge rsp))
      (target_challenge sys env target_user target_secret)

-- The first query of CHAP, on an empty dictionary.
unfoldable pub first_query : Platform → Setting → ℕ → ℕ → ℕ → ℕ → World → Query × World
first_query sys env session_id connection_id tsih status w =
    login_query sys (security_context env.stack session_id connection_id tsih security) status
      (some ((key_auth_chap_digest, value_auth_chap_digest_md5) ∷ [])) (some []) w

-- The second query, whose answer goes into the dictionary of the first.
unfoldable pub second_query : Platform → Setting → Auth → Auth → Query → World → Query × World
second_query sys env initiator_auth target_auth q w =
    login_query sys (record q.context { next_stage = operational }) q.status
      (some (chap_answer sys env initiator_auth target_auth (response q))) (some (response q)) w

-- iSCSIAuthNegotiateCHAP
unfoldable pub negotiate_chap :
    Platform → Setting → Target → Auth → Auth → ℕ → ℕ → ℕ → ℕ → World → Login
negotiate_chap sys env target initiator_auth target_auth session_id connection_id tsih status w =
    let (q, w') = first_query sys env session_id connection_id tsih status w in
    let (q2, w2) = second_query sys env initiator_auth target_auth q w' in
    if q.error == 0 && q.status == login_success
    then finish_chap sys env target target_auth q2 w2
    else record { error = q.error; status = q.status; target = target; world = w' }

-- The methods that the initiator offers: None as well as CHAP where the target need not authenticate.
unfoldable pub offered_methods : AuthMethod → AuthMethod → Str
offered_methods initiator target =
    if is_chap initiator
    then (if is_none target then codes "None,CHAP" else value_auth_method_chap)
    else value_auth_method_none

-- iSCSIAuthNegotiateBuildDict
unfoldable pub build_dict : Setting → Target → Auth → Auth → Dict Str
build_dict env target initiator_auth target_auth =
    let methods = offered_methods (get_method initiator_auth) (get_method target_auth) in
    add_values
      (if is_discovery target
        then (key_session_type, value_session_type_discovery) ∷ []
        else (key_session_type, value_session_type_normal) ∷ (key_target_name, target.iqn) ∷ [])
      ((key_initiator_name, env.initiator_iqn)
        ∷ (key_initiator_alias, env.initiator_alias)
        ∷ (key_auth_method, methods)
        ∷ [])
