-- ===== src/Session/Login.antt =====
-- iSCSISessionLogin and iSCSISessionAddConnection. The resolution of the portal's address
-- (iSCSIUtilsGetAddressForPortal) is `resolved`, its error. The pointers are taken to be valid.
use i_scsiinitiator.Base.{ℕ, ◌==◌, ◌||◌, ◌&&◌, Bool, not, Option, none, some, if◌then◌else◌}
use i_scsiinitiator.Platform.{Platform}
use i_scsiinitiator.Target.{Target, Auth, is_discovery}
use i_scsiinitiator.Hba.{World, Answer, invalid_session_id, invalid_connection_id}
use i_scsiinitiator.Hba.Calls.{
  create_session, create_connection, is_invalid, activate_connection, release_session,
  release_connection,
}
use i_scsiinitiator.Query.{login_success}
use i_scsiinitiator.Negotiate.Offer.{SessionConfig, ConnectionConfig}
use i_scsiinitiator.Negotiate.Login.{Login, negotiate_session}
use i_scsiinitiator.Auth.Chap.{Setting, e_inval}
use i_scsiinitiator.Auth.Security.{negotiate}

-- EAGAIN
abbrev pub e_again : ℕ
e_again = 35

-- What goes in: the target record, the credentials of both sides, and the configurations.
pub record Request : Type 0 where
  pub target : Target
  pub initiator_auth : Auth
  pub target_auth : Auth
  pub sess_cfg : SessionConfig
  pub conn_cfg : ConnectionConfig

-- Neither an error nor a status other than "success".
abbrev pub succeeded : Login → Bool
succeeded l = l.error == 0 && l.status == login_success

-- The next step is taken where the one before succeeded.
unfoldable pub if_succeeded : (Login → Option Login) → Option Login → Option Login
if_succeeded next none = none
if_succeeded next (some l) = if succeeded l then next l else some l

-- The end of a login: the session is released, or its connection activated, or, for a discovery
-- session, neither.
unfoldable pub finish_login : ℕ → ℕ → Login → Login
finish_login session_id connection_id l =
    if not (succeeded l)
    then record l { world = release_session session_id l.world }
    else if not (is_discovery l.target)
    then record l { world = activate_connection session_id connection_id l.world }
    else l

unfoldable pub finished : ℕ → ℕ → Option Login → Option Login
finished session_id connection_id none = none
finished session_id connection_id (some l) = some (finish_login session_id connection_id l)

-- Both negotiations, for the identifiers that the kernel gave.
unfoldable pub negotiations : Platform → Setting → Request → ℕ → ℕ → ℕ → World → Option Login
negotiations sys env r session_id connection_id status w =
    if_succeeded
      (λ l.
        negotiate_session sys env.stack l.target session_id connection_id r.sess_cfg r.conn_cfg
          l.status l.world)
      (negotiate sys env r.target r.initiator_auth r.target_auth session_id connection_id status w)

abbrev pub stopped : ℕ → ℕ → Target → World → Login
stopped error status target w = record {
  error = error;
  status = status;
  target = target;
  world = w;
}

-- After iSCSIHBAInterfaceCreateSession, with its answer.
unfoldable pub login_created : Platform → Setting → Request → ℕ → Answer → World → Option Login
login_created sys env r status a w =
    let opened =
      if a.error == 0
      then negotiations sys env r a.session_id a.connection_id status w
      else some (stopped a.error status r.target w) in
    if a.error == 0 && is_invalid a.session_id a.connection_id
    then some (stopped e_again status r.target w)
    else finished a.session_id a.connection_id opened

-- iSCSISessionLogin; the identifiers are what the caller's variables held before.
unfoldable pub login : Platform → Setting → Request → ℕ → ℕ → ℕ → ℕ → World → Option Login
login sys env r session_id connection_id resolved status w =
    let (a, w') = create_session session_id connection_id w in
    if not (resolved == 0)
    then some (stopped resolved status r.target w)
    else login_created sys env r status a w'

-- The end of iSCSISessionAddConnection: it returns 0, whatever the negotiation returned.
unfoldable pub finish_connection : ℕ → ℕ → Login → Login
finish_connection session_id connection_id l =
    if succeeded l
    then record l { error = 0; world = activate_connection session_id connection_id l.world }
    else record l { error = 0; world = release_connection session_id connection_id l.world }

unfoldable pub connection_finished : ℕ → ℕ → Option Login → Option Login
connection_finished session_id connection_id none = none
connection_finished session_id connection_id (some l) =
    some (finish_connection session_id connection_id l)

-- After iSCSIHBAInterfaceCreateConnection. The target is the copy that the session's is read into.
unfoldable pub connection_created :
    Platform → Setting → Request → ℕ → ℕ → Answer → World → Option Login
connection_created sys env r session_id status a w =
    let authenticated =
      if status == login_success
      then negotiate sys env r.target r.initiator_auth r.target_auth session_id a.connection_id
          status w
      else some (stopped 0 status r.target w) in
    if not (a.error == 0) || a.connection_id == invalid_connection_id
    then some (stopped e_again status r.target w)
    else connection_finished session_id a.connection_id authenticated

-- iSCSISessionAddConnection
unfoldable pub add_connection : Platform → Setting → Request → ℕ → ℕ → ℕ → World → Option Login
add_connection sys env r session_id resolved status w =
    let (a, w') = create_connection session_id invalid_connection_id w in
    if session_id == invalid_session_id
    then some (stopped e_inval status r.target w)
    else if not (resolved == 0)
    then some (stopped resolved status r.target w)
    else connection_created sys env r session_id status a w'
