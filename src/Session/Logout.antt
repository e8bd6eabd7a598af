-- ===== src/Session/Logout.antt =====
-- iSCSISessionLogoutCommon, iSCSISessionRemoveConnection and iSCSISessionLogout.
use i_scsiinitiator.Base.{ℕ, suc, ◌==◌, ◌||◌, bit_or, leb, not, List, [], ◌∷◌, if◌then◌else◌}
use i_scsiinitiator.Hba.{
  World, Delivery, delivered, failed, logout, invalid_session_id, invalid_connection_id,
}
use i_scsiinitiator.Hba.Calls.{
  get_connection, get_num_connections, send, connection_lost, release_session, release_connection,
  deactivate_connection, deactivate_all_connections,
}
use i_scsiinitiator.Query.{op_reject}
use i_scsiinitiator.Auth.Chap.{e_inval}

-- kiSCSIPDUOpCodeLogoutRsp, kISCSIPDULogoutReasonCodeFlag
abbrev pub op_logout_rsp : ℕ
op_logout_rsp = 0x26

abbrev pub reason_code_flag : ℕ
reason_code_flag = 0x80

-- kiSCSIPDULogoutCloseSession, kISCSIPDULogoutCloseConnection
abbrev pub close_session : ℕ
close_session = 0

abbrev pub close_connection : ℕ
close_connection = 1

-- The error, the status code behind the pointer, and the world.
pub record Left : Type 0 where
  pub error : ℕ
  pub status : ℕ
  pub world : World

-- The response to a logout request.
unfoldable pub logout_response : List Delivery → ℕ → World → Left
logout_response [] status w = record { error = connection_lost; status = status; world = w }
logout_response (failed e ∷ rest) status w = record {
  error = suc e;
  status = status;
  world = record w { deliveries = rest };
}
logout_response (delivered p ∷ rest) status w =
    let w' = record w { deliveries = rest } in
    if p.op_code == op_logout_rsp
    then record { error = 0; status = p.response; world = w' }
    else if p.op_code == op_reject
    then record { error = e_inval; status = status; world = w' }
    else record { error = 0; status = status; world = w' }

-- iSCSISessionLogoutCommon
unfoldable pub logout_common : ℕ → ℕ → ℕ → ℕ → World → Left
logout_common session_id connection_id reason status w =
    let (error, w') =
      send session_id connection_id (logout (bit_or reason reason_code_flag)) [] w in
    if leb invalid_session_id session_id || leb invalid_connection_id connection_id
    then record { error = e_inval; status = status; world = w }
    else if not (error == 0)
    then record { error = error; status = status; world = w' }
    else logout_response w'.deliveries status w'

-- iSCSISessionLogout
unfoldable pub logout_session : ℕ → ℕ → World → Left
logout_session session_id status w =
    let (error, w1) = deactivate_all_connections session_id w in
    let (a, w2) = get_connection session_id invalid_connection_id w1 in
    let l =
      if a.error == 0
      then logout_common session_id a.connection_id close_session status w2
      else record { error = a.error; status = status; world = w2 } in
    if session_id == invalid_session_id
    then record { error = e_inval; status = status; world = w }
    else if not (error == 0)
    then record { error = error; status = status; world = w1 }
    else record l { world = release_session session_id l.world }

-- iSCSISessionRemoveConnection
unfoldable pub remove_connection : ℕ → ℕ → ℕ → World → Left
remove_connection session_id connection_id status w =
    let (a, w1) = get_num_connections session_id w in
    let (error, w2) = deactivate_connection session_id connection_id w1 in
    let l =
      if error == 0
      then logout_common session_id connection_id close_connection status w2
      else record { error = error; status = status; world = w2 } in
    if leb invalid_session_id session_id || leb invalid_connection_id connection_id
    then record { error = e_inval; status = status; world = w }
    else if not (a.error == 0)
    then record { error = a.error; status = status; world = w1 }
    else if a.count == 1
    then logout_session session_id status w1
    else record l { world = release_connection session_id connection_id l.world }
