-- ===== src/Kernel/Release.antt =====
-- Source/Kernel/iSCSIVirtualHBA.cpp: ReleaseConnection, ReleaseSession, ReleaseAllSessions and
-- HandleConnectionTimeout.
pub mod Frame
use i_scsiinitiator.Base.{
  Str, ℕ, zero, suc, ◌==◌, ◌&&◌, ltb, Bool, true, false, Option, none, some, List, [], ◌∷◌,
  if◌then◌else◌,
}
use i_scsiinitiator.Dict.{Dict}
use i_scsiinitiator.Kernel.Slots.{slot, set_slot, count}
use i_scsiinitiator.Kernel.State.{
  Env, closed_socket, notified_timeout, Connection, Session, Hba, put_session, put_connection,
}
use i_scsiinitiator.Kernel.Activation.{
  deactivate_connection, deactivate_all_connections, has_connection,
}

-- session->connections[connectionId] = NULL
unfoldable pub clear_in : ℕ → ℕ → Option Session → Hba → Hba
clear_in sid cid none h = h
clear_in sid cid (some s) h = put_connection sid cid none s h

unfoldable pub clear_connection : ℕ → ℕ → Hba → Hba
clear_connection sid cid h = clear_in sid cid (slot h.sessions sid) h

-- ReleaseConnection behind its checks
unfoldable pub released_connection : Env → ℕ → ℕ → Connection → Hba → Hba
released_connection env sid cid c h =
    let h = if c.task_queue.enabled then (deactivate_connection env sid cid h).1 else h in
    let h = clear_connection sid cid h in record h { log = closed_socket c.socket ∷ h.log }

unfoldable pub release_at : Env → ℕ → ℕ → Option Connection → Hba → Hba
release_at env sid cid none h = h
release_at env sid cid (some c) h = released_connection env sid cid c h

unfoldable pub release_in : Env → ℕ → ℕ → Option Session → Hba → Hba
release_in env sid cid none h = h
release_in env sid cid (some s) h = release_at env sid cid (slot s.connections cid) h

-- ReleaseConnection
unfoldable pub release_connection : Env → ℕ → ℕ → Hba → Hba
release_connection env sid cid h =
    if ltb sid env.max_sessions && ltb cid env.max_connections
    then release_in env sid cid (slot h.sessions sid) h
    else h

-- The loop of ReleaseSession over the `n` connections from `cid` on.
unfoldable pub release_from : ℕ → Env → ℕ → ℕ → Hba → Hba
release_from zero env sid cid h = h
release_from (suc n) env sid cid h =
    release_from n env sid (suc cid)
      (if has_connection sid cid h then release_connection env sid cid h else h)

-- The first name in the target table that stands for the session is removed.
unfoldable pub remove_target : ℕ → Dict ℕ → Dict ℕ
remove_target sid [] = []
remove_target sid ((name, id) ∷ rest) =
    let others = remove_target sid rest in if id == sid then rest else (name, id) ∷ others

unfoldable pub released_session : Env → ℕ → Option Session → Hba → Hba
released_session env sid none h = h
released_session env sid (some s) h =
    let h = put_session sid none (release_from env.max_connections env sid 0 h) in
    record h { targets = remove_target sid h.targets }

-- ReleaseSession
unfoldable pub release_session : Env → ℕ → Hba → Hba
release_session env sid h =
    if ltb sid env.max_sessions then released_session env sid (slot h.sessions sid) h else h

-- The loop of ReleaseAllSessions; for an empty slot ReleaseSession does nothing.
unfoldable pub release_sessions_from : ℕ → Env → ℕ → Hba → Hba
release_sessions_from zero env sid h = h
release_sessions_from (suc n) env sid h =
    release_sessions_from n env (suc sid) (release_session env sid h)

-- ReleaseAllSessions
unfoldable pub release_all_sessions : Env → Hba → Hba
release_all_sessions env h = release_sessions_from env.max_sessions env 0 h

-- HandleConnectionTimeout behind its check
unfoldable pub timed_out : Env → ℕ → ℕ → Option Session → Hba → Hba
timed_out env sid cid none h = h
timed_out env sid cid (some s) h =
    let several = ltb 1 (count s.connections) in
    let h =
      if several
      then (deactivate_connection env sid cid h).1
      else (deactivate_all_connections env sid h).1 in
    if env.has_client h.log
    then record h { log = notified_timeout sid cid ∷ h.log }
    else if several
    then release_connection env sid cid h
    else release_session env sid h

-- HandleConnectionTimeout
unfoldable pub handle_connection_timeout : Env → ℕ → ℕ → Hba → Hba
handle_connection_timeout env sid cid h = timed_out env sid cid (slot h.sessions sid) h
