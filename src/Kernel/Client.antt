-- ===== src/Kernel/Client.antt =====
-- Source/Kernel/iSCSIHBAUserClient.cpp: the calls that set and get a parameter of a session or of a
-- connection, by their list of scalar inputs.
use i_scsiinitiator.Base.{
  ℕ, ◌%◌, ◌^◌, ltb, ◌&&◌, true, Option, none, some, List, [], ◌∷◌, if◌then◌else◌,
}
use i_scsiinitiator.Hba.{SessionParameter, ConnectionParameter}
use i_scsiinitiator.Kernel.Slots.{slot}
use i_scsiinitiator.Kernel.State.{Env, Connection, Session, Hba, put_session, put_connection}
use i_scsiinitiator.Kernel.Parameters.{
  io_bad_argument, io_not_found, Reply, session_field, assign_session, connection_field,
  assign_connection, session_parameter, connection_parameter, refuse, answer, done,
}
pub mod Lock
pub mod Listing
pub mod Lookup
pub mod Passing
pub mod Readback

-- The switch of SetSessionParameter, on a slot of the session table.
unfoldable pub set_in_session : ℕ → Option SessionParameter → ℕ → Option Session → Hba → Reply
set_in_session sid p v none h = refuse io_bad_argument h
set_in_session sid none v (some s) h = refuse io_bad_argument h
set_in_session sid (some p) v (some s) h = done (put_session sid (some (assign_session p v s)) h)

unfoldable pub set_session_value : Env → List ℕ → Hba → Reply
set_session_value env (session_input ∷ code ∷ v ∷ []) h =
    let sid = session_input % 2 ^ 16 in
    if ltb sid env.max_sessions
    then set_in_session sid (session_parameter code) v (slot h.sessions sid) h
    else refuse io_bad_argument h
set_session_value env inputs h = refuse io_bad_argument h

unfoldable pub get_in_session : Option SessionParameter → Option Session → Hba → Reply
get_in_session p none h = refuse io_not_found h
get_in_session none (some s) h = refuse io_bad_argument h
get_in_session (some p) (some s) h = answer (session_field p s) h

unfoldable pub get_session_value : Env → List ℕ → Hba → Reply
get_session_value env (session_input ∷ code ∷ []) h =
    let sid = session_input % 2 ^ 16 in
    if ltb sid env.max_sessions
    then get_in_session (session_parameter code) (slot h.sessions sid) h
    else refuse io_bad_argument h
get_session_value env inputs h = refuse io_bad_argument h

-- The switch of SetConnectionParameter, on a slot of a session's connections.
unfoldable pub set_at_connection :
    ℕ → ℕ → Option ConnectionParameter → ℕ → Session → Option Connection → Hba → Reply
set_at_connection sid cid p v s none h = refuse io_not_found h
set_at_connection sid cid none v s (some c) h = refuse io_bad_argument h
set_at_connection sid cid (some p) v s (some c) h =
    done (put_connection sid cid (some (assign_connection p v c)) s h)

unfoldable pub set_in_connection :
    ℕ → ℕ → Option ConnectionParameter → ℕ → Option Session → Hba → Reply
set_in_connection sid cid p v none h = refuse io_not_found h
set_in_connection sid cid p v (some s) h =
    set_at_connection sid cid p v s (slot s.connections cid) h

unfoldable pub set_connection_value : Env → List ℕ → Hba → Reply
set_connection_value env (session_input ∷ connection_input ∷ code ∷ v ∷ []) h =
    let sid = session_input % 2 ^ 16 in
    let cid = connection_input % 2 ^ 32 in
    if ltb sid env.max_sessions && ltb cid env.max_connections
    then set_in_connection sid cid (connection_parameter code) v (slot h.sessions sid) h
    else refuse io_bad_argument h
set_connection_value env inputs h = refuse io_bad_argument h

-- The switch of GetConnectionParameter, whose default returns without IOLockUnlock.
unfoldable pub get_at_connection : Option ConnectionParameter → Option Connection → Hba → Reply
get_at_connection p none h = refuse io_not_found h
get_at_connection none (some c) h = record (refuse io_bad_argument h) { holds_lock = true }
get_at_connection (some p) (some c) h = answer (connection_field p c) h

unfoldable pub get_in_connection : ℕ → Option ConnectionParameter → Option Session → Hba → Reply
get_in_connection cid p none h = refuse io_not_found h
get_in_connection cid p (some s) h = get_at_connection p (slot s.connections cid) h

unfoldable pub get_connection_value : Env → List ℕ → Hba → Reply
get_connection_value env (session_input ∷ connection_input ∷ code ∷ []) h =
    let sid = session_input % 2 ^ 16 in
    let cid = connection_input % 2 ^ 32 in
    if ltb sid env.max_sessions && ltb cid env.max_connections
    then get_in_connection cid (connection_parameter code) (slot h.sessions sid) h
    else refuse io_bad_argument h
get_connection_value env inputs h = refuse io_bad_argument h
