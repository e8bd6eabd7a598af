-- ===== src/Kernel/Client/Lookup.antt =====
-- Source/Kernel/iSCSIHBAUserClient.cpp: ReleaseConnection, GetConnection, GetNumConnections,
-- GetSessionIdForTargetIQN, GetSessionIds and GetConnectionIds. The last two get structureOutputSize; a
-- session identifier has two bytes and a connection identifier four.
use i_scsiinitiator.Base.{
  Str, ℕ, suc, ◌%◌, ◌^◌, ◌*◌, ◌==◌, ltb, ◌&&◌, Option, none, some, List, [], ◌∷◌, length,
  if◌then◌else◌,
}
use i_scsiinitiator.Dict.{get}
use i_scsiinitiator.Hba.{invalid_connection_id}
use i_scsiinitiator.Kernel.Slots.{slot, count}
use i_scsiinitiator.Kernel.State.{Env, Connection, Session, Hba}
use i_scsiinitiator.Kernel.Release.{release_connection, release_session}
use i_scsiinitiator.Kernel.Parameters.{io_bad_argument, io_not_found, Reply, refuse, answer, done}

-- The connections of a session in the table, none where there is no session.
unfoldable pub connections_of : Option Session → List (Option Connection)
connections_of none = []
connections_of (some s) = s.connections

-- ReleaseConnection of the user client
unfoldable pub client_release_connection : Env → ℕ → ℕ → Hba → Reply
client_release_connection env session_input connection_input h =
    let sid = session_input % 2 ^ 16 in
    let cid = connection_input % 2 ^ 32 in
    let number_of_connections = count (connections_of (slot h.sessions sid)) in
    if ltb sid env.max_sessions && ltb cid env.max_connections
    then done (
        if number_of_connections == 1
        then release_session env sid h
        else release_connection env sid cid h)
    else refuse io_bad_argument h

-- The indices of the slots in use, from `n` on.
unfoldable pub used_from : {A : Type 0} → ℕ → List (Option A) → List ℕ
used_from n [] = []
used_from n (none ∷ rest) = used_from (suc n) rest
used_from n (some a ∷ rest) = n ∷ used_from (suc n) rest

-- The first of some identifiers, or the identifier of no connection.
unfoldable pub first_used : List ℕ → ℕ
first_used [] = invalid_connection_id
first_used (n ∷ rest) = n

unfoldable pub get_connection_in : Option Session → Hba → Reply
get_connection_in none h = refuse io_not_found h
get_connection_in (some s) h = answer (first_used (used_from 0 s.connections)) h

unfoldable pub get_connection : Env → ℕ → Hba → Reply
get_connection env session_input h =
    let sid = session_input % 2 ^ 16 in
    if ltb sid env.max_sessions
    then get_connection_in (slot h.sessions sid) h
    else refuse io_bad_argument h

-- GetNumConnections, whose result is never set to success
unfoldable pub get_num_connections : Env → ℕ → Hba → Reply
get_num_connections env session_input h =
    let sid = session_input % 2 ^ 16 in
    if ltb sid env.max_sessions
    then record (refuse io_not_found h) {
      output = some (count (connections_of (slot h.sessions sid)));
    }
    else refuse io_bad_argument h

-- An OSNumber of the target table, as GetSessionIdForTargetIQN returns it.
unfoldable pub session_id_found : Option ℕ → Hba → Reply
session_id_found none h = refuse io_not_found h
session_id_found (some id) h = answer (id % 2 ^ 16) h

unfoldable pub get_session_id_for_target_iqn : Str → Hba → Reply
get_session_id_for_target_iqn name h = session_id_found (get name h.targets) h

-- GetSessionIds: the reply, and the identifiers written to structureOutput, of which the output has the
-- number.
unfoldable pub get_session_ids : Env → ℕ → Hba → Reply × List ℕ
get_session_ids env structure_output_size h =
    if ltb structure_output_size (2 * env.max_sessions)
    then (refuse io_bad_argument h, [])
    else (answer (length (used_from 0 h.sessions)) h, used_from 0 h.sessions)

unfoldable pub get_connection_ids_in : Option Session → Hba → Reply × List ℕ
get_connection_ids_in none h = (refuse io_not_found h, [])
get_connection_ids_in (some s) h =
    (answer (length (used_from 0 s.connections)) h, used_from 0 s.connections)

unfoldable pub get_connection_ids : Env → ℕ → ℕ → Hba → Reply × List ℕ
get_connection_ids env structure_output_size session_input h =
    let sid = session_input % 2 ^ 16 in
    if ltb structure_output_size (4 * env.max_connections)
    then (refuse io_bad_argument h, [])
    else if ltb sid env.max_sessions
    then get_connection_ids_in (slot h.sessions sid) h
    else (refuse io_bad_argument h, [])
