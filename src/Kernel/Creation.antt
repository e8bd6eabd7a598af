-- ===== src/Kernel/Creation.antt =====
-- Source/Kernel/iSCSIVirtualHBA.cpp: CreateConnection with its clean-up, and CreateSession. The addresses
-- that are passed through to the sockets are left out, and are taken to be given.
use i_scsiinitiator.Base.{
  Str, ℕ, ◌-◌, ◌*◌, ◌/◌, ◌^◌, ◌==◌, ltb, leb, not, Bool, true, false, Option, none, some, List, [],
  ◌∷◌, replicate, if◌then◌else◌, str_eq,
}
use i_scsiinitiator.Dict.{Dict, set_value}
use i_scsiinitiator.Defaults.{
  rfc_default_max_connections, rfc_default_max_recv_data_segment_length,
  rfc_default_max_burst_length, rfc_default_first_burst_length, rfc_default_time2_wait,
  rfc_default_time2_retain, rfc_default_max_outstanding_r2t,
}
use i_scsiinitiator.Hba.{invalid_session_id, invalid_connection_id}
use i_scsiinitiator.Kernel.TaskQueue.{TaskQueue, init, disable}
use i_scsiinitiator.Kernel.Slots.{slot, free_slot}
use i_scsiinitiator.Kernel.State.{
  Env, Event, Stage, alloc_connection, alloc_queue, init_queue, add_queue, alloc_source,
  init_source, add_source, open_socket, bind_socket, connect_socket, alloc_session,
  alloc_connection_list, closed_socket, Connection, Session, Hba, put_session, put_connection,
}
use i_scsiinitiator.Kernel.Activation.{einval, eagain}

-- The values of iSCSIRFC3720Defaults.h that only the kernel extension uses.
abbrev default_mark_int : ℕ
default_mark_int = 8192

abbrev default_error_recovery_level : ℕ
default_error_recovery_level = 0

-- What a creation leaves to its caller: the result and the caller's variables.
pub record Created : Type 0 where
  pub error : ℕ
  pub session_id : ℕ
  pub connection_id : ℕ
  pub hba : Hba

-- memset(history,0,bytes) over numbers of four bytes each, the lowest byte first
unfoldable pub clear_bytes : ℕ → List ℕ → List ℕ
clear_bytes bytes [] = []
clear_bytes bytes (x ∷ rest) =
    (if leb 4 bytes then 0 else x / 2 ^ (8 * bytes) * 2 ^ (8 * bytes))
    ∷ clear_bytes (bytes - 4) rest

-- A task queue as CreateConnection leaves it: on the work loop, and disabled.
unfoldable pub new_queue : TaskQueue
new_queue = disable (record init { on_work_loop = true })

-- The assignments to a new connection.
unfoldable pub new_connection : Env → List Event → ℕ → Connection
new_connection env log index = record (env.uncleared log) {
  exp_stat_sn = 0;
  data_to_transfer = 0;
  bytes_per_second = 0;
  cid = index;
  max_recv_data_segment_length = rfc_default_max_recv_data_segment_length;
  max_send_data_segment_length = rfc_default_max_recv_data_segment_length;
  use_data_digest = false;
  use_header_digest = false;
  use_of_marker = false;
  use_if_marker = false;
  of_mark_int = default_mark_int;
  if_mark_int = default_mark_int;
  task_queue = new_queue;
  recv_enabled = false;
  socket = env.new_socket log;
  history = clear_bytes 30 (env.uncleared log).history;
  history_idx = 0;
}

-- A failure of the work loop and its event sources, or of memory, is EAGAIN; that of a socket its own.
unfoldable pub stage_code : Stage → ℕ → ℕ
stage_code open_socket error = error
stage_code bind_socket error = error
stage_code connect_socket error = error
stage_code _ error = if error == 0 then 0 else eagain

unfoldable pub closes_socket : Stage → Bool
closes_socket bind_socket = true
closes_socket connect_socket = true
closes_socket _ = false

-- The first step that fails, with its error.
unfoldable pub first_failure : Env → List Event → List Stage → Option (Stage × ℕ)
first_failure env log [] = none
first_failure env log (stage ∷ rest) =
    let code = stage_code stage (env.stage_error log stage) in
    let others = first_failure env log rest in if code == 0 then others else some (stage, code)

abbrev pub connection_stages : List Stage
connection_stages =
    alloc_queue ∷ init_queue ∷ add_queue ∷ alloc_source ∷ init_source ∷ add_source ∷ open_socket
    ∷ bind_socket ∷ connect_socket ∷ []

-- The clean-up, or the new connection in its slot.
unfoldable pub finish_connection : Env → ℕ → ℕ → Session → Option (Stage × ℕ) → Hba → ℕ × Hba
finish_connection env sid index s none h =
    (0, put_connection sid index (some (new_connection env h.log index)) s h)
finish_connection env sid index s (some (stage, code)) h = (
  code,
  record (put_connection sid index none s h) {
    log = if closes_socket stage then closed_socket (env.new_socket h.log) ∷ h.log else h.log;
  },
)

unfoldable pub create_connection_in : Env → ℕ → ℕ → Option Session → Hba → Created
create_connection_in env sid cid none h = record {
  error = einval;
  session_id = sid;
  connection_id = cid;
  hba = h;
}
create_connection_in env sid cid (some s) h =
    let index = free_slot s.connections in
    let tried = finish_connection env sid index s (first_failure env h.log connection_stages) h in
    if index == env.max_connections
    then record { error = eagain; session_id = sid; connection_id = cid; hba = h }
    else if not (env.stage_error h.log alloc_connection == 0)
    then record { error = eagain; session_id = sid; connection_id = cid; hba = h }
    else record { error = tried.0; session_id = sid; connection_id = index; hba = tried.1 }

-- CreateConnection; `cid` is what the caller's variable holds.
unfoldable pub create_connection : Env → ℕ → ℕ → Hba → Created
create_connection env sid cid h =
    if ltb sid env.max_sessions
    then create_connection_in env sid cid (slot h.sessions sid) h
    else record { error = einval; session_id = sid; connection_id = cid; hba = h }

-- OSDictionary::removeObject
unfoldable pub remove_name : Str → Dict ℕ → Dict ℕ
remove_name name [] = []
remove_name name ((other, id) ∷ rest) =
    let others = remove_name name rest in if str_eq other name then rest else (other, id) ∷ others

unfoldable pub new_session : Env → ℕ → Session
new_session env index = record {
  session_id = index;
  cmd_sn = 0;
  exp_cmd_sn = 0;
  max_cmd_sn = 0;
  connections = replicate env.max_connections none;
  num_active_connections = 0;
  active = false;
  default_time2_retain = rfc_default_time2_retain;
  default_time2_wait = rfc_default_time2_wait;
  error_recovery_level = default_error_recovery_level;
  max_connections = rfc_default_max_connections;
  immediate_data = true;
  initial_r2t = true;
  data_pdu_in_order = true;
  data_sequence_in_order = true;
  max_outstanding_r2t = rfc_default_max_outstanding_r2t;
  max_burst_length = rfc_default_max_burst_length;
  first_burst_length = rfc_default_first_burst_length;
  target_session_id = 0;
  target_portal_group_tag = 0;
}

-- The end of CreateSession: the clean-up where the connection failed. The connection identifier is left
-- as CreateConnection left it.
unfoldable pub finish_session : Str → ℕ → Created → Created
finish_session name index c = if c.error == 0 then c else record c {
  session_id = invalid_session_id;
  hba = record (put_session index none c.hba) { targets = remove_name name c.hba.targets };
}

-- CreateSession for a target's name
unfoldable pub create_session : Env → Str → Hba → Created
create_session env name h =
    let index = free_slot h.sessions in
    let failed : Created = record {
      error = eagain;
      session_id = invalid_session_id;
      connection_id = invalid_connection_id;
      hba = h;
    } in
    let h = record (put_session index (some (new_session env index)) h) {
      targets = set_value name index h.targets;
    } in
    if index == env.max_sessions
    then failed
    else if not (env.stage_error failed.hba.log alloc_session == 0)
    then failed
    else if not (env.stage_error failed.hba.log alloc_connection_list == 0)
    then failed
    else finish_session name index (create_connection env index invalid_connection_id h)
