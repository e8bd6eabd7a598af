-- ===== src/Examples/Adapter.antt =====
-- The virtual host bus adapter: an environment that runs, and a session at work in it.
use i_scsiinitiator.Kernel.DataOut.Rounds.{part}
use i_scsiinitiator.Base.{ℕ, ◌%◌, ◌^◌, true, false, none, some, [], ◌∷◌, replicate}
use i_scsiinitiator.Kernel.State.{
  Env, Task, from_initiator_to_target, simple, Incoming, Connection, Session, Hba,
}
use i_scsiinitiator.Kernel.TaskQueue.{TaskQueue}

abbrev pub queue_init : TaskQueue
queue_init = record {
  tasks = [];
  new_task = false;
  enabled = true;
  on_work_loop = true;
  signals = 0;
}

abbrev pub connection : Connection
connection = record {
  exp_stat_sn = 0;
  cid = 0;
  socket = 7;
  task_queue = record queue_init { tasks = 5 ∷ 9 ∷ [] };
  recv_enabled = true;
  data_to_transfer = 10;
  immediate_data_length = 4;
  task_start_time_sec = 0;
  task_start_time_usec = 0;
  bytes_per_second = 0;
  history = replicate 30 0;
  history_idx = 29;
  latency_ms = 0;
  use_header_digest = false;
  use_data_digest = false;
  use_if_marker = false;
  use_of_marker = false;
  of_mark_int = 8192;
  if_mark_int = 8192;
  max_send_data_segment_length = 4;
  max_recv_data_segment_length = 8192;
}

abbrev pub task : Task
task = record {
  handle = 1;
  target_id = 0;
  lun = 3;
  task_id = 5;
  attribute = simple;
  direction = from_initiator_to_target;
  transfer_count = 10;
  cdb_size = 10;
}

abbrev pub incoming : Incoming
incoming = record {
  op_code = 0x31;
  flags = 0;
  response = 0;
  status = 0;
  async_event = 0;
  lun = 0;
  initiator_task_tag = 5;
  target_transfer_tag = 1;
  stat_sn = 0;
  exp_cmd_sn = 0;
  max_cmd_sn = 0;
  buffer_offset = 0;
  desired_data_length = 10;
  data_segment_length = 0;
}

-- Two sessions of two connections; every task is known, and every call succeeds.
-- The data of a task: each byte is the remainder of its offset.
abbrev pub content : ℕ → ℕ
content n = n % 2 ^ 8

abbrev pub env : Env
env = record {
  max_sessions = 2;
  max_connections = 2;
  find_task = λ log sid tag. some task;
  create_target = λ log sid. true;
  has_client = λ log. true;
  clock = λ log. (1, 0);
  rate = λ bytes usecs. bytes;
  stage_error = λ log stage. 0;
  new_socket = λ log. 7;
  send_error = λ log socket. 0;
  peer_error = λ log socket. 0;
  read_header = λ log socket. record { error = 0; bytes = 48; header = incoming; digest = 0 };
  read_segment = λ log socket n. record { error = 0; segment = replicate n 1; digest = 0 };
  data_at = λ log t offset n. part content offset n;
  header_crc = λ header. 0;
  segment_crc = λ segment. 0;
  uncleared = λ log. connection;
}

abbrev pub session : Session
session = record {
  session_id = 0;
  cmd_sn = 0;
  exp_cmd_sn = 0;
  max_cmd_sn = 0;
  connections = some connection ∷ some (record connection { cid = 1 }) ∷ [];
  num_active_connections = 1;
  active = false;
  default_time2_retain = 20;
  default_time2_wait = 2;
  error_recovery_level = 0;
  max_connections = 1;
  immediate_data = true;
  initial_r2t = false;
  data_pdu_in_order = true;
  data_sequence_in_order = true;
  max_outstanding_r2t = 1;
  max_burst_length = 262_144;
  first_burst_length = 8;
  target_session_id = 0;
  target_portal_group_tag = 0;
}

abbrev pub adapter : Hba
adapter = record { sessions = some session ∷ none ∷ []; targets = []; log = [] }
