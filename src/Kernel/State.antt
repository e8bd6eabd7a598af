-- ===== src/Kernel/State.antt =====
-- Source/Kernel/iSCSITypesKernel.h: connections and sessions, and the state of the virtual host bus
-- adapter (iSCSIVirtualHBA.h: sessionList and targetList). What is outside is an Env: the SCSI family,
-- the sockets, the clock and the constants kiSCSIMaxSessions and kiSCSIMaxConnectionsPerSession, which
-- no file defines. What it answers may depend on all that was done before, the log.
use i_scsiinitiator.Base.{ℕ, Bool, Option, some, List}
use i_scsiinitiator.Dict.{Dict}
use i_scsiinitiator.Kernel.TaskQueue.{TaskQueue}
use i_scsiinitiator.Kernel.Slots.{set_slot}

pub data Direction : Type 0 where
  from_initiator_to_target from_target_to_initiator no_data_transfer : Direction

pub data Attribute : Type 0 where
  aca head_of_queue ordered simple other_attribute : Attribute

-- A parallel task of the SCSI family, as the adapter asks for it: which it is, its identifier and
-- logical unit, and what is to be transferred.
pub record Task : Type 0 where
  pub handle : ℕ
  pub target_id : ℕ
  pub lun : ℕ
  pub task_id : ℕ
  pub attribute : Attribute
  pub direction : Direction
  pub transfer_count : ℕ
  pub cdb_size : ℕ

-- SCSITaskStatus and SCSIServiceResponse as far as the adapter names them
pub data ServiceResponse : Type 0 where
  task_complete delivery_or_target_failure function_rejected request_in_process : ServiceResponse

pub data TaskStatus : Type 0 where
  delivery_failure : TaskStatus
  reported : ℕ → TaskStatus

-- A header that is sent, by the fields that the code fills in: of a SCSI command, a data-out, a NOP-out
-- or a task management request. Task tags
-- stand as they are stored, other numbers in host order.
pub record Header : Type 0 where
  pub op_code : ℕ
  pub flags : ℕ
  pub lun : ℕ
  pub initiator_task_tag : ℕ
  pub target_transfer_tag : ℕ
  pub referenced_task_tag : ℕ
  pub data_transfer_length : ℕ
  pub cmd_sn : ℕ
  pub exp_stat_sn : ℕ
  pub data_sn : ℕ
  pub buffer_offset : ℕ
  pub data_segment_length : ℕ

-- One entry of the iovec of SendPDU.
pub data Piece : Type 0 where
  basic_header header_digest : Header → Piece
  data_segment data_digest : List ℕ → Piece
  padding : ℕ → Piece

-- What the adapter does to the world around it.
pub data Event : Type 0 where
  sent : ℕ → ℕ → List Piece → Event
  called_create_target called_destroy_target : ℕ → Event
  completed_task : Task → TaskStatus → ServiceResponse → Event
  set_realized incremented_realized : Task → ℕ → Event
  set_controller_id : Task → ℕ → Event
  stored_hba_data : Task → ℕ → Event
  wrote_data : Task → ℕ → List ℕ → Event
  set_sense : Task → ℕ → List ℕ → Event
  set_timeout : Task → ℕ → Event
  completed_function : ℕ → ℕ → ℕ → ServiceResponse → Event
  notified_timeout : ℕ → ℕ → Event
  notified_async : ℕ → ℕ → ℕ → Event
  closed_socket : ℕ → Event
  received_header : ℕ → ℕ → Event
  received_segment : ℕ → ℕ → ℕ → Event

-- The steps of CreateSession and CreateConnection that can fail.
pub data Stage : Type 0 where
  alloc_connection alloc_queue init_queue add_queue alloc_source init_source add_source : Stage
  open_socket bind_socket connect_socket alloc_session alloc_connection_list : Stage

-- A received header: the fields of the PDUs that the adapter reads, in host order, but the target
-- transfer tag, which is echoed.
pub record Incoming : Type 0 where
  pub op_code : ℕ
  pub flags : ℕ
  pub response : ℕ
  pub status : ℕ
  pub async_event : ℕ
  pub lun : ℕ
  pub initiator_task_tag : ℕ
  pub target_transfer_tag : ℕ
  pub stat_sn : ℕ
  pub exp_cmd_sn : ℕ
  pub max_cmd_sn : ℕ
  pub buffer_offset : ℕ
  pub desired_data_length : ℕ
  pub data_segment_length : ℕ

-- What sock_receive gives for a header and its digest: its error, the bytes that it counted, and what it
-- stored; and for a data segment with padding and digest.
pub record HeaderRead : Type 0 where
  pub error : ℕ
  pub bytes : ℕ
  pub header : Incoming
  pub digest : ℕ

pub record SegmentRead : Type 0 where
  pub error : ℕ
  pub segment : List ℕ
  pub digest : ℕ

-- struct iSCSIConnection
pub record Connection : Type 0 where
  pub exp_stat_sn : ℕ
  pub cid : ℕ
  pub socket : ℕ
  pub task_queue : TaskQueue
  pub recv_enabled : Bool
  pub data_to_transfer : ℕ
  pub immediate_data_length : ℕ
  pub task_start_time_sec : ℕ
  pub task_start_time_usec : ℕ
  pub bytes_per_second : ℕ
  pub history : List ℕ
  pub history_idx : ℕ
  pub latency_ms : ℕ
  pub use_header_digest : Bool
  pub use_data_digest : Bool
  pub use_if_marker : Bool
  pub use_of_marker : Bool
  pub of_mark_int : ℕ
  pub if_mark_int : ℕ
  pub max_send_data_segment_length : ℕ
  pub max_recv_data_segment_length : ℕ

-- What is outside, as described above.
pub record Env : Type 0 where
  pub max_sessions : ℕ
  pub max_connections : ℕ
  pub find_task : List Event → ℕ → ℕ → Option Task
  pub create_target : List Event → ℕ → Bool
  pub has_client : List Event → Bool
  -- the seconds and microseconds of clock_get_system_microtime
  pub clock : List Event → ℕ × ℕ
  -- (UInt32)(bytes / (microseconds / 1.0e6)), in floating point
  pub rate : ℕ → ℕ → ℕ
  pub stage_error : List Event → Stage → ℕ
  pub new_socket : List Event → ℕ
  pub send_error : List Event → ℕ → ℕ
  pub peer_error : List Event → ℕ → ℕ
  pub read_header : List Event → ℕ → HeaderRead
  pub read_segment : List Event → ℕ → ℕ → SegmentRead
  pub data_at : List Event → Task → ℕ → ℕ → List ℕ
  pub header_crc : Incoming → ℕ
  pub segment_crc : List ℕ → ℕ
  -- a new connection, as the memory was before
  pub uncleared : List Event → Connection

-- struct iSCSISession
pub record Session : Type 0 where
  pub session_id : ℕ
  pub cmd_sn : ℕ
  pub exp_cmd_sn : ℕ
  pub max_cmd_sn : ℕ
  pub connections : List (Option Connection)
  pub num_active_connections : ℕ
  pub active : Bool
  pub default_time2_retain : ℕ
  pub default_time2_wait : ℕ
  pub error_recovery_level : ℕ
  pub max_connections : ℕ
  pub immediate_data : Bool
  pub initial_r2t : Bool
  pub data_pdu_in_order : Bool
  pub data_sequence_in_order : Bool
  pub max_outstanding_r2t : ℕ
  pub max_burst_length : ℕ
  pub first_burst_length : ℕ
  pub target_session_id : ℕ
  pub target_portal_group_tag : ℕ

-- sessionList, targetList, and the log with the newest event first.
pub record Hba : Type 0 where
  pub sessions : List (Option Session)
  pub targets : Dict ℕ
  pub log : List Event

-- A connection that is worked on, with the log.
pub record Work : Type 0 where
  pub connection : Connection
  pub log : List Event

-- A write through a session pointer, and through a connection pointer.
unfoldable pub put_session : ℕ → Option Session → Hba → Hba
put_session sid s h = record h { sessions = set_slot sid s h.sessions }

unfoldable pub put_connection : ℕ → ℕ → Option Connection → Session → Hba → Hba
put_connection sid cid c s h =
    put_session sid (some (record s { connections = set_slot cid c s.connections })) h
