-- ===== src/Hba.antt =====
-- Source/User/iscsid/iSCSIHBAInterface.c: the daemon's calls into the kernel extension, with the
-- types that they pass (Source/Kernel/iSCSIHBATypes.h, iSCSITypesShared.h, the PDU headers).
-- What the kernel answers is not this code's to decide: the answers to come are part of the state.
pub mod Calls
use i_scsiinitiator.Base.{Bool, Str, ℕ, ◌-◌, ◌^◌, ◌==◌, ◌&&◌, List, if◌then◌else◌}

-- kiSCSIInvalidSessionId and kiSCSIInvalidConnectionId
abbrev pub invalid_session_id : ℕ
invalid_session_id = 0xffff

abbrev pub invalid_connection_id : ℕ
invalid_connection_id = 0xffff_ffff

-- enum iSCSIHBASessionParameters
pub data SessionParameter : Type 0 where
  default_time2_retain default_time2_wait error_recovery_level max_connections : SessionParameter
  immediate_data initial_r2t data_pdu_in_order data_sequence_in_order : SessionParameter
  max_outstanding_r2t max_burst_length first_burst_length : SessionParameter
  target_session_id target_portal_group_tag : SessionParameter

-- enum iSCSIHBAConnectionParameters
pub data ConnectionParameter : Type 0 where
  use_header_digest use_data_digest use_if_marker use_of_marker : ConnectionParameter
  of_mark_int if_mark_int max_send_data_segment_length : ConnectionParameter
  max_recv_data_segment_length initial_exp_stat_sn : ConnectionParameter

-- The numbers that C gives to the enumerators.
abbrev pub session_parameter_code : SessionParameter → ℕ
session_parameter_code default_time2_retain = 0
session_parameter_code default_time2_wait = 1
session_parameter_code error_recovery_level = 2
session_parameter_code max_connections = 3
session_parameter_code immediate_data = 4
session_parameter_code initial_r2t = 5
session_parameter_code data_pdu_in_order = 6
session_parameter_code data_sequence_in_order = 7
session_parameter_code max_outstanding_r2t = 8
session_parameter_code max_burst_length = 9
session_parameter_code first_burst_length = 10
session_parameter_code target_session_id = 11
session_parameter_code target_portal_group_tag = 12

-- The fields of iSCSIPDULoginReqBHS that the daemon fills in, as stored in the header.
pub record LoginRequest : Type 0 where
  pub login_stage : ℕ
  pub isid_d : ℕ
  pub tsih : ℕ
  pub cid : ℕ

-- A request PDU: a login, a logout with its reason code byte, or a text request with its stage flags
-- and target transfer tag.
pub data Request : Type 0 where
  login : LoginRequest → Request
  logout : ℕ → Request
  text : ℕ → ℕ → Request

-- The fields of a received header that the daemon reads. `stage` is its second byte (loginStage,
-- textReqStageBits), `response` its third. `segment` is the data segment, and `after` the byte behind
-- it in the buffer, which iSCSIPDUDataCreate makes longer than the segment.
pub record Pdu : Type 0 where
  pub op_code : ℕ
  pub stage : ℕ
  pub response : ℕ
  pub tsih : ℕ
  pub stat_sn : ℕ
  pub exp_cmd_sn : ℕ
  pub status_class : ℕ
  pub status_detail : ℕ
  pub segment : List ℕ
  pub after : ℕ

-- What one call of iSCSIHBAInterfaceReceive will find: a PDU, or a kernel error (the code minus 1, so
-- that it is no success).
pub data Delivery : Type 0 where
  delivered : Pdu → Delivery
  failed : ℕ → Delivery

-- The calls that change the kernel's state, in the order in which they reach it.
pub data Event : Type 0 where
  sent : ℕ → ℕ → Request → List ℕ → Event
  set_session : ℕ → SessionParameter → ℕ → Event
  set_connection : ℕ → ℕ → ConnectionParameter → ℕ → Event
  activated released_connection deactivated : ℕ → ℕ → Event
  released_session deactivated_all : ℕ → Event

-- What the kernel will answer to a call for identifiers or a count: the result of the call itself, and
-- the numbers that it writes where that is success, an error code among them.
pub record Reply : Type 0 where
  pub call : ℕ
  pub error : ℕ
  pub session_id : ℕ
  pub connection_id : ℕ
  pub count : ℕ

-- What such a call leaves to its caller: its result, and the caller's variables.
pub record Answer : Type 0 where
  pub error : ℕ
  pub session_id : ℕ
  pub connection_id : ℕ
  pub count : ℕ

-- The kernel as the daemon sees it. The answers to come: `deliveries` for receptions (a connection
-- whose list is empty fails), `results` for the calls that send or deactivate (success once the list
-- is empty), `answers` for those that ask for identifiers (success with zeros). `session_values` are the
-- parameters that the kernel holds, and `stores` says which it lets the daemon set for a session; `events` has the newest call first.
pub record World : Type 0 where
  pub deliveries : List Delivery
  pub results : List ℕ
  pub answers : List Reply
  pub session_values : ℕ → SessionParameter → ℕ
  pub stores : ℕ → SessionParameter → Bool
  pub events : List Event
