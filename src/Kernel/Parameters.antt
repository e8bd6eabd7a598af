-- ===== src/Kernel/Parameters.antt =====
-- Source/Kernel/iSCSIHBAUserClient.cpp: SetSessionParameter, GetSessionParameter, SetConnectionParameter
-- and GetConnectionParameter, as the daemon calls them, with the user client's accessLock.
use i_scsiinitiator.Base.{
  ℕ, ◌%◌, ◌^◌, ◌==◌, not, Bool, false, Option, none, some, List, [], ◌∷◌, if◌then◌else◌,
}
use i_scsiinitiator.Hba.{
  SessionParameter, ConnectionParameter, session_parameter_code, default_time2_retain,
  default_time2_wait, error_recovery_level, max_connections, immediate_data, initial_r2t,
  data_pdu_in_order, data_sequence_in_order, max_outstanding_r2t, max_burst_length,
  first_burst_length, target_session_id, target_portal_group_tag, use_header_digest,
  use_data_digest, use_if_marker, use_of_marker, of_mark_int, if_mark_int,
  max_send_data_segment_length, max_recv_data_segment_length, initial_exp_stat_sn,
}
use i_scsiinitiator.Kernel.State.{Connection, Session, Hba}

-- IOReturn, as far as these calls name it
pub data IoReturn : Type 0 where
  io_success io_bad_argument io_not_found : IoReturn

-- What a call leaves: its result, what it wrote to scalarOutput, if anything, whether it holds
-- accessLock, and the adapter.
pub record Reply : Type 0 where
  pub result : IoReturn
  pub output : Option ℕ
  pub holds_lock : Bool
  pub hba : Hba

-- A UInt64 that is assigned to a bool, and a bool that is assigned to a UInt64.
unfoldable pub truth : ℕ → Bool
truth v = not (v == 0)

unfoldable pub number : Bool → ℕ
number b = if b then 1 else 0

-- The values of a session's fields, and the assignments to them.
unfoldable pub session_field : SessionParameter → Session → ℕ
session_field default_time2_retain s = s.default_time2_retain
session_field default_time2_wait s = s.default_time2_wait
session_field error_recovery_level s = s.error_recovery_level
session_field max_connections s = s.max_connections
session_field immediate_data s = number s.immediate_data
session_field initial_r2t s = number s.initial_r2t
session_field data_pdu_in_order s = number s.data_pdu_in_order
session_field data_sequence_in_order s = number s.data_sequence_in_order
session_field max_outstanding_r2t s = s.max_outstanding_r2t
session_field max_burst_length s = s.max_burst_length
session_field first_burst_length s = s.first_burst_length
session_field target_session_id s = s.target_session_id
session_field target_portal_group_tag s = s.target_portal_group_tag

unfoldable pub assign_session : SessionParameter → ℕ → Session → Session
assign_session default_time2_retain v s = record s { default_time2_retain = v % 2 ^ 16 }
assign_session default_time2_wait v s = record s { default_time2_wait = v % 2 ^ 16 }
assign_session error_recovery_level v s = record s { error_recovery_level = v % 2 ^ 8 }
assign_session max_connections v s = record s { max_connections = v % 2 ^ 32 }
assign_session immediate_data v s = record s { immediate_data = truth v }
assign_session initial_r2t v s = record s { initial_r2t = truth v }
assign_session data_pdu_in_order v s = record s { data_pdu_in_order = truth v }
assign_session data_sequence_in_order v s = record s { data_sequence_in_order = truth v }
assign_session max_outstanding_r2t v s = record s { max_outstanding_r2t = v % 2 ^ 16 }
assign_session max_burst_length v s = record s { max_burst_length = v % 2 ^ 32 }
assign_session first_burst_length v s = record s { first_burst_length = v % 2 ^ 32 }
assign_session target_session_id v s = record s { target_session_id = v % 2 ^ 16 }
assign_session target_portal_group_tag v s = record s { target_portal_group_tag = v % 2 ^ 16 }

unfoldable pub connection_field : ConnectionParameter → Connection → ℕ
connection_field use_header_digest c = number c.use_header_digest
connection_field use_data_digest c = number c.use_data_digest
connection_field use_if_marker c = number c.use_if_marker
connection_field use_of_marker c = number c.use_of_marker
connection_field of_mark_int c = c.of_mark_int
connection_field if_mark_int c = c.if_mark_int
connection_field max_send_data_segment_length c = c.max_send_data_segment_length
connection_field max_recv_data_segment_length c = c.max_recv_data_segment_length
connection_field initial_exp_stat_sn c = c.exp_stat_sn

unfoldable pub assign_connection : ConnectionParameter → ℕ → Connection → Connection
assign_connection use_header_digest v c = record c { use_header_digest = truth v }
assign_connection use_data_digest v c = record c { use_data_digest = truth v }
assign_connection use_if_marker v c = record c { use_if_marker = truth v }
assign_connection use_of_marker v c = record c { use_of_marker = truth v }
assign_connection of_mark_int v c = record c { of_mark_int = v % 2 ^ 16 }
assign_connection if_mark_int v c = record c { if_mark_int = v % 2 ^ 16 }
assign_connection max_send_data_segment_length v c = record c {
  max_send_data_segment_length = v % 2 ^ 32;
}
assign_connection max_recv_data_segment_length v c = record c {
  max_recv_data_segment_length = v % 2 ^ 32;
}
assign_connection initial_exp_stat_sn v c = record c { exp_stat_sn = v % 2 ^ 32 }

-- The numbers that C gives to the enumerators of iSCSIHBAConnectionParameters.
abbrev pub connection_parameter_code : ConnectionParameter → ℕ
connection_parameter_code use_header_digest = 0
connection_parameter_code use_data_digest = 1
connection_parameter_code use_if_marker = 2
connection_parameter_code use_of_marker = 3
connection_parameter_code of_mark_int = 4
connection_parameter_code if_mark_int = 5
connection_parameter_code max_send_data_segment_length = 6
connection_parameter_code max_recv_data_segment_length = 7
connection_parameter_code initial_exp_stat_sn = 8

abbrev session_parameters : List SessionParameter
session_parameters =
    default_time2_retain ∷ default_time2_wait ∷ error_recovery_level ∷ max_connections
    ∷ immediate_data ∷ initial_r2t ∷ data_pdu_in_order ∷ data_sequence_in_order
    ∷ max_outstanding_r2t ∷ max_burst_length ∷ first_burst_length ∷ target_session_id
    ∷ target_portal_group_tag ∷ []

abbrev pub connection_parameters : List ConnectionParameter
connection_parameters =
    use_header_digest ∷ use_data_digest ∷ use_if_marker ∷ use_of_marker ∷ of_mark_int ∷ if_mark_int
    ∷ max_send_data_segment_length ∷ max_recv_data_segment_length ∷ initial_exp_stat_sn ∷ []

-- The case of a switch that an argument chooses, none for its default.
unfoldable pub switch_case : {A : Type 0} → (A → ℕ) → ℕ → List A → Option A
switch_case code_of code [] = none
switch_case code_of code (a ∷ rest) =
    let later = switch_case code_of code rest in if code_of a == code then some a else later

-- The enumerator that a 64-bit argument is cast to, which has 32 bits.
unfoldable pub session_parameter : ℕ → Option SessionParameter
session_parameter code = switch_case session_parameter_code (code % 2 ^ 32) session_parameters

unfoldable pub connection_parameter : ℕ → Option ConnectionParameter
connection_parameter code =
    switch_case connection_parameter_code (code % 2 ^ 32) connection_parameters

-- A return without an output, the lock free and the adapter as it was.
unfoldable pub refuse : IoReturn → Hba → Reply
refuse code h = record { result = code; output = none; holds_lock = false; hba = h }

unfoldable pub answer : ℕ → Hba → Reply
answer v h = record { result = io_success; output = some v; holds_lock = false; hba = h }

unfoldable pub done : Hba → Reply
done h = record { result = io_success; output = none; holds_lock = false; hba = h }
