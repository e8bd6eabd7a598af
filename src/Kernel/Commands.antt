-- ===== src/Kernel/Commands.antt =====
-- Source/Kernel/iSCSIVirtualHBA.cpp: BeginTaskOnWorkloopThread and
-- MeasureConnectionLatency. The command descriptor block
-- is left out. Task tags stand as they are stored, all other numbers in host order. Option: none is a transfer that does not end.
use i_scsiinitiator.Base.{
  ℕ, zero, suc, ◌-◌, ◌/◌, ◌%◌, ◌^◌, ◌==◌, ◌&&◌, ◌||◌, ltb, not, min, bit_or, Bool, true, false,
  Option, none, some, List, [], ◌∷◌, ◌++◌, if◌then◌else◌,
}
use i_scsiinitiator.Kernel.Tags.{parse_task_type}
use i_scsiinitiator.Kernel.State.{
  Env, set_timeout, incremented_realized, Task, Direction, from_initiator_to_target,
  from_target_to_initiator, no_data_transfer, Attribute, aca, head_of_queue, ordered, simple,
  other_attribute, Header, Connection, Session, Hba,
}
use i_scsiinitiator.Kernel.Wire.{send_pdu, reserved_tag}
use i_scsiinitiator.Kernel.DataOut.{
  header_init, transferred, change_connection, Transfer, send_data,
}

abbrev pub flag_no_unsolicited_data : ℕ
flag_no_unsolicited_data = 0x80

-- kiSCSIPDUSCSICmdFlagWrite and ...Read
unfoldable pub direction_flag : Direction → ℕ
direction_flag from_initiator_to_target = 0x20
direction_flag from_target_to_initiator = 0x40
direction_flag no_data_transfer = 0

-- kiSCSIPDUSCSICmdTaskAttr...
unfoldable pub attribute_flag : Attribute → ℕ
attribute_flag aca = 0x04
attribute_flag head_of_queue = 0x03
attribute_flag ordered = 0x02
attribute_flag simple = 0x01
attribute_flag other_attribute = 0x00

-- (UInt32)GetRequestedDataTransferCount
unfoldable pub transfer_size : Task → ℕ
transfer_size t = t.transfer_count % 2 ^ 32

-- The header of a SCSI command, with the flags of direction and attribute.
unfoldable pub command_header : Task → ℕ → Header
command_header t tag =
    record (header_init 0x01 (bit_or (direction_flag t.direction) (attribute_flag t.attribute))) {
      lun = t.lun;
      initiator_task_tag = tag;
      data_transfer_length = transfer_size t;
    }

unfoldable pub with_flag : Bool → Header → Header
with_flag b header =
    if b then record header { flags = bit_or header.flags flag_no_unsolicited_data } else header

-- The bytes that go with the command, where immediate data is used.
unfoldable pub immediate_length : Session → Connection → Task → ℕ
immediate_length s c t =
    if s.immediate_data then min c.immediate_data_length (transfer_size t) else 0

-- Whether the command says that no unsolicited data follows, where it takes immediate data or not.
unfoldable pub says_no_more : Session → ℕ → Task → Bool
says_no_more s sent_length t = s.immediate_data && (s.initial_r2t || sent_length == transfer_size t)

-- Whether data-out PDUs follow without an R2T, and how many bytes.
unfoldable pub follows : Session → ℕ → Task → Bool
follows s offset t =
    not s.initial_r2t && (ltb offset s.first_burst_length && ltb offset (transfer_size t))

unfoldable pub following_length : Session → ℕ → Task → ℕ
following_length s offset t = min (s.first_burst_length - offset) (transfer_size t - offset)

unfoldable pub is_write : Direction → Bool
is_write from_initiator_to_target = true
is_write from_target_to_initiator = false
is_write no_data_transfer = false

-- ProcessDataOutForTask
unfoldable pub process_data_out_for_task : Env → Transfer → ℕ → ℕ → Hba → Option Hba
process_data_out_for_task env x offset len h = send_data (suc len) env x offset len 0 h

-- The command of a WRITE with its immediate data, sent and accounted for.
unfoldable pub send_command : Env → ℕ → ℕ → ℕ → Task → Session → Connection → Hba → Hba
send_command env sid cid tag t s c h =
    let n = immediate_length s c t in
    let header = with_flag (says_no_more s n t) (command_header t tag) in
    let segment = if s.immediate_data then env.data_at h.log t 0 n else [] in
    let sent_hba = (send_pdu env sid cid header segment h).1 in
    if s.immediate_data
    then change_connection (transferred n) sid cid
        (record sent_hba { log = incremented_realized t n ∷ sent_hba.log })
    else sent_hba

unfoldable pub unsolicited_transfer : ℕ → ℕ → ℕ → Task → Connection → Transfer
unsolicited_transfer sid cid tag t c = record {
  sid = sid;
  cid = cid;
  task = t;
  lun = t.lun;
  initiator_task_tag = tag;
  target_transfer_tag = reserved_tag;
  segment = c.max_send_data_segment_length;
}

-- BeginTaskOnWorkloopThread for a WRITE with unsolicited data
unfoldable pub begin_write : Env → ℕ → ℕ → ℕ → Task → Session → Connection → Hba → Option Hba
begin_write env sid cid tag t s c h =
    let n = immediate_length s c t in
    let h = send_command env sid cid tag t s c h in
    if follows s n t
    then process_data_out_for_task env (unsolicited_transfer sid cid tag t c) n
        (following_length s n t) h
    else some h

-- clock_get_system_microtime into the connection
unfoldable pub stamped : ℕ × ℕ → Connection → Connection
stamped now c = record c { task_start_time_sec = now.0; task_start_time_usec = now.1 }

-- The timestamp and the timeout of a task that begins.
unfoldable pub start_task : Env → ℕ → ℕ → Task → Hba → Hba
start_task env sid cid t h =
    let h = change_connection (stamped (env.clock h.log)) sid cid h in
    record h { log = set_timeout t 20_000 ∷ h.log }

-- BeginTaskOnWorkloopThread for a task that the SCSI stack knows
unfoldable pub begin_known : Env → ℕ → ℕ → ℕ → Session → Connection → Task → Hba → Option Hba
begin_known env sid cid tag s c t h =
    let h = start_task env sid cid t h in
    if is_write t.direction && not (s.initial_r2t && not s.immediate_data)
    then begin_write env sid cid tag t s c h
    else some (send_pdu env sid cid (with_flag true (command_header t tag)) [] h).1

unfoldable pub begin_found : Env → ℕ → ℕ → ℕ → Session → Connection → Option Task → Hba → Option Hba
begin_found env sid cid tag s c none h = some h
begin_found env sid cid tag s c (some t) h = begin_known env sid cid tag s c t h

-- The timestamp of MeasureConnectionLatency: a number of `n` bytes, the lowest first
unfoldable pub to_bytes : ℕ → ℕ → List ℕ
to_bytes zero value = []
to_bytes (suc n) value = value % 2 ^ 8 ∷ to_bytes n (value / 2 ^ 8)

unfoldable pub timestamp : ℕ × ℕ → List ℕ
timestamp now = to_bytes 8 now.0 ++ to_bytes 4 now.1

-- MeasureConnectionLatency
unfoldable pub measure_connection_latency : Env → ℕ → ℕ → Hba → Hba
measure_connection_latency env sid cid h =
    let header = record (header_init 0x00 0x80) { target_transfer_tag = reserved_tag } in
    (send_pdu env sid cid header (timestamp (env.clock h.log)) h).1

-- BeginTaskOnWorkloopThread, with the session and the connection that it is called for
unfoldable pub begin_task : Env → ℕ → ℕ → ℕ → Session → Connection → Hba → Option Hba
begin_task env sid cid tag s c h =
    if parse_task_type tag == 1
    then some (measure_connection_latency env sid cid h)
    else begin_found env sid cid tag s c (env.find_task h.log sid tag) h
