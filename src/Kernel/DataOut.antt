-- ===== src/Kernel/DataOut.antt =====
-- Source/Kernel/iSCSIVirtualHBA.cpp: ProcessDataOutForTask, which sends a part of a task's data in as many
-- data-out PDUs as the target's longest data segment makes necessary.
pub mod Chunks
pub mod Coverage
pub mod Rounds
use i_scsiinitiator.Base.{
  ℕ, zero, suc, ◌+◌, ◌-◌, ◌%◌, ◌^◌, ◌==◌, leb, Bool, true, false, Option, none, some, List, [], ◌∷◌,
  if◌then◌else◌,
}
use i_scsiinitiator.Kernel.Slots.{slot, set_slot}
use i_scsiinitiator.Kernel.State.{
  Env, Event, incremented_realized, Task, Header, Connection, Session, Hba, put_connection,
}
use i_scsiinitiator.Kernel.Activation.{incremented}
use i_scsiinitiator.Kernel.Wire.{send_pdu, op_data_out}

abbrev pub data_out_final_flag : ℕ
data_out_final_flag = 0x80

-- A header of which nothing is filled in but the operation code and the flags, as the ...Init constants.
abbrev pub header_init : ℕ → ℕ → Header
header_init op_code flags = record {
  op_code = op_code;
  flags = flags;
  lun = 0;
  initiator_task_tag = 0;
  target_transfer_tag = 0;
  referenced_task_tag = 0;
  data_transfer_length = 0;
  cmd_sn = 0;
  exp_stat_sn = 0;
  data_sn = 0;
  buffer_offset = 0;
  data_segment_length = 0;
}

-- dataToTransfer -= length, on 64 bits
unfoldable pub transferred : ℕ → Connection → Connection
transferred len c = record c { data_to_transfer = (c.data_to_transfer + 2 ^ 64 - len) % 2 ^ 64 }

-- A write to a connection by its pointer; a connection that was freed is not there to be written to.
unfoldable pub change_at :
    (Connection → Connection) → ℕ → ℕ → Session → Option Connection → Hba → Hba
change_at f sid cid s none h = h
change_at f sid cid s (some c) h = put_connection sid cid (some (f c)) s h

unfoldable pub change_in : (Connection → Connection) → ℕ → ℕ → Option Session → Hba → Hba
change_in f sid cid none h = h
change_in f sid cid (some s) h = change_at f sid cid s (slot s.connections cid) h

unfoldable pub change_connection : (Connection → Connection) → ℕ → ℕ → Hba → Hba
change_connection f sid cid h = change_in f sid cid (slot h.sessions sid) h

-- What stays the same over the PDUs of one transfer: `segment` is maxSendDataSegmentLength.
pub record Transfer : Type 0 where
  pub sid : ℕ
  pub cid : ℕ
  pub task : Task
  pub lun : ℕ
  pub initiator_task_tag : ℕ
  pub target_transfer_tag : ℕ
  pub segment : ℕ

unfoldable pub data_out_header : Transfer → Bool → ℕ → ℕ → Header
data_out_header x final offset data_sn =
    record (header_init op_data_out (if final then data_out_final_flag else 0)) {
      lun = x.lun;
      initiator_task_tag = x.initiator_task_tag;
      target_transfer_tag = x.target_transfer_tag;
      buffer_offset = offset;
      data_sn = data_sn;
    }

-- What follows a PDU that was sent.
unfoldable pub account : Transfer → ℕ → Hba → Hba
account x len h =
    change_connection (transferred len) x.sid x.cid
      (record h { log = incremented_realized x.task len ∷ h.log })

-- The bytes of the next PDU.
unfoldable pub next_size : Transfer → ℕ → ℕ
next_size x len = if leb len x.segment then len else x.segment

unfoldable pub send_next : Env → Transfer → ℕ → ℕ → ℕ → Hba → ℕ × Hba
send_next env x offset len data_sn h =
    send_pdu env x.sid x.cid (data_out_header x (leb len x.segment) offset data_sn)
      (env.data_at h.log x.task offset (next_size x len)) h

-- The loop of ProcessDataOutForTask: none where the fuel runs out.
unfoldable pub send_data : ℕ → Env → Transfer → ℕ → ℕ → ℕ → Hba → Option Hba
send_data zero env x offset len data_sn h = none
send_data (suc fuel) env x offset len data_sn h =
    let size = next_size x len in
    let out = send_next env x offset len data_sn h in
    let rest =
      send_data fuel env x ((offset + size) % 2 ^ 32) (len - size) (incremented data_sn)
        (account x size out.1) in
    if len == 0 then some h else if out.0 == 0 then rest else some out.1
