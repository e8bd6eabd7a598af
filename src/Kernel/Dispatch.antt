-- ===== src/Kernel/Dispatch.antt =====
-- Source/Kernel/iSCSIVirtualHBA.cpp: ProcessTaskOnWorkloopThread, with the PDUs that are no part of a SCSI
-- task's data. Option: none is a NULL pointer that is used, or a transfer that does not end.
use i_scsiinitiator.Base.{
  ℕ, ◌+◌, ◌-◌, ◌*◌, ◌/◌, ◌%◌, ◌^◌, ◌==◌, ◌||◌, not, Bool, Option, none, some, List, [], ◌∷◌, take,
  drop, if◌then◌else◌,
}
use i_scsiinitiator.Kernel.Tags.{parse_lun, parse_task_id}
use i_scsiinitiator.Kernel.TaskQueue.{complete_current_task}
use i_scsiinitiator.Kernel.State.{
  Env, completed_function, notified_async, Task, ServiceResponse, task_complete,
  delivery_or_target_failure, function_rejected, Header, Incoming, Connection, Hba,
}
use i_scsiinitiator.Kernel.Activation.{deactivate_connection}
use i_scsiinitiator.Kernel.Release.{release_connection, release_session}
use i_scsiinitiator.Kernel.Wire.{
  send_pdu, recv_pdu_header, recv_pdu_data, Received, reserved_tag, op_data_in, op_r2t,
  immediate_delivery_flag,
}
use i_scsiinitiator.Kernel.DataOut.{header_init, change_connection, Transfer}
use i_scsiinitiator.Kernel.Commands.{process_data_out_for_task}
use i_scsiinitiator.Kernel.Responses.{process_scsi_response, process_data_in, no_segment}

-- taskQueue->completeCurrentTask() with its result ignored
unfoldable pub without_head : Connection → Connection
without_head c = record c { task_queue = (complete_current_task c.task_queue).1 }

unfoldable pub mgmt_response : ℕ → ServiceResponse
mgmt_response response =
    if response == 0x00
    then task_complete
    else if response == 0xff
    then function_rejected
    else delivery_or_target_failure

-- The functions that ProcessTaskMgmtRsp completes: from the abort of a task to the warm reset.
unfoldable pub is_known_function : ℕ → Bool
is_known_function function =
    function == 1
    || (function == 2 || (function == 3 || (function == 4 || (function == 5 || function == 6))))

-- ProcessTaskMgmtRsp; the completion of a target reset has no logical unit.
unfoldable pub process_task_mgmt_rsp : ℕ → ℕ → Incoming → Hba → Hba
process_task_mgmt_rsp sid cid b h =
    let function = parse_task_id b.initiator_task_tag % 2 ^ 8 in
    let lun = parse_lun b.initiator_task_tag in
    let event =
      completed_function sid function (if function == 6 then 0 else lun)
        (mgmt_response b.response) in
    change_connection without_head sid cid
      (record h { log = if is_known_function function then event ∷ h.log else h.log })

unfoldable pub from_bytes : List ℕ → ℕ
from_bytes [] = 0
from_bytes (x ∷ rest) = x + 2 ^ 8 * from_bytes rest

-- The latency in milliseconds from a timestamp: differences of 64-bit seconds and 32-bit microseconds.
unfoldable pub latency_between : ℕ × ℕ → ℕ → ℕ → ℕ
latency_between now sec usec =
    ((now.0 + 2 ^ 64 - sec) % 2 ^ 64 * 1000 + (now.1 + 2 ^ 32 - usec) % 2 ^ 32 / 1000) % 2 ^ 32

unfoldable pub measured : ℕ × ℕ → List ℕ → Connection → Connection
measured now stamp c = without_head (record c {
  latency_ms = latency_between now (from_bytes (take 8 stamp)) (from_bytes (take 4 (drop 8 stamp)));
})

unfoldable pub nop_reply : Incoming → Header
nop_reply b = record (header_init immediate_delivery_flag 0x80) {
  lun = b.lun;
  target_transfer_tag = b.target_transfer_tag;
  initiator_task_tag = reserved_tag;
}

unfoldable pub nop_in_received : Env → ℕ → ℕ → Incoming → Received (List ℕ) → Hba
nop_in_received env sid cid b r =
    if not (r.error == 0)
    then r.hba
    else if not (b.target_transfer_tag == reserved_tag)
    then (send_pdu env sid cid (nop_reply b) r.value r.hba).1
    else if b.data_segment_length == 12
    then change_connection (measured (env.clock r.hba.log) r.value) sid cid r.hba
    else r.hba

-- ProcessNOPIn
unfoldable pub process_nop_in : Env → ℕ → ℕ → Incoming → Hba → Hba
process_nop_in env sid cid b h = nop_in_received env sid cid b (
    if b.data_segment_length == 0
    then no_segment h
    else recv_pdu_data env sid cid b.data_segment_length h)

-- What an asynchronous message makes of the session: the codes are those of iSCSIPDUAsyncMsgEvent.
unfoldable pub async_action : Env → ℕ → ℕ → ℕ → Hba → Hba
async_action env sid cid event h =
    if event == 3
    then release_session env sid h
    else if event == 2
    then release_connection env sid cid h
    else if event == 1 || event == 4
    then (deactivate_connection env sid cid h).1
    else h

-- ProcessAsyncMsg: the notification goes to a client that may be NULL.
unfoldable pub process_async_msg : Env → ℕ → ℕ → Incoming → Hba → Option Hba
process_async_msg env sid cid b h =
    let h =
      if b.data_segment_length == 0
      then h
      else (recv_pdu_data env sid cid b.data_segment_length h).hba in
    let client = env.has_client h.log in
    let h = async_action env sid cid b.async_event h in
    if b.async_event == 0x00 || b.async_event == 0xff
    then some h
    else if client
    then some (record h { log = notified_async sid cid b.async_event ∷ h.log })
    else none

unfoldable pub r2t_transfer : ℕ → ℕ → Connection → Task → Incoming → Transfer
r2t_transfer sid cid c t b = record {
  sid = sid;
  cid = cid;
  task = t;
  lun = b.lun;
  initiator_task_tag = b.initiator_task_tag;
  target_transfer_tag = b.target_transfer_tag;
  segment = c.max_send_data_segment_length;
}

unfoldable pub r2t_found : Env → ℕ → ℕ → Connection → Incoming → Option Task → Hba → Option Hba
r2t_found env sid cid c b none h = some h
r2t_found env sid cid c b (some t) h =
    process_data_out_for_task env (r2t_transfer sid cid c t b) b.buffer_offset b.desired_data_length
      h

-- ProcessR2T
unfoldable pub process_r2t : Env → ℕ → ℕ → Connection → Incoming → Hba → Option Hba
process_r2t env sid cid c b h =
    r2t_found env sid cid c b (env.find_task h.log sid b.initiator_task_tag) h

-- ProcessReject: the codes are told apart, and nothing is done.
unfoldable pub process_reject : Env → ℕ → ℕ → Incoming → Hba → Hba
process_reject env sid cid b h =
    if b.data_segment_length == 0
    then h
    else (recv_pdu_data env sid cid b.data_segment_length h).hba

-- The switch of ProcessTaskOnWorkloopThread.
unfoldable pub process_pdu : Env → ℕ → ℕ → Connection → Incoming → Hba → Option Hba
process_pdu env sid cid c b h =
    if b.op_code == 0x21
    then some (process_scsi_response env sid cid b h)
    else if b.op_code == op_data_in
    then some (process_data_in env sid cid b h)
    else if b.op_code == 0x32
    then process_async_msg env sid cid b h
    else if b.op_code == 0x20
    then some (process_nop_in env sid cid b h)
    else if b.op_code == op_r2t
    then process_r2t env sid cid c b h
    else if b.op_code == 0x3f
    then some (process_reject env sid cid b h)
    else if b.op_code == 0x22
    then some (process_task_mgmt_rsp sid cid b h)
    else some h

-- ProcessTaskOnWorkloopThread with the connection that it is called for; `b` is the uncleared header.
unfoldable pub process_task : Env → ℕ → ℕ → Connection → Incoming → Hba → Option Hba
process_task env sid cid c b h =
    let r = recv_pdu_header env sid cid b h in
    if r.error == 0 then process_pdu env sid cid c r.value r.hba else some r.hba
