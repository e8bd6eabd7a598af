-- ===== src/Kernel/Requests.antt =====
-- Source/Kernel/iSCSIVirtualHBA.cpp: what the SCSI stack asks for: ProcessParallelTask, the task management
-- requests and HandleTimeout. Task tags stand as they are stored, all other numbers in host order.
use i_scsiinitiator.Base.{
  ℕ, ◌+◌, ◌%◌, ◌^◌, ◌==◌, ltb, bit_or, Option, none, some, [], ◌∷◌, if◌then◌else◌,
}
use i_scsiinitiator.Query.{swap32}
use i_scsiinitiator.Kernel.Tags.{scsi_task, task_mgmt, build_initiator_task_tag}
use i_scsiinitiator.Kernel.TaskQueue.{queue_task, complete_current_task}
use i_scsiinitiator.Kernel.Slots.{slot}
use i_scsiinitiator.Kernel.State.{
  Env, set_controller_id, stored_hba_data, Task, ServiceResponse, delivery_or_target_failure,
  function_rejected, request_in_process, delivery_failure, Header, Connection, Session, Hba, Work,
  put_connection,
}
use i_scsiinitiator.Kernel.Completion.{complete_parallel_task}
use i_scsiinitiator.Kernel.Release.{handle_connection_timeout}
use i_scsiinitiator.Kernel.Wire.{send_pdu}
use i_scsiinitiator.Kernel.DataOut.{header_init}

-- The functions of task management requests, kiSCSIPDUTaskMgmtFunc...
abbrev pub func_abort_task : ℕ
func_abort_task = 1

abbrev pub func_target_warm_reset : ℕ
func_target_warm_reset = 6

unfoldable pub task_mgmt_header : ℕ → ℕ → ℕ → Header
task_mgmt_header function lun referenced = record (header_init 0x02 (bit_or 0x80 function)) {
  lun = lun;
  initiator_task_tag = build_initiator_task_tag task_mgmt lun function;
  referenced_task_tag = referenced;
}

unfoldable pub request_in : Env → ℕ → Option Session → Header → Hba → ServiceResponse × Hba
request_in env sid none header h = (delivery_or_target_failure, h)
request_in env sid (some s) header h =
    let out = send_pdu env sid 0 header [] h in
    (if out.0 == 0 then request_in_process else delivery_or_target_failure, out.1)

-- AbortTaskSetRequest, ClearACARequest, ClearTaskSetRequest and LogicalUnitResetRequest by their function
unfoldable pub task_mgmt_request : Env → ℕ → ℕ → ℕ → Hba → ServiceResponse × Hba
task_mgmt_request env function sid lun h =
    request_in env sid (slot h.sessions sid) (task_mgmt_header function lun 0) h

-- AbortTaskRequest: the task is referred to by the identifier of the SCSI stack.
unfoldable pub abort_task_request : Env → ℕ → ℕ → ℕ → Hba → ServiceResponse × Hba
abort_task_request env sid lun task_id h =
    request_in env sid (slot h.sessions sid) (task_mgmt_header func_abort_task lun (swap32 task_id))
      h

-- TargetResetRequest
unfoldable pub target_reset_request : Env → ℕ → Hba → ServiceResponse × Hba
target_reset_request env sid h = task_mgmt_request env func_target_warm_reset sid 0 h

-- ProcessParallelTask for the first connection of the session, which it takes whatever the loop over
-- the connections found.
unfoldable pub accept_task :
    Env → ℕ → Session → Option Connection → Task → Hba → ServiceResponse × Hba
accept_task env sid s none t h = (function_rejected, h)
accept_task env sid s (some c) t h =
    let tag = build_initiator_task_tag scsi_task t.lun t.task_id in
    let queued = record c {
      data_to_transfer = (c.data_to_transfer + t.transfer_count) % 2 ^ 64;
      task_queue = queue_task tag c.task_queue;
    } in
    (
      request_in_process,
      record (put_connection sid 0 (some queued) s h) {
        log = set_controller_id t tag ∷ stored_hba_data t 0 ∷ h.log;
      },
    )

unfoldable pub accept_in : Env → ℕ → Option Session → Task → Hba → ServiceResponse × Hba
accept_in env sid none t h = (function_rejected, h)
accept_in env sid (some s) t h = accept_task env sid s (slot s.connections 0) t h

-- ProcessParallelTask
unfoldable pub process_parallel_task : Env → Task → Hba → ServiceResponse × Hba
process_parallel_task env t h = accept_in env t.target_id (slot h.sessions t.target_id) t h

-- HandleTimeout with the connection of the task
unfoldable pub timed_out_task : Env → ℕ → ℕ → Session → Option Connection → Task → Hba → Hba
timed_out_task env sid cid s none t h = h
timed_out_task env sid cid s (some c) t h =
    let w : Work = record {
      connection = record c { task_queue = (complete_current_task c.task_queue).1 };
      log = h.log;
    } in
    let done = complete_parallel_task env t delivery_failure delivery_or_target_failure w in
    if env.peer_error h.log c.socket == 0
    then record (put_connection sid cid (some done.connection) s h) { log = done.log }
    else handle_connection_timeout env sid cid h

unfoldable pub timed_out_in : Env → ℕ → ℕ → Option Session → Task → Hba → Hba
timed_out_in env sid cid none t h = h
timed_out_in env sid cid (some s) t h = timed_out_task env sid cid s (slot s.connections cid) t h

-- HandleTimeout; `cid` is what ProcessParallelTask stored with the task.
unfoldable pub handle_timeout : Env → Task → ℕ → Hba → Hba
handle_timeout env t cid h =
    if ltb cid env.max_connections
    then timed_out_in env (t.target_id % 2 ^ 16) cid (slot h.sessions (t.target_id % 2 ^ 16)) t h
    else h
