-- ===== src/Kernel/Responses.antt =====
-- Source/Kernel/iSCSIVirtualHBA.cpp: ProcessTaskOnWorkloopThread and the functions for the PDUs that a target
-- sends. A step on a connection that was freed in between is left out: the code goes on with the freed
-- memory there.
use i_scsiinitiator.Base.{
  ℕ, ◌+◌, ◌*◌, ◌%◌, ◌^◌, ◌==◌, ◌&&◌, leb, Bool, Option, none, some, List, [], ◌∷◌, take, drop,
  if◌then◌else◌,
}
use i_scsiinitiator.Kernel.TaskQueue.{complete_current_task}
use i_scsiinitiator.Kernel.Slots.{slot}
use i_scsiinitiator.Kernel.State.{
  Env, set_realized, wrote_data, set_sense, Task, ServiceResponse, task_complete,
  delivery_or_target_failure, TaskStatus, reported, Incoming, Connection, Session, Hba, Work,
  put_connection,
}
use i_scsiinitiator.Kernel.Completion.{complete_parallel_task}
use i_scsiinitiator.Kernel.Wire.{recv_pdu_data, Received, has_bit, data_in_status_flag}
use i_scsiinitiator.Kernel.DataOut.{transferred, change_connection}

-- CompleteParallelTask and completeCurrentTask, on a connection that is there.
unfoldable pub finished_work : Env → Task → TaskStatus → ServiceResponse → Connection → Hba → Work
finished_work env t status response c h =
    let w = complete_parallel_task env t status response (record { connection = c; log = h.log }) in
    record w {
      connection = record (w.connection) {
        task_queue = (complete_current_task w.connection.task_queue).1;
      };
    }

unfoldable pub finish_at :
    Env → ℕ → ℕ → Task → TaskStatus → ServiceResponse → Session → Option Connection → Hba → Hba
finish_at env sid cid t status response s none h = h
finish_at env sid cid t status response s (some c) h =
    let w = finished_work env t status response c h in
    record (put_connection sid cid (some w.connection) s h) { log = w.log }

unfoldable pub finish_in :
    Env → ℕ → ℕ → Task → TaskStatus → ServiceResponse → Option Session → Hba → Hba
finish_in env sid cid t status response none h = h
finish_in env sid cid t status response (some s) h =
    finish_at env sid cid t status response s (slot s.connections cid) h

unfoldable pub finish_task : Env → ℕ → ℕ → Task → TaskStatus → ServiceResponse → Hba → Hba
finish_task env sid cid t status response h =
    finish_in env sid cid t status response (slot h.sessions sid) h

-- The two bytes in front of sense data, and the sense data behind them.
unfoldable pub sense_length : List ℕ → ℕ
sense_length (a ∷ b ∷ rest) = a * 2 ^ 8 + b
sense_length _ = 0

unfoldable pub has_sense : ℕ → List ℕ → Bool
has_sense len segment = leb 2 len && leb (sense_length segment + 2) len

-- A check condition with sense data is reported as good.
unfoldable pub completion_status : ℕ → Bool → ℕ
completion_status status sense = if status == 2 && sense then 0 else status

unfoldable pub service_response : ℕ → ServiceResponse
service_response response = if response == 0 then task_complete else delivery_or_target_failure

unfoldable pub scsi_response_known : Env → ℕ → ℕ → Incoming → Task → List ℕ → Hba → Hba
scsi_response_known env sid cid b t segment h =
    let sense = has_sense b.data_segment_length segment in
    let realized = set_realized t (t.transfer_count % 2 ^ 32) ∷ h.log in
    let log =
      if sense
      then set_sense t (sense_length segment) (take (sense_length segment) (drop 2 segment))
        ∷ realized
      else realized in
    finish_task env sid cid t (reported (completion_status b.status sense))
      (service_response b.response) (record h { log = log })

-- For a task that is not known, the data segment is read once more.
unfoldable pub scsi_response_found : Env → ℕ → ℕ → Incoming → Option Task → List ℕ → Hba → Hba
scsi_response_found env sid cid b none segment h =
    (recv_pdu_data env sid cid b.data_segment_length h).hba
scsi_response_found env sid cid b (some t) segment h = scsi_response_known env sid cid b t segment h

unfoldable pub no_segment : Hba → Received (List ℕ)
no_segment h = record { error = 0; value = []; hba = h }

-- ProcessSCSIResponse
unfoldable pub process_scsi_response : Env → ℕ → ℕ → Incoming → Hba → Hba
process_scsi_response env sid cid b h =
    let r =
      if b.data_segment_length == 0
      then no_segment h
      else recv_pdu_data env sid cid b.data_segment_length h in
    scsi_response_found env sid cid b (env.find_task r.hba.log sid b.initiator_task_tag) r.value
      r.hba

-- The data is written to the task's buffer, where it was received.
unfoldable pub store_data_in : ℕ → ℕ → Incoming → Task → Received (List ℕ) → Hba
store_data_in sid cid b t r =
    if r.error == 0
    then change_connection (transferred b.data_segment_length) sid cid (record (r.hba) {
      log =
          set_realized t ((b.buffer_offset + b.data_segment_length) % 2 ^ 32)
          ∷ wrote_data t b.buffer_offset r.value
          ∷ r.hba.log;
    })
    else r.hba

-- A PDU with a status completes the task.
unfoldable pub status_in : Env → ℕ → ℕ → Incoming → Task → Hba → Hba
status_in env sid cid b t h =
    if has_bit b.flags 0x80 && has_bit b.flags data_in_status_flag
    then finish_task env sid cid t (reported b.status) task_complete
        (record h { log = set_realized t (t.transfer_count % 2 ^ 32) ∷ h.log })
    else h

unfoldable pub data_in_known : Env → ℕ → ℕ → Incoming → Task → Hba → Hba
data_in_known env sid cid b t h =
    status_in env sid cid b t
      (store_data_in sid cid b t (recv_pdu_data env sid cid b.data_segment_length h))

unfoldable pub data_in_found : Env → ℕ → ℕ → Incoming → Option Task → Hba → Hba
data_in_found env sid cid b none h = (recv_pdu_data env sid cid b.data_segment_length h).hba
data_in_found env sid cid b (some t) h = data_in_known env sid cid b t h

-- ProcessDataIn
unfoldable pub process_data_in : Env → ℕ → ℕ → Incoming → Hba → Hba
process_data_in env sid cid b h =
    if b.data_segment_length == 0
    then h
    else data_in_found env sid cid b (env.find_task h.log sid b.initiator_task_tag) h
