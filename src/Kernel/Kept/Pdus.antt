-- ===== src/Kernel/Kept/Pdus.antt =====
-- Source/Kernel/iSCSIVirtualHBA.cpp: SCSI responses and data keep the session table well-formed.
use i_scsiinitiator.Base.{ℕ, ◌==◌, Option, none, some, List, ◌≡◌, refl, ◌∙◌, chosen, if◌then◌else◌}
use i_scsiinitiator.Kernel.Slots.{slot}
use i_scsiinitiator.Kernel.State.{
  Env, Task, TaskStatus, reported, ServiceResponse, task_complete, Incoming, Connection, Session,
  Hba, put_connection,
}
use i_scsiinitiator.Kernel.Drain.{complete_parallel_task-Grows}
use i_scsiinitiator.Kernel.Wire.{recv_pdu_data, Received}
use i_scsiinitiator.Kernel.DataOut.{transferred}
use i_scsiinitiator.Kernel.Responses.{
  finished_work, finish_at, finish_in, finish_task, scsi_response_known, scsi_response_found,
  process_scsi_response, no_segment, data_in_known, data_in_found, store_data_in, status_in,
  process_data_in,
}
use i_scsiinitiator.Kernel.WellFormed.{
  IsConnection, IsSession, IsWellFormed, put_connection-IsWellFormed,
}
use i_scsiinitiator.Kernel.Kept.{relabelled, only}
use i_scsiinitiator.Kernel.Kept.Receives.{recv_pdu_data-IsWellFormed}
use i_scsiinitiator.Kernel.Kept.Sends.{change_connection-IsWellFormed, transferred-IsConnection}

module _ (env : Env) where
  finish_at-IsWellFormed :
      (sid cid : ℕ) (t : Task) (status : TaskStatus) (response : ServiceResponse) (s : Session)
      (o : Option Connection) (h : Hba)
      → IsWellFormed env h
      → IsSession env sid s
      → slot s.connections cid ≡ o
      → IsWellFormed env (finish_at env sid cid t status response s o h)
  unfolding finish_at finished_work
  finish_at-IsWellFormed sid cid t status response s none h w is e = w
  finish_at-IsWellFormed sid cid t status response s (some c) h w is e =
      let ic = is.each cid c e in
      let g =
        complete_parallel_task-Grows env t status response (record { connection = c; log = h.log })
          ic.bounded in
      relabelled env (put_connection sid cid _ s h) _ refl (
        put_connection-IsWellFormed env sid cid _ s h w is (
          only (λ (d : Connection). IsConnection cid d) _
            (record { same_cid = g.same_cid ∙ ic.same_cid; bounded = g.bounded })))

  finish_in-IsWellFormed :
      (sid cid : ℕ) (t : Task) (status : TaskStatus) (response : ServiceResponse)
      (o : Option Session) (h : Hba)
      → IsWellFormed env h
      → slot h.sessions sid ≡ o
      → IsWellFormed env (finish_in env sid cid t status response o h)
  unfolding finish_in
  finish_in-IsWellFormed sid cid t status response none h w e = w
  finish_in-IsWellFormed sid cid t status response (some s) h w e =
      finish_at-IsWellFormed sid cid t status response s _ h w (w.each sid s e) refl

  pub finish_task-IsWellFormed :
      (sid cid : ℕ) (t : Task) (status : TaskStatus) (response : ServiceResponse) (h : Hba)
      → IsWellFormed env h
      → IsWellFormed env (finish_task env sid cid t status response h)
  unfolding finish_task
  finish_task-IsWellFormed sid cid t status response h w =
      finish_in-IsWellFormed sid cid t status response _ h w refl

  scsi_response_found-IsWellFormed :
      (sid cid : ℕ) (b : Incoming) (o : Option Task) (segment : List ℕ) (h : Hba)
      → IsWellFormed env h
      → IsWellFormed env (scsi_response_found env sid cid b o segment h)
  unfolding scsi_response_found scsi_response_known
  scsi_response_found-IsWellFormed sid cid b none segment h w =
      recv_pdu_data-IsWellFormed env sid cid _ h w
  scsi_response_found-IsWellFormed sid cid b (some t) segment h w =
      finish_task-IsWellFormed sid cid t _ _ _ (relabelled env h _ refl w)

  -- The data segment of a PDU, where it has one.
  pub segment-IsWellFormed :
      (sid cid len : ℕ) (h : Hba)
      → IsWellFormed env h
      → IsWellFormed env (if len == 0 then no_segment h else recv_pdu_data env sid cid len h).hba
  unfolding no_segment
  segment-IsWellFormed sid cid len h w =
      chosen (λ (r : Received (List ℕ)). IsWellFormed env r.hba) (len == 0) _ _ w
        (recv_pdu_data-IsWellFormed env sid cid len h w)

  pub process_scsi_response-IsWellFormed :
      (sid cid : ℕ) (b : Incoming) (h : Hba)
      → IsWellFormed env h
      → IsWellFormed env (process_scsi_response env sid cid b h)
  unfolding process_scsi_response
  process_scsi_response-IsWellFormed sid cid b h w =
      scsi_response_found-IsWellFormed sid cid b _ _ _
        (segment-IsWellFormed sid cid b.data_segment_length h w)

  store_data_in-IsWellFormed :
      (sid cid : ℕ) (b : Incoming) (t : Task) (r : Received (List ℕ))
      → IsWellFormed env r.hba
      → IsWellFormed env (store_data_in sid cid b t r)
  unfolding store_data_in
  store_data_in-IsWellFormed sid cid b t r w =
      chosen (λ (g : Hba). IsWellFormed env g) (r.error == 0) _ _
        (change_connection-IsWellFormed env (transferred b.data_segment_length) sid cid _
          (transferred-IsConnection env b.data_segment_length cid) (relabelled env r.hba _ refl w))
        w

  status_in-IsWellFormed :
      (sid cid : ℕ) (b : Incoming) (t : Task) (h : Hba)
      → IsWellFormed env h
      → IsWellFormed env (status_in env sid cid b t h)
  unfolding status_in
  status_in-IsWellFormed sid cid b t h w =
      chosen (λ (g : Hba). IsWellFormed env g) _ _ h
        (finish_task-IsWellFormed sid cid t (reported b.status) task_complete _
          (relabelled env h _ refl w))
        w

  data_in_found-IsWellFormed :
      (sid cid : ℕ) (b : Incoming) (o : Option Task) (h : Hba)
      → IsWellFormed env h
      → IsWellFormed env (data_in_found env sid cid b o h)
  unfolding data_in_found data_in_known
  data_in_found-IsWellFormed sid cid b none h w = recv_pdu_data-IsWellFormed env sid cid _ h w
  data_in_found-IsWellFormed sid cid b (some t) h w = status_in-IsWellFormed sid cid b t _ (
      store_data_in-IsWellFormed sid cid b t _
        (recv_pdu_data-IsWellFormed env sid cid b.data_segment_length h w))

  pub process_data_in-IsWellFormed :
      (sid cid : ℕ) (b : Incoming) (h : Hba)
      → IsWellFormed env h
      → IsWellFormed env (process_data_in env sid cid b h)
  unfolding process_data_in
  process_data_in-IsWellFormed sid cid b h w =
      chosen (λ (g : Hba). IsWellFormed env g) (b.data_segment_length == 0) h _ w
        (data_in_found-IsWellFormed sid cid b _ h w)
