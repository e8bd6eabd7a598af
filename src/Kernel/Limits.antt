-- ===== src/Kernel/Limits.antt =====
-- Source/Kernel/iSCSIVirtualHBA.cpp: how much data BeginTaskOnWorkloopThread sends unasked and what it says of
-- it, the time that CompleteParallelTask measures, and the task that AbortTaskRequest names.
use i_scsiinitiator.Base.{
  ℕ, ◌+◌, ◌*◌, ◌^◌, ◌≤◌, ◌<◌, ltb, Option, none, some, List, [], ◌∷◌, ap, refl, ◌≡◌, ◌↔◌, arith,
  Bool-cases, inl, inr, if◌then◌else◌,
}
use mathlib.Core.Option.{some-injective}
use i_scsiinitiator.Query.{swap32}
use i_scsiinitiator.Kernel.Tags.{scsi_task, build_initiator_task_tag, build_initiator_task_tag-sum}
use i_scsiinitiator.Kernel.State.{
  Env, Event, sent, basic_header, Connection, Session, Hba, Task, put_session,
}
use i_scsiinitiator.Kernel.Completion.{elapsed_usecs}
use i_scsiinitiator.Kernel.Commands.{immediate_length, follows, following_length}
use i_scsiinitiator.Kernel.Requests.{
  task_mgmt_header, func_abort_task, abort_task_request, request_in,
}
use i_scsiinitiator.Kernel.Wire.{send_pdu, send_by, completed_header, pieces}
use i_scsiinitiator.Kernel.Present.{Present, send_pdu-by}

-- The bytes that are sent with and behind a WRITE command before the target asks.
abbrev pub unsolicited : Session → Connection → Task → ℕ
unsolicited s c t =
    let n = immediate_length s c t in n + (if follows s n t then following_length s n t else 0)

-- Between two readings of the clock, the first not later in seconds than the second, the time is measured
-- right, or 2 ^ 32 microseconds too long where the microseconds of the second are below the first's.
elapsed_usecs-late :
    (sec usec start_sec start_usec : ℕ)
    → sec < 2 ^ 64
    → start_sec ≤ sec
    → usec < 1_000_000
    → start_usec < 1_000_000
    → elapsed_usecs (sec, usec) start_sec start_usec + (start_sec * 1_000_000 + start_usec)
      ≡ sec * 1_000_000 + usec + (if ltb usec start_usec then 2 ^ 32 else 0)
unfolding elapsed_usecs
elapsed_usecs-late sec usec start_sec start_usec fits later usec_fits start_fits =
    elim (Bool-cases (ltb usec start_usec)) [
      | inl e ↦ rw e (ground (arith, e))
      | inr e ↦ rw e (ground (arith, e))
    ]

-- The task that the PDU of a log's newest event refers to.
unfoldable pub referenced_by : List Event → Option ℕ
referenced_by (sent sid cid (basic_header b ∷ rest) ∷ log) = some b.referenced_task_tag
referenced_by log = none

-- Where the session has its first connection and the PDU can be sent, AbortTaskRequest sends a request, and
-- this refers to the tag that the task's command carried exactly when the task's identifier and logical unit
-- number are both 0.
pub abort_task_request-refers :
    (env : Env) (sid lun task_id : ℕ) (h : Hba) (p : Present sid 0 h)
    → env.send_error h.log p.connection.socket ≡ 0
    → lun < 2 ^ 8
    → task_id < 2 ^ 16
    → let after = (abort_task_request env sid lun task_id h).1 in
      (referenced_by after.log ≡ some (build_initiator_task_tag scsi_task lun task_id))
      ↔ ((lun ≡ 0) × (task_id ≡ 0))
unfolding abort_task_request request_in
abort_task_request-refers env sid lun task_id h p sends lun_fits id_fits =
    let header = task_mgmt_header func_abort_task lun (swap32 task_id) in
    let refers : referenced_by (send_pdu env sid 0 header [] h).1.log ≡ some (swap32 task_id) =
      unfold send_by task_mgmt_header completed_header pieces referenced_by put_session in
      rw (send_pdu-by sid 0 env header [] h p) (rw sends refl) in
    rw (p.session_there) (
      rw refers (
        rw (build_initiator_task_tag-sum scsi_task lun task_id lun_fits id_fits) (
          (λ same. let e = some-injective _ _ same in (omega (arith, e), omega (arith, e))),
          (λ zeros. ap some (omega (arith, zeros.0, zeros.1))),
        )))
