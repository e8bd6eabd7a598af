-- ===== src/Kernel/Kept/Commands.antt =====
-- Source/Kernel/iSCSIVirtualHBA.cpp: beginning a task and the requests of the SCSI stack keep the session
-- table well-formed.
use i_scsiinitiator.Base.{
  ℕ, ◌%◌, ◌^◌, ◌==◌, ltb, true, Option, none, some, [], ◌≡◌, refl, ◌∙◌, chosen,
}
use i_scsiinitiator.Kernel.Slots.{slot}
use i_scsiinitiator.Kernel.State.{
  Env, Task, delivery_failure, delivery_or_target_failure, Header, Connection, Session, Hba,
  put_connection,
}
use i_scsiinitiator.Kernel.TaskQueue.{complete_current_task}
use i_scsiinitiator.Kernel.Drain.{complete_parallel_task-Grows}
use i_scsiinitiator.Kernel.Wire.{send_pdu}
use i_scsiinitiator.Kernel.DataOut.{change_connection, transferred}
use i_scsiinitiator.Kernel.Tags.{parse_task_type}
use i_scsiinitiator.Kernel.Commands.{
  begin_task, begin_found, begin_known, begin_write, stamped, measure_connection_latency,
  immediate_length, follows, send_command, start_task, with_flag, command_header,
  process_data_out_for_task,
}
use i_scsiinitiator.Kernel.Requests.{
  request_in, accept_task, accept_in, process_parallel_task, timed_out_task, timed_out_in,
  handle_timeout,
}
use i_scsiinitiator.Kernel.WellFormed.{
  IsConnection, IsSession, IsWellFormed, put_connection-IsWellFormed,
}
use i_scsiinitiator.Kernel.Kept.{relabelled, only}
use i_scsiinitiator.Kernel.Kept.Releases.{handle_connection_timeout-IsWellFormed}
use i_scsiinitiator.Kernel.Kept.Sends.{
  send_pdu-IsWellFormed, change_connection-IsWellFormed, transferred-IsConnection, Ended,
  send_data-Ended,
}

module _ (env : Env) where
  send_command-IsWellFormed :
      (sid cid tag : ℕ) (t : Task) (s : Session) (c : Connection) (h : Hba)
      → IsWellFormed env h
      → IsWellFormed env (send_command env sid cid tag t s c h)
  unfolding send_command
  send_command-IsWellFormed sid cid tag t s c h w =
      chosen (λ (g : Hba). IsWellFormed env g) s.immediate_data _ _
        (change_connection-IsWellFormed env (transferred (immediate_length s c t)) sid cid _
          (transferred-IsConnection env (immediate_length s c t) cid)
          (relabelled env _ _ refl (send_pdu-IsWellFormed env sid cid _ _ h w)))
        (send_pdu-IsWellFormed env sid cid _ _ h w)

  begin_write-Ended :
      (sid cid tag : ℕ) (t : Task) (s : Session) (c : Connection) (h : Hba)
      → IsWellFormed env h
      → Ended env (begin_write env sid cid tag t s c h)
  unfolding begin_write process_data_out_for_task Ended
  begin_write-Ended sid cid tag t s c h w =
      chosen (Ended env) (follows s (immediate_length s c t) t) _
        (some (send_command env sid cid tag t s c h))
        (send_data-Ended env _ _ _ _ 0 _ (send_command-IsWellFormed sid cid tag t s c h w))
        (send_command-IsWellFormed sid cid tag t s c h w)

  stamped-IsConnection :
      (now : ℕ × ℕ) (cid : ℕ) (c : Connection)
      → IsConnection cid c
      → IsConnection cid (stamped now c)
  unfolding stamped
  stamped-IsConnection now cid c is = record { same_cid = is.same_cid; bounded = is.bounded }

  start_task-IsWellFormed :
      (sid cid : ℕ) (t : Task) (h : Hba)
      → IsWellFormed env h
      → IsWellFormed env (start_task env sid cid t h)
  unfolding start_task
  start_task-IsWellFormed sid cid t h w =
      relabelled env (change_connection (stamped (env.clock h.log)) sid cid h) _ refl (
        change_connection-IsWellFormed env (stamped (env.clock h.log)) sid cid h
          (stamped-IsConnection (env.clock h.log) cid) w)

  begin_found-Ended :
      (sid cid tag : ℕ) (s : Session) (c : Connection) (o : Option Task) (h : Hba)
      → IsWellFormed env h
      → Ended env (begin_found env sid cid tag s c o h)
  unfolding begin_found begin_known Ended
  begin_found-Ended sid cid tag s c none h w = w
  begin_found-Ended sid cid tag s c (some t) h w =
      chosen (Ended env) _ _
        (some
          (send_pdu env sid cid (with_flag true (command_header t tag)) []
            (start_task env sid cid t h)).1)
        (begin_write-Ended sid cid tag t s c _ (start_task-IsWellFormed sid cid t h w))
        (send_pdu-IsWellFormed env sid cid _ [] _ (start_task-IsWellFormed sid cid t h w))

  pub begin_task-Ended :
      (sid cid tag : ℕ) (s : Session) (c : Connection) (h : Hba)
      → IsWellFormed env h
      → Ended env (begin_task env sid cid tag s c h)
  unfolding begin_task measure_connection_latency Ended
  begin_task-Ended sid cid tag s c h w =
      chosen (Ended env) (parse_task_type tag == 1) _ _ (send_pdu-IsWellFormed env sid cid _ _ h w)
        (begin_found-Ended sid cid tag s c _ h w)

  pub request_in-IsWellFormed :
      (sid : ℕ) (o : Option Session) (b : Header) (h : Hba)
      → IsWellFormed env h
      → IsWellFormed env (request_in env sid o b h).1
  unfolding request_in
  request_in-IsWellFormed sid none b h w = w
  request_in-IsWellFormed sid (some s) b h w = send_pdu-IsWellFormed env sid 0 b [] h w

  accept_task-IsWellFormed :
      (sid : ℕ) (s : Session) (o : Option Connection) (t : Task) (h : Hba)
      → IsWellFormed env h
      → IsSession env sid s
      → slot s.connections 0 ≡ o
      → IsWellFormed env (accept_task env sid s o t h).1
  unfolding accept_task
  accept_task-IsWellFormed sid s none t h w is e = w
  accept_task-IsWellFormed sid s (some c) t h w is e =
      let ic = is.each 0 c e in
      relabelled env (put_connection sid 0 _ s h) _ refl (
        put_connection-IsWellFormed env sid 0 _ s h w is (
          only (λ (d : Connection). IsConnection 0 d) _
            (record { same_cid = ic.same_cid; bounded = ic.bounded })))

  accept_in-IsWellFormed :
      (sid : ℕ) (o : Option Session) (t : Task) (h : Hba)
      → IsWellFormed env h
      → slot h.sessions sid ≡ o
      → IsWellFormed env (accept_in env sid o t h).1
  unfolding accept_in
  accept_in-IsWellFormed sid none t h w e = w
  accept_in-IsWellFormed sid (some s) t h w e =
      accept_task-IsWellFormed sid s _ t h w (w.each sid s e) refl

  pub process_parallel_task-IsWellFormed :
      (t : Task) (h : Hba) → IsWellFormed env h → IsWellFormed env (process_parallel_task env t h).1
  unfolding process_parallel_task
  process_parallel_task-IsWellFormed t h w = accept_in-IsWellFormed t.target_id _ t h w refl

  timed_out_task-IsWellFormed :
      (sid cid : ℕ) (s : Session) (o : Option Connection) (t : Task) (h : Hba)
      → IsWellFormed env h
      → IsSession env sid s
      → slot s.connections cid ≡ o
      → IsWellFormed env (timed_out_task env sid cid s o t h)
  unfolding timed_out_task
  timed_out_task-IsWellFormed sid cid s none t h w is e = w
  timed_out_task-IsWellFormed sid cid s (some c) t h w is e =
      let ic = is.each cid c e in
      let g =
        complete_parallel_task-Grows env t delivery_failure delivery_or_target_failure
          (record {
            connection = record c { task_queue = (complete_current_task c.task_queue).1 };
            log = h.log;
          })
          ic.bounded in
      chosen (λ (k : Hba). IsWellFormed env k) (env.peer_error h.log c.socket == 0) _ _
        (relabelled env (put_connection sid cid _ s h) _ refl (
          put_connection-IsWellFormed env sid cid _ s h w is (
            only (λ (d : Connection). IsConnection cid d) _
              (record { same_cid = g.same_cid ∙ ic.same_cid; bounded = g.bounded }))))
        (handle_connection_timeout-IsWellFormed env sid cid h w)

  timed_out_in-IsWellFormed :
      (sid cid : ℕ) (o : Option Session) (t : Task) (h : Hba)
      → IsWellFormed env h
      → slot h.sessions sid ≡ o
      → IsWellFormed env (timed_out_in env sid cid o t h)
  unfolding timed_out_in
  timed_out_in-IsWellFormed sid cid none t h w e = w
  timed_out_in-IsWellFormed sid cid (some s) t h w e =
      timed_out_task-IsWellFormed sid cid s _ t h w (w.each sid s e) refl

  pub handle_timeout-IsWellFormed :
      (t : Task) (cid : ℕ) (h : Hba)
      → IsWellFormed env h
      → IsWellFormed env (handle_timeout env t cid h)
  unfolding handle_timeout
  handle_timeout-IsWellFormed t cid h w =
      chosen (λ (k : Hba). IsWellFormed env k) (ltb cid env.max_connections) _ h
        (timed_out_in-IsWellFormed (t.target_id % 2 ^ 16) cid _ t h w refl) w
