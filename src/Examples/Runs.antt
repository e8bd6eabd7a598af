-- ===== src/Examples/Runs.antt =====
-- The theorems on the virtual host bus adapter, at a session that is at work.
use i_scsiinitiator.Base.{
  ℕ, true, false, none, some, List, [], ◌∷◌, ◌++◌, ◌≡◌, ◌↔◌, refl, arith, codes,
}
use i_scsiinitiator.Kernel.Tags.{
  scsi_task, task_mgmt, task_type_code, build_initiator_task_tag, parse_task_type, parse_lun,
  parse_task_id, parse-build_initiator_task_tag,
}
use i_scsiinitiator.Kernel.Slots.{slot}
use i_scsiinitiator.Kernel.State.{Hba, Work}
use i_scsiinitiator.Kernel.TaskQueue.{is_empty}
use i_scsiinitiator.Kernel.TaskQueue.Fifo.{
  Call, queue, complete, check, Fifo, Implements, run, spec_run, run-refines,
}
use i_scsiinitiator.Kernel.TaskQueue.Order.{queued_tags, released_tags, run-InOrder}
use i_scsiinitiator.Kernel.Activation.{deactivate_connection, deactivate_all_connections}
use i_scsiinitiator.Kernel.Completion.{reject_tasks}
use i_scsiinitiator.Kernel.Drain.{IsEmptied, reject_tasks-IsEmptied}
use i_scsiinitiator.Kernel.Creation.{create_session}
use i_scsiinitiator.Kernel.Release.{release_all_sessions}
use i_scsiinitiator.Kernel.Release.Frame.{release_all_sessions-empties}
use i_scsiinitiator.Kernel.WellFormed.{IsWellFormed}
use i_scsiinitiator.Kernel.Counting.{Deactivation, deactivate_connection-counts}
use i_scsiinitiator.Kernel.DataOut.{Transfer, send_data}
use i_scsiinitiator.Kernel.DataOut.Chunks.{send_data-terminates}
use i_scsiinitiator.Kernel.DataOut.Coverage.{IsCovered, send_data-IsCovered}
use i_scsiinitiator.Kernel.Present.{Present}
use i_scsiinitiator.Kernel.Requests.{abort_task_request}
use i_scsiinitiator.Kernel.Limits.{referenced_by, abort_task_request-refers}
use i_scsiinitiator.Kernel.Operations.{
  initialize_controller, create_new_session, deactivate_whole, perform, Reachable, initialized,
  performs, Reachable-IsWellFormed,
}
use i_scsiinitiator.Examples.Adapter.{content, env, adapter, session, connection, task, queue_init}

abbrev calls : List Call
calls = queue 5 ∷ queue 9 ∷ check ∷ complete ∷ check ∷ complete ∷ []

abbrev fifo : Fifo
fifo = record { pending = []; begun = false; enabled = true }

empty_queue-Implements : Implements queue_init fifo
unfolding is_empty
empty_queue-Implements = record {
  tasks = refl;
  enabled = refl;
  flag = λ used. absurd (ground (arith, used));
}

run-refines_example :
    ((run calls queue_init).0 ≡ (spec_run calls fifo).0)
    × Implements (run calls queue_init).1 (spec_run calls fifo).1
run-refines_example = run-refines calls queue_init fifo empty_queue-Implements

run-InOrder_example :
    queue_init.tasks ++ queued_tags calls
    ≡ released_tags (run calls queue_init).0 ++ (run calls queue_init).1.tasks
run-InOrder_example = run-InOrder calls queue_init (refl, (refl, (tt, (tt, (tt, (tt, tt)))))) tt

abbrev work : Work
work = record { connection = connection; log = [] }

reject_tasks-IsEmptied_example : IsEmptied work (reject_tasks 100 env 0 work)
reject_tasks-IsEmptied_example =
    reject_tasks-IsEmptied 100 env 0 work (omega arith) (omega arith) (refl, (refl, tt))

abbrev transfer : Transfer
transfer = record {
  sid = 0;
  cid = 0;
  task = task;
  lun = 3;
  initiator_task_tag = 0x0003_0005;
  target_transfer_tag = 1;
  segment = 4;
}

send_data-terminates_example : (r : Hba) × (send_data 11 env transfer 0 10 0 adapter ≡ some r)
send_data-terminates_example =
    send_data-terminates env transfer (omega arith) 11 0 10 0 adapter (omega arith)

abbrev adapter-Present : Present 0 0 adapter
adapter-Present = record {
  session = session;
  connection = connection;
  session_there = unfold slot in refl;
  connection_there = unfold slot in refl;
}

send_data-IsCovered_example :
    IsCovered content env transfer
      (λ log socket. refl)
      (λ log offset n. refl)
      (omega arith)
      (omega arith)
      11
      0
      10
      0
      adapter
send_data-IsCovered_example =
    send_data-IsCovered content env transfer (λ log socket. refl) (λ log offset n. refl)
      (omega arith) (omega arith) 11 0 10 0 adapter (omega arith) (omega arith) (omega arith)
      adapter-Present

parse-build_initiator_task_tag_example :
    let tag = build_initiator_task_tag task_mgmt 3 5 in
    (parse_task_type tag ≡ task_type_code task_mgmt) × (parse_lun tag ≡ 3) × (parse_task_id tag ≡ 5)
parse-build_initiator_task_tag_example =
    parse-build_initiator_task_tag task_mgmt 3 5 (omega arith) (omega arith)

deactivate_connection-counts_example :
    ((deactivate_connection env 0 0 adapter).0 ≡ 0)
    × Deactivation env 0 0 1 connection
        (record connection { cid = 1 })
        adapter
        (deactivate_connection env 0 0 adapter).1
deactivate_connection-counts_example =
    deactivate_connection-counts env 0 0 1 session connection (record connection { cid = 1 })
      adapter (omega arith) (omega arith) (unfold slot in refl) (unfold slot in refl)
      (unfold slot in refl) (λ same. absurd (omega (arith, same))) refl

abbrev created : Hba
created = (create_session env (codes "a") (initialize_controller env)).hba

abbrev created-Reachable : Reachable env created
created-Reachable =
    performs (create_new_session (codes "a")) (initialize_controller env) created initialized
      (unfold perform in refl)

abbrev stopped : Hba
stopped = (deactivate_all_connections env 0 created).1

Reachable-IsWellFormed_example : IsWellFormed env stopped
Reachable-IsWellFormed_example =
    Reachable-IsWellFormed env stopped
      (performs (deactivate_whole 0) created stopped created-Reachable (unfold perform in refl))

release_all_sessions-empties_example : slot (release_all_sessions env created).sessions 0 ≡ none
release_all_sessions-empties_example =
    release_all_sessions-empties env created (Reachable-IsWellFormed env created created-Reachable)
      0 (omega arith)

abort_task_request-refers_example :
    let after = (abort_task_request env 0 3 5 adapter).1 in
    (referenced_by after.log ≡ some (build_initiator_task_tag scsi_task 3 5))
    ↔ ((◌≡◌ {A = ℕ} 3 0) × (◌≡◌ {A = ℕ} 5 0))
abort_task_request-refers_example =
    abort_task_request-refers env 0 3 5 adapter adapter-Present refl (omega arith) (omega arith)
