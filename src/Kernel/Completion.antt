-- ===== src/Kernel/Completion.antt =====
-- Source/Kernel/iSCSIVirtualHBA.cpp: CompleteParallelTask, which measures the speed of a connection, and
-- the loop of DeactivateConnection that gives the tasks of a connection back to the SCSI stack.
use i_scsiinitiator.Base.{
  ℕ, zero, suc, ◌+◌, ◌-◌, ◌*◌, ◌%◌, ◌^◌, ◌==◌, ltb, Bool, Option, none, some, List, [], ◌∷◌, take,
  foldl, if◌then◌else◌,
}
use i_scsiinitiator.Kernel.Tags.{build_initiator_task_tag, latency}
use i_scsiinitiator.Kernel.TaskQueue.{queue_task, complete_current_task}
use i_scsiinitiator.Kernel.State.{
  Env, Task, Direction, from_initiator_to_target, from_target_to_initiator, no_data_transfer,
  TaskStatus, ServiceResponse, Work, Connection, completed_task, delivery_failure,
  delivery_or_target_failure,
}

-- kBytesPerSecAvgWindowSize
abbrev pub window_size : ℕ
window_size = 30

-- The time from a start to now in microseconds: the seconds are differences of 64-bit numbers, the
-- microseconds of 32-bit numbers.
unfoldable pub elapsed_usecs : ℕ × ℕ → ℕ → ℕ → ℕ
elapsed_usecs now start_sec start_usec =
    (now.0 + 2 ^ 64 - start_sec) % 2 ^ 64 * 1_000_000 + (now.1 + 2 ^ 32 - start_usec) % 2 ^ 32

-- An assignment to an element of the array.
unfoldable pub set_at : ℕ → ℕ → List ℕ → List ℕ
set_at n v [] = []
set_at zero v (x ∷ rest) = v ∷ rest
set_at (suc n) v (x ∷ rest) = x ∷ set_at n v rest

-- The loop over the last measurements.
unfoldable pub peak : List ℕ → ℕ
peak history = foldl (λ (best x : ℕ). if ltb best x then x else best) 0 (take window_size history)

-- bytesPerSecHistoryIdx++, and where it comes round the reset and a latency measurement
unfoldable pub advance : Connection → Connection
advance c =
    let next = (c.history_idx + 1) % 2 ^ 8 in
    if next == window_size
    then record c {
      history_idx = 0;
      task_queue = queue_task (build_initiator_task_tag latency 0 0) c.task_queue;
    }
    else record c { history_idx = next }

unfoldable pub is_no_data_transfer : Direction → Bool
is_no_data_transfer no_data_transfer = Bool.true
is_no_data_transfer from_initiator_to_target = Bool.false
is_no_data_transfer from_target_to_initiator = Bool.false

unfoldable pub measure : Env → Task → Work → Connection
measure env t w =
    let c = w.connection in
    let duration = elapsed_usecs (env.clock w.log) c.task_start_time_sec c.task_start_time_usec in
    let history = set_at c.history_idx (env.rate t.transfer_count duration) c.history in
    record (advance (record c { history = history })) { bytes_per_second = peak history }

-- CompleteParallelTask
unfoldable pub complete_parallel_task : Env → Task → TaskStatus → ServiceResponse → Work → Work
complete_parallel_task env t status response w =
    let measured = if is_no_data_transfer t.direction then w.connection else measure env t w in
    record { connection = measured; log = completed_task t status response ∷ w.log }

unfoldable pub reject_found : Env → Option Task → Work → Work
reject_found env none w = w
reject_found env (some t) w =
    complete_parallel_task env t delivery_failure delivery_or_target_failure w

-- The body of the loop of DeactivateConnection.
unfoldable pub reject_task : Env → ℕ → ℕ → Work → Work
reject_task env sid tag w = reject_found env (env.find_task w.log sid tag) w

unfoldable pub take_task : Work → ℕ × Work
take_task w =
    let taken = complete_current_task w.connection.task_queue in
    (taken.0, record w { connection = record (w.connection) { task_queue = taken.1 } })

-- The loop: none where the fuel runs out.
unfoldable pub reject_tasks : ℕ → Env → ℕ → Work → Option Work
reject_tasks zero env sid w = none
reject_tasks (suc fuel) env sid w =
    let taken = take_task w in
    let rest = reject_tasks fuel env sid (reject_task env sid taken.0 taken.1) in
    if taken.0 == 0 then some taken.1 else rest
