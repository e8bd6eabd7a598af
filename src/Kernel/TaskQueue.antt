-- ===== src/Kernel/TaskQueue.antt =====
-- Source/Kernel/iSCSITaskQueue.cpp: the tasks that wait on a connection, the one at the head being
-- processed, and the flag that tells the work loop of a head that it has not begun.
pub mod Fifo
pub mod Order
use i_scsiinitiator.Base.{
  ℕ, Bool, true, false, Option, none, some, List, [], suc, not, ◌∷◌, ◌++◌, if◌then◌else◌,
}

-- taskQueue, newTask and the state of the event source. `signals` counts the calls of
-- signalWorkAvailable, `on_work_loop` is whether getWorkLoop gives a work loop.
pub record TaskQueue : Type 0 where
  pub tasks : List ℕ
  pub new_task : Bool
  pub enabled : Bool
  pub on_work_loop : Bool
  pub signals : ℕ

-- iSCSITaskQueue::init, after which IOEventSource is enabled and not on a work loop
unfoldable pub init : TaskQueue
init = record { tasks = []; new_task = false; enabled = true; on_work_loop = false; signals = 0 }

-- newTask = true, and the signal where there is a work loop
unfoldable pub announce : TaskQueue → TaskQueue
announce q = record q {
  new_task = true;
  signals = if q.on_work_loop then suc q.signals else q.signals;
}

unfoldable pub is_empty : List ℕ → Bool
is_empty [] = true
is_empty (tag ∷ rest) = false

-- queueTask
unfoldable pub queue_task : ℕ → TaskQueue → TaskQueue
queue_task tag q =
    let first_task_in_queue = is_empty q.tasks in
    let entered = record q { tasks = q.tasks ++ (tag ∷ []) } in
    if first_task_in_queue then announce entered else entered

-- completeCurrentTask behind the removal of the head
unfoldable pub removed : List ℕ → TaskQueue → TaskQueue
removed rest q = let q = record q { tasks = rest } in if is_empty rest then q else announce q

unfoldable pub complete_from : List ℕ → TaskQueue → ℕ × TaskQueue
complete_from [] q = (0, q)
complete_from (tag ∷ rest) q = (tag, removed rest q)

-- completeCurrentTask: 0 where the queue is empty
unfoldable pub complete_current_task : TaskQueue → ℕ × TaskQueue
complete_current_task q = complete_from q.tasks q

unfoldable pub first : List ℕ → Option ℕ
first [] = none
first (tag ∷ rest) = some tag

-- checkForWork: the tag that the action is called with, if it is. The source's result is false on
-- every path.
unfoldable pub check_for_work : TaskQueue → Option ℕ × TaskQueue
check_for_work q =
    if not q.enabled
    then (none, q)
    else if not q.new_task
    then (none, q)
    else (first q.tasks, record q { new_task = false })

-- IOEventSource's enable and disable, as far as the queue reads them
unfoldable pub enable : TaskQueue → TaskQueue
enable q = record q { enabled = true }

unfoldable pub disable : TaskQueue → TaskQueue
disable q = record q { enabled = false }

-- clearTasksFromQueue
unfoldable pub clear_tasks : TaskQueue → TaskQueue
clear_tasks q = record (disable q) { tasks = [] }
