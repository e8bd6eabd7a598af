-- ===== src/Kernel/Drain.antt =====
-- Source/Kernel/iSCSIVirtualHBA.cpp: the loop of DeactivateConnection comes to an end, although the
-- completions in it queue latency measurements.
use i_scsiinitiator.Base.{
  ℕ, zero, suc, ◌+◌, ◌*◌, ◌%◌, ◌^◌, ◌≤◌, ◌<◌, ◌==◌, true, false, Option, none, some, List, [], ◌∷◌,
  ◌++◌, ◌≡◌, refl, subst, sym, ◌∙◌, ap, arith, length, length-append, All, Bool-cases, inl, inr,
}
use i_scsiinitiator.Kernel.Tags.{build_initiator_task_tag, latency}
use i_scsiinitiator.Kernel.TaskQueue.{
  TaskQueue, queue_task, complete_current_task, complete_from, removed,
}
use i_scsiinitiator.Kernel.TaskQueue.Order.{IsTag, queue_task-tasks, removed-tasks, All-append}
use i_scsiinitiator.Kernel.State.{
  Env, Task, TaskStatus, ServiceResponse, Work, Connection, delivery_failure,
  delivery_or_target_failure,
}
use i_scsiinitiator.Kernel.Completion.{
  window_size, advance, measure, complete_parallel_task, reject_task, reject_found, take_task,
  reject_tasks, is_no_data_transfer,
}

abbrev tasks_of : Connection → List ℕ
tasks_of c = c.task_queue.tasks

-- It falls with each round: a completion adds at most one, a whole task is worth a window.
abbrev pub load : Connection → ℕ
load c = window_size * length c.task_queue.tasks + c.history_idx

pub record Grows (c d : Connection) : Type 0 where
  pub bounded : d.history_idx < window_size
  pub same_cid : d.cid ≡ c.cid
  pub load_bound : load d ≤ suc (load c)
  pub tags : All IsTag c.task_queue.tasks → All IsTag d.task_queue.tasks

latency-IsTag : IsTag (build_initiator_task_tag latency 0 0)
unfolding build_initiator_task_tag
latency-IsTag = refl

module _ (P : List ℕ → Type 0) where
  queued : (tag : ℕ) (q : TaskQueue) → P (q.tasks ++ (tag ∷ [])) → P (queue_task tag q).tasks
  queued tag q h = subst P (sym (queue_task-tasks tag q)) h

  removed-holds : (rest : List ℕ) (q : TaskQueue) → P rest → P (removed rest q).tasks
  removed-holds rest q h = subst P (sym (removed-tasks rest q)) h

length-queue_task :
    (tag : ℕ) (q : TaskQueue) → length (queue_task tag q).tasks ≡ suc (length q.tasks)
length-queue_task tag q =
    rw (queue_task-tasks tag q) (omega (arith, length-append q.tasks (tag ∷ [])))

advance-Grows : (c : Connection) → c.history_idx < window_size → Grows c (advance c)
unfolding advance
advance-Grows c h = elim (Bool-cases ((c.history_idx + 1) % 2 ^ 8 == window_size)) [
  | inl e ↦ rw e (record {
    bounded = omega arith;
    same_cid = refl;
    load_bound =
        ground (arith, e, length-queue_task (build_initiator_task_tag latency 0 0) c.task_queue);
    tags = λ all.
        queued (λ (l : List ℕ). All IsTag l) _ c.task_queue (All-append _ _ all latency-IsTag);
  })
  | inr e ↦ rw e (record {
    bounded = ground (arith, e);
    same_cid = refl;
    load_bound = ground (arith, e);
    tags = λ all. all;
  })
]

Grows-self : (c : Connection) → c.history_idx < window_size → Grows c c
Grows-self c h = record {
  bounded = h;
  same_cid = refl;
  load_bound = omega arith;
  tags = λ all. all;
}

pub complete_parallel_task-Grows :
    (env : Env) (t : Task) (status : TaskStatus) (response : ServiceResponse) (w : Work)
    → w.connection.history_idx < window_size
    → Grows w.connection (complete_parallel_task env t status response w).connection
unfolding complete_parallel_task measure
complete_parallel_task-Grows env t status response w h =
    elim (Bool-cases (is_no_data_transfer t.direction)) [
      | inl e ↦ rw e (Grows-self w.connection h)
      | inr e ↦ rw e (
          let g = advance-Grows (record (w.connection) { history = _ }) h in
          record {
            bounded = g.bounded;
            same_cid = g.same_cid;
            load_bound = g.load_bound;
            tags = g.tags;
          })
    ]

reject_found-Grows :
    (env : Env) (found : Option Task) (w : Work)
    → w.connection.history_idx < window_size
    → Grows w.connection (reject_found env found w).connection
unfolding reject_found
reject_found-Grows env none w h = Grows-self w.connection h
reject_found-Grows env (some t) w h =
    complete_parallel_task-Grows env t delivery_failure delivery_or_target_failure w h

reject_task-Grows :
    (env : Env) (sid tag : ℕ) (w : Work)
    → w.connection.history_idx < window_size
    → Grows w.connection (reject_task env sid tag w).connection
unfolding reject_task
reject_task-Grows env sid tag w h = reject_found-Grows env (env.find_task w.log sid tag) w h

-- What a round takes: nothing, and 0, from an empty queue; else the head.
record Takes (w : Work) (tag : ℕ) (after : Work) : Type 0 where
  same_cid : after.connection.cid ≡ w.connection.cid
  same_index : after.connection.history_idx ≡ w.connection.history_idx
  smaller : (tag == 0) ≡ false → load after.connection + window_size ≤ load w.connection
  last :
      (tag == 0) ≡ true
      → All IsTag w.connection.task_queue.tasks
      → after.connection.task_queue.tasks ≡ []
  tags : All IsTag w.connection.task_queue.tasks → All IsTag after.connection.task_queue.tasks

taken-Takes :
    (tasks : List ℕ) (w : Work)
    → w.connection.task_queue.tasks ≡ tasks
    → Takes w (complete_from tasks w.connection.task_queue).0 (record w {
      connection = record (w.connection) {
        task_queue = (complete_from tasks w.connection.task_queue).1;
      };
    })
unfolding complete_from
taken-Takes [] w e = record {
  same_cid = refl;
  same_index = refl;
  smaller = λ f. absurd (ground (arith, f));
  last = λ _ _. e;
  tags = λ all. all;
}
taken-Takes (tag ∷ rest) w e = record {
  same_cid = refl;
  same_index = refl;
  smaller = λ _. omega (arith, ap length e, ap length (removed-tasks rest w.connection.task_queue));
  last = λ z all. absurd (ground (arith, z, first_is all));
  tags =
      λ all. removed-holds (λ (l : List ℕ). All IsTag l) rest w.connection.task_queue (rests all);
}
  where
    first_is : All IsTag w.connection.task_queue.tasks → (tag == 0) ≡ false
    first_is all = (subst (λ (l : List ℕ). All IsTag l) e all).0

    rests : All IsTag w.connection.task_queue.tasks → All IsTag rest
    rests all = (subst (λ (l : List ℕ). All IsTag l) e all).1

take_task-Takes : (w : Work) → Takes w (take_task w).0 (take_task w).1
unfolding take_task complete_current_task
take_task-Takes w = taken-Takes w.connection.task_queue.tasks w refl

-- The loop came to an end, and how.
pub record IsDrained (w : Work) (o : Option Work) : Type 0 where
  pub result : Work
  pub returns : o ≡ some result
  pub bounded : result.connection.history_idx < window_size
  pub same_cid : result.connection.cid ≡ w.connection.cid
  pub empty : All IsTag w.connection.task_queue.tasks → result.connection.task_queue.tasks ≡ []

pub reject_tasks-IsDrained :
    (fuel : ℕ) (env : Env) (sid : ℕ) (w : Work)
    → w.connection.history_idx < window_size
    → load w.connection < fuel
    → IsDrained w (reject_tasks fuel env sid w)
unfolding reject_tasks
reject_tasks-IsDrained zero env sid w h enough = absurd (omega arith)
reject_tasks-IsDrained (suc fuel) env sid w h enough = elim (Bool-cases ((take_task w).0 == 0)) [
  | inl e ↦ rw e (record {
    result = (take_task w).1;
    returns = refl;
    bounded = ground (arith, taken.same_index);
    same_cid = taken.same_cid;
    empty = taken.last e;
  })
  | inr e ↦
      let g = reject_task-Grows env sid (take_task w).0 (take_task w).1 index_bound in
      let rest =
        reject_tasks-IsDrained fuel env sid (reject_task env sid (take_task w).0 (take_task w).1)
          g.bounded (omega (arith, g.load_bound, taken.smaller e)) in
      rw e (record {
        result = rest.result;
        returns = rest.returns;
        bounded = rest.bounded;
        same_cid = rest.same_cid ∙ g.same_cid ∙ taken.same_cid;
        empty = λ all. rest.empty (g.tags (taken.tags all));
      })
]
  where
    taken : Takes w (take_task w).0 (take_task w).1
    taken = take_task-Takes w

    index_bound : (take_task w).1.connection.history_idx < window_size
    index_bound = ground (arith, (take_task-Takes w).same_index)

-- The loop came to an end with the queue empty.
pub record IsEmptied (w : Work) (o : Option Work) : Type 0 where
  pub result : Work
  pub returns : o ≡ some result
  pub bounded : result.connection.history_idx < window_size
  pub same_cid : result.connection.cid ≡ w.connection.cid
  pub empty : result.connection.task_queue.tasks ≡ []

-- Where no tag in the queue is 0, the loop that rejects the tasks of a connection comes to an end with the
-- queue empty, within as many rounds as thirty for each task in the queue and one for each speed measured
-- since the last latency measurement, whatever the SCSI stack knows of the tasks. The index into the
-- speed history stays within the history, and the connection keeps its identifier.
pub reject_tasks-IsEmptied :
    (fuel : ℕ) (env : Env) (sid : ℕ) (w : Work)
    → w.connection.history_idx < window_size
    → load w.connection < fuel
    → All IsTag w.connection.task_queue.tasks
    → IsEmptied w (reject_tasks fuel env sid w)
reject_tasks-IsEmptied fuel env sid w h enough tags =
    let d = reject_tasks-IsDrained fuel env sid w h enough in
    record {
      result = d.result;
      returns = d.returns;
      bounded = d.bounded;
      same_cid = d.same_cid;
      empty = d.empty tags;
    }
