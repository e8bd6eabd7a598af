-- ===== src/Kernel/TaskQueue/Order.antt =====
-- Source/Kernel/iSCSITaskQueue.cpp: the order in which tasks leave a task queue.
use i_scsiinitiator.Base.{
  ℕ, true, false, Option, none, some, List, [], ◌∷◌, ◌++◌, ◌≡◌, refl, ap, sym, ◌∙◌, ◌==◌, arith,
  append_assoc, append-nil, if◌then◌else◌, All, Bool-cases, inl, inr,
}
use i_scsiinitiator.Kernel.TaskQueue.{
  TaskQueue, queue_task, complete_current_task, complete_from, removed, check_for_work, enable,
  disable, is_empty, announce,
}
use i_scsiinitiator.Kernel.TaskQueue.Fifo.{
  Call, queue, complete, check, turn_on, turn_off, clear, Seen, began, released, quiet, step, run,
  seen_begin,
}

-- What completions that found a task returned.
unfoldable pub released_tags : List Seen → List ℕ
released_tags [] = []
released_tags (began tag ∷ rest) = released_tags rest
released_tags (quiet ∷ rest) = released_tags rest
released_tags (released tag ∷ rest) =
    let tags = released_tags rest in if tag == 0 then tags else tag ∷ tags

unfoldable pub queued_tags : List Call → List ℕ
queued_tags [] = []
queued_tags (queue tag ∷ rest) = tag ∷ queued_tags rest
queued_tags (complete ∷ rest) = queued_tags rest
queued_tags (check ∷ rest) = queued_tags rest
queued_tags (turn_on ∷ rest) = queued_tags rest
queued_tags (turn_off ∷ rest) = queued_tags rest
queued_tags (clear ∷ rest) = queued_tags rest

abbrev pub KeepsTasks : Call → Type 0
KeepsTasks (queue tag) = (tag == 0) ≡ false
KeepsTasks complete = Unit
KeepsTasks check = Unit
KeepsTasks turn_on = Unit
KeepsTasks turn_off = Unit
KeepsTasks clear = false ≡ true

abbrev pub IsTag : ℕ → Type 0
IsTag tag = (tag == 0) ≡ false

pub queue_task-tasks : (tag : ℕ) (q : TaskQueue) → (queue_task tag q).tasks ≡ q.tasks ++ (tag ∷ [])
unfolding queue_task announce
queue_task-tasks tag q = elim (Bool-cases (is_empty q.tasks)) [
  | inl e ↦ rw e refl
  | inr e ↦ rw e refl
]

pub removed-tasks : (rest : List ℕ) (q : TaskQueue) → (removed rest q).tasks ≡ rest
unfolding removed announce
removed-tasks rest q = elim (Bool-cases (is_empty rest)) [ inl e ↦ rw e refl | inr e ↦ rw e refl ]

check_for_work-tasks : (q : TaskQueue) → (check_for_work q).1.tasks ≡ q.tasks
unfolding check_for_work
check_for_work-tasks q = ground arith

pub All-append :
    (tasks : List ℕ) (tag : ℕ) → All IsTag tasks → IsTag tag → All IsTag (tasks ++ (tag ∷ []))
All-append [] tag all is = (is, tt)
All-append (head ∷ rest) tag all is = (all.0, All-append rest tag all.1 is)

InOrder : List Call → TaskQueue → Type 0
InOrder calls q =
    q.tasks ++ queued_tags calls ≡ released_tags (run calls q).0 ++ (run calls q).1.tasks

InOrder-tasks :
    (calls : List Call) (r : TaskQueue) (tasks : List ℕ)
    → r.tasks ≡ tasks
    → InOrder calls r
    → tasks ++ queued_tags calls ≡ released_tags (run calls r).0 ++ (run calls r).1.tasks
unfolding InOrder
InOrder-tasks calls r tasks same h = rw (sym same) h

All-tasks : (tasks rest : List ℕ) → tasks ≡ rest → All IsTag rest → All IsTag tasks
All-tasks tasks rest same all = rw same all

InOrder-complete :
    (calls : List Call) (tasks : List ℕ) (q : TaskQueue)
    → q.tasks ≡ tasks
    → All IsTag tasks
    → ((r : TaskQueue) → All IsTag r.tasks → InOrder calls r)
    → tasks ++ queued_tags calls
      ≡ released_tags (released (complete_from tasks q).0 ∷ (run calls (complete_from tasks q).1).0)
        ++ (run calls (complete_from tasks q).1).1.tasks
unfolding released_tags complete_from
InOrder-complete calls [] q e all ih = InOrder-tasks calls q [] e (ih q (All-tasks q.tasks [] e tt))
InOrder-complete calls (tag ∷ rest) q e all ih = rw all.0 (
    ap (λ (l : List ℕ). tag ∷ l)
      (InOrder-tasks calls (removed rest q) rest (removed-tasks rest q)
        (ih (removed rest q) (All-tasks _ rest (removed-tasks rest q) all.1))))

shown :
    (begins : Option ℕ) (shows : List Seen) {left : List ℕ} (right : List ℕ)
    → left ≡ released_tags shows ++ right
    → left ≡ released_tags (seen_begin begins ∷ shows) ++ right
unfolding released_tags seen_begin
shown none shows right h = h
shown (some tag) shows right h = h

-- Where no call clears the queue and no tag is 0, the tags that completions return, followed by the
-- tasks that are left, are the tasks that were there at first, followed by those queued, in order.
pub run-InOrder :
    (calls : List Call) (q : TaskQueue)
    → All KeepsTasks calls
    → All IsTag q.tasks
    → q.tasks ++ queued_tags calls ≡ released_tags (run calls q).0 ++ (run calls q).1.tasks
unfolding run queued_tags step InOrder released_tags enable disable complete_current_task
run-InOrder [] q keeps tags = append-nil q.tasks
run-InOrder (queue tag ∷ calls) q keeps tags =
    sym (append_assoc q.tasks (tag ∷ []) (queued_tags calls))
    ∙ InOrder-tasks calls (queue_task tag q) (q.tasks ++ (tag ∷ [])) (queue_task-tasks tag q) (
        run-InOrder calls (queue_task tag q) keeps.1
          (All-tasks _ _ (queue_task-tasks tag q) (All-append q.tasks tag tags keeps.0)))
run-InOrder (complete ∷ calls) q keeps tags =
    InOrder-complete calls q.tasks q refl tags (λ r. run-InOrder calls r keeps.1)
run-InOrder (check ∷ calls) q keeps tags = shown (check_for_work q).0 _ _ (
    InOrder-tasks calls (check_for_work q).1 q.tasks (check_for_work-tasks q) (
      run-InOrder calls (check_for_work q).1 keeps.1
        (All-tasks _ q.tasks (check_for_work-tasks q) tags)))
run-InOrder (turn_on ∷ calls) q keeps tags = run-InOrder calls (enable q) keeps.1 tags
run-InOrder (turn_off ∷ calls) q keeps tags = run-InOrder calls (disable q) keeps.1 tags
run-InOrder (clear ∷ calls) q keeps tags = absurd (ground (arith, keeps.0))
