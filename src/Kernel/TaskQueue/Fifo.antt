-- ===== src/Kernel/TaskQueue/Fifo.antt =====
-- Source/Kernel/iSCSITaskQueue.cpp seen from outside: a queue of which the head is begun once, then
-- completed. The code keeps only the flag newTask; the specification keeps whether the head has begun.
use i_scsiinitiator.Base.{
  ℕ, Bool, true, false, not, List, [], ◌∷◌, ◌++◌, ◌≡◌, refl, subst, Option, none, some, arith,
}
use i_scsiinitiator.Kernel.TaskQueue.{
  TaskQueue, queue_task, complete_current_task, complete_from, removed, check_for_work, first,
  enable, disable, clear_tasks, is_empty, announce,
}

pub data Call : Type 0 where
  queue : ℕ → Call
  complete check turn_on turn_off clear : Call

-- What a call shows: the task that the action begins, or the tag that a completion returns.
pub data Seen : Type 0 where
  began released : ℕ → Seen
  quiet : Seen

unfoldable pub seen_begin : Option ℕ → Seen
seen_begin none = quiet
seen_begin (some tag) = began tag

unfoldable pub step : Call → TaskQueue → Seen × TaskQueue
step (queue tag) q = (quiet, queue_task tag q)
step complete q = (released (complete_current_task q).0, (complete_current_task q).1)
step check q = (seen_begin (check_for_work q).0, (check_for_work q).1)
step turn_on q = (quiet, enable q)
step turn_off q = (quiet, disable q)
step clear q = (quiet, clear_tasks q)

unfoldable pub run : List Call → TaskQueue → List Seen × TaskQueue
run [] q = ([], q)
run (call ∷ calls) q = let after = run calls (step call q).1 in ((step call q).0 ∷ after.0, after.1)

-- The specification.
pub record Fifo : Type 0 where
  pub pending : List ℕ
  pub begun : Bool
  pub enabled : Bool

unfoldable pub spec_queue : ℕ → List ℕ → Fifo → Fifo
spec_queue tag [] f = record f { pending = tag ∷ []; begun = false }
spec_queue tag (head ∷ rest) f = record f { pending = head ∷ (rest ++ (tag ∷ [])) }

unfoldable pub spec_complete : List ℕ → Fifo → Seen × Fifo
spec_complete [] f = (released 0, f)
spec_complete (tag ∷ rest) f = (released tag, record f { pending = rest; begun = false })

unfoldable pub spec_check : List ℕ → Bool → Bool → Fifo → Seen × Fifo
spec_check (tag ∷ rest) false true f = (began tag, record f { begun = true })
spec_check _ _ _ f = (quiet, f)

unfoldable pub spec_step : Call → Fifo → Seen × Fifo
spec_step (queue tag) f = (quiet, spec_queue tag f.pending f)
spec_step complete f = spec_complete f.pending f
spec_step check f = spec_check f.pending f.begun f.enabled f
spec_step turn_on f = (quiet, record f { enabled = true })
spec_step turn_off f = (quiet, record f { enabled = false })
spec_step clear f = (quiet, record f { pending = []; enabled = false })

unfoldable pub spec_run : List Call → Fifo → List Seen × Fifo
spec_run [] f = ([], f)
spec_run (call ∷ calls) f =
    let after = spec_run calls (spec_step call f).1 in ((spec_step call f).0 ∷ after.0, after.1)

pub record Implements (q : TaskQueue) (f : Fifo) : Type 0 where
  pub tasks : q.tasks ≡ f.pending
  pub enabled : q.enabled ≡ f.enabled
  pub flag : is_empty q.tasks ≡ false → q.new_task ≡ not f.begun

abbrev queue_of : List ℕ → Bool → Bool → Bool → ℕ → TaskQueue
queue_of tasks new_task enabled on_work_loop signals = record {
  tasks = tasks;
  new_task = new_task;
  enabled = enabled;
  on_work_loop = on_work_loop;
  signals = signals;
}

abbrev fifo_of : List ℕ → Bool → Bool → Fifo
fifo_of pending begun enabled = record { pending = pending; begun = begun; enabled = enabled }

Agrees : Seen × TaskQueue → Seen × Fifo → Type 0
Agrees a b = (a.0 ≡ b.0) × Implements a.1 b.1

is_empty-append : (tag : ℕ) (tasks : List ℕ) → is_empty (tasks ++ (tag ∷ [])) ≡ false
unfolding is_empty
is_empty-append tag [] = refl
is_empty-append tag (head ∷ rest) = refl

step-Agrees :
    (call : Call) (tasks : List ℕ) (new_task enabled on_work_loop begun : Bool) (signals : ℕ)
    → (is_empty tasks ≡ false → new_task ≡ not begun)
    → Agrees
        (step call (queue_of tasks new_task enabled on_work_loop signals))
        (spec_step call (fifo_of tasks begun enabled))
unfolding step spec_step Agrees queue_task complete_current_task complete_from removed
    check_for_work first enable disable clear_tasks is_empty announce spec_queue spec_complete
    spec_check seen_begin
step-Agrees (queue tag) [] n e w b s flag =
    (refl, record { tasks = refl; enabled = refl; flag = λ _. refl })
step-Agrees (queue tag) (head ∷ rest) n e w b s flag =
    (refl, record { tasks = refl; enabled = refl; flag = λ _. flag refl })
step-Agrees complete [] n e w b s flag =
    (refl, record { tasks = refl; enabled = refl; flag = flag })
step-Agrees complete (tag ∷ []) n e w b s flag =
    (refl, record { tasks = refl; enabled = refl; flag = λ f. absurd (ground (arith, f)) })
step-Agrees complete (tag ∷ next ∷ rest) n e w b s flag =
    (refl, record { tasks = refl; enabled = refl; flag = λ _. refl })
step-Agrees check [] n false w b s flag =
    (refl, record { tasks = refl; enabled = refl; flag = flag })
step-Agrees check [] false true w b s flag =
    (refl, record { tasks = refl; enabled = refl; flag = flag })
step-Agrees check [] true true w b s flag =
    (refl, record { tasks = refl; enabled = refl; flag = λ f. absurd (ground (arith, f)) })
step-Agrees check (tag ∷ rest) n false w false s flag =
    (refl, record { tasks = refl; enabled = refl; flag = flag })
step-Agrees check (tag ∷ rest) n false w true s flag =
    (refl, record { tasks = refl; enabled = refl; flag = flag })
step-Agrees check (tag ∷ rest) false true w false s flag = absurd (ground (arith, flag refl))
step-Agrees check (tag ∷ rest) false true w true s flag =
    (refl, record { tasks = refl; enabled = refl; flag = flag })
step-Agrees check (tag ∷ rest) true true w false s flag =
    (refl, record { tasks = refl; enabled = refl; flag = λ _. refl })
step-Agrees check (tag ∷ rest) true true w true s flag = absurd (ground (arith, flag refl))
step-Agrees turn_on tasks n e w b s flag =
    (refl, record { tasks = refl; enabled = refl; flag = flag })
step-Agrees turn_off tasks n e w b s flag =
    (refl, record { tasks = refl; enabled = refl; flag = flag })
step-Agrees clear tasks n e w b s flag =
    (refl, record { tasks = refl; enabled = refl; flag = λ f. absurd (ground (arith, f)) })

step-Implements :
    (call : Call) (q : TaskQueue) (f : Fifo)
    → Implements q f
    → Agrees (step call q) (spec_step call f)
step-Implements call q f i =
    subst (λ (g : Fifo). Agrees (step call q) (spec_step call g)) same
      (step-Agrees call q.tasks q.new_task q.enabled q.on_work_loop f.begun q.signals i.flag)
  where
    same : fifo_of q.tasks f.begun q.enabled ≡ f
    same = rw (i.tasks, i.enabled) refl

-- A task queue and a specification queue that correspond show the same to every sequence of calls,
-- among them which tasks are begun and when, and correspond afterwards.
pub run-refines :
    (calls : List Call) (q : TaskQueue) (f : Fifo)
    → Implements q f
    → ((run calls q).0 ≡ (spec_run calls f).0) × Implements (run calls q).1 (spec_run calls f).1
unfolding run spec_run Agrees
run-refines [] q f i = (refl, i)
run-refines (call ∷ calls) q f i =
    let one = step-Implements call q f i in
    let rest = run-refines calls (step call q).1 (spec_step call f).1 one.1 in
    (rw (one.0, rest.0) refl, rest.1)
