-- ===== src/Scheduler/TaskOrder.antt =====
-- The order of the listed tasks (scheduler/scheduler.go, sortTaskList) and CancelTasks.
pub mod Forest
pub mod Sorted
use assertoor.Scheduler.State.{TaskState}
use assertoor.Scheduler.Tasks.{Tasks}
use assertoor.Prelude.{
  ℕ, zero, suc, Bool, true, false, Option, none, some, arith, ltb, ◌==◌, if◌then◌else◌, nat_key,
  string_key, lookup,
}

-- Two parent pointers are the same.
abbrev pub same_parent : Option ℕ → Option ℕ → Bool
same_parent none none = true
same_parent (some a) (some b) = a == b
same_parent _ _ = false

-- The parent of a task; `none` for a root task, whose parent is nil.
abbrev pub parent_of : Tasks → TaskState → Option TaskState
parent_of m t = elim t.parent_state [ none ↦ none | some p ↦ lookup p m ]

-- The comparison goes on with these two tasks, one of which may be nil.
abbrev go_on {ℓ} :
    {A : Type ℓ}
    → (TaskState → TaskState → Option A)
    → Option TaskState
    → Option TaskState
    → Option A
go_on next (some a) (some b) = next a b
go_on next _ _ = none

-- The comparison function of `sortTaskList`, on fuel: `none` when it runs out or a task is nil.
unfoldable pub sorts_before : (fuel : ℕ) → Tasks → TaskState → TaskState → Option Bool
sorts_before zero m a b = none
sorts_before (suc fuel) m a b =
    let next = sorts_before fuel m in
    if same_parent a.parent_state b.parent_state
    then some (ltb a.index b.index)
    else (if same_parent a.parent_state (some b.index)
        then some false
        else (if same_parent b.parent_state (some a.index)
            then some true
            else (if ltb b.task_depth a.task_depth
                then go_on next (parent_of m a) (some b)
                else (if ltb a.task_depth b.task_depth
                    then go_on next (some a) (parent_of m b)
                    else go_on next (parent_of m a) (parent_of m b)))))

-- The contexts of a run: whether there is one yet, and which parts of it are cancelled.
pub record RunContexts : Type 0 where
  pub has_run : Bool
  pub tasks_cancelled : Bool
  pub cleanup_cancelled : Bool

unfoldable cancel_tasks : (cancel_cleanup : Bool) → RunContexts → RunContexts
cancel_tasks cancel_cleanup c =
    if c.has_run
    then record c {
      tasks_cancelled = true;
      cleanup_cancelled = if cancel_cleanup then true else c.cleanup_cancelled;
    }
    else c
