-- ===== src/Scheduler/Lifecycle.antt =====
-- The lives of a task: every order in which the goroutines that share it can act on it
-- (scheduler/task_execution.go, scheduler/task_state.go).
use mathlib.Core.Path.{subst}
use assertoor.Prelude.{
  ℕ, String, ◌≡◌, ◌≢◌, Bool, true, false, Option, none, some, arith, nat_key, string_key,
}
use assertoor.Types.{TaskResult}
use assertoor.Scheduler.State.{already_executed, TaskState, World, Env}
use assertoor.Scheduler.Database.{update_task_state}
use assertoor.Scheduler.Execution.{
  set_task_result, get_task_result_update_chan, Condition, Progress, goes_on, returned, begin_task,
  init_task, Loaded, load_task, time_out_task, Outcome, complete_task,
}

-- How far `ExecuteTask` has come; `over` is after its return.
pub data Stage : Type 0 where
  idle starting loading running over : Stage

abbrev pub advance : Stage → Progress → Stage
advance next_stage goes_on = next_stage
advance next_stage (returned err) = over

-- A second call of `ExecuteTask` does not move the first one.
abbrev pub began : Bool → Stage → Progress → Stage
began true stage p = stage
began false stage p = advance starting p

-- One atomic action on a task; the world is whatever the other tasks have made of it. Results are
-- set and watched at any stage.
pub data Step (env : Env) : Stage → TaskState → Stage → TaskState → Type 0 where
  set_result :
      (r : TaskResult) (set_updated : Bool) (at : Stage) (t : TaskState) (w : World)
      → Step env at t at (set_task_result env r set_updated t w).0
  poll :
      (old : TaskResult) (at : Stage) (t : TaskState)
      → Step env at t at (get_task_result_update_chan old t).0
  begin :
      (now later : ℕ) (cond : Condition) (at : Stage) (t : TaskState) (w : World)
      → Step env at t
          (began t.is_started at (begin_task env now later cond t w).2)
          (begin_task env now later cond t w).0
  init :
      (now : ℕ) (err : Option String) (at : Stage) (t : TaskState) (w : World)
      → at ≡ starting
      → Step env at t (advance loading (init_task env now err t w).2) (init_task env now err t w).0
  load :
      (now : ℕ) (config : Loaded) (at : Stage) (t : TaskState) (w : World)
      → at ≡ loading
      → Step env at t
          (advance running (load_task env now config t w).2)
          (load_task env now config t w).0
  time_out :
      (at : Stage) (t : TaskState) (w : World)
      → at ≡ running
      → Step env at t at (time_out_task t w).0
  complete :
      (now : ℕ) (outcome : Outcome) (at : Stage) (t : TaskState) (w : World)
      → at ≡ running
      → Step env at t over (complete_task env now outcome t w).0

pub data Reach (env : Env) (from : Stage) (s : TaskState) : Stage → TaskState → Type 0 where
  here : Reach env from s from s
  next :
      {at to : Stage} {t u : TaskState}
      → Reach env from s at t
      → Step env at t to u
      → Reach env from s to u

abbrev IsActive : TaskState → Type 0
IsActive t =
    (t.is_started ≡ true) × (t.is_running ≡ true) × (t.stop_time ≡ none) × (t.start_time ≢ none)

-- The flags and times of a task tell how far its execution has come.
abbrev pub IsLive : Stage → TaskState → Type 0
IsLive idle t =
    (t.is_started ≡ false) × (t.is_running ≡ false) × (t.stop_time ≡ none) × (t.start_time ≡ none)
IsLive starting t = IsActive t
IsLive loading t = IsActive t
IsLive running t = IsActive t
IsLive over t =
    (t.is_started ≡ true) × (t.is_running ≡ false) × (t.stop_time ≢ none) × (t.start_time ≢ none)

set_task_result-IsLive :
    (env : Env) (r : TaskResult) (up : Bool) (at : Stage) (t : TaskState) (w : World)
    → IsLive at t
    → IsLive at (set_task_result env r up t w).0
unfolding set_task_result update_task_state
set_task_result-IsLive env r up idle t w v = ground arith
set_task_result-IsLive env r up _ t w v = ground arith

poll-IsLive :
    (old : TaskResult) (at : Stage) (t : TaskState)
    → IsLive at t
    → IsLive at (get_task_result_update_chan old t).0
unfolding get_task_result_update_chan
poll-IsLive old idle t v = ground arith
poll-IsLive old _ t v = ground arith

begin_task-IsLive :
    (env : Env) (now later : ℕ) (cond : Condition) (at : Stage) (t : TaskState) (w : World)
    → IsLive at t
    → IsLive
        (began t.is_started at (begin_task env now later cond t w).2)
        (begin_task env now later cond t w).0
unfolding begin_task update_task_state
begin_task-IsLive env now later cond idle t w v = ground arith
begin_task-IsLive env now later cond _ t w v = rw (v.0, begin_task) (ground arith)

at_stage : {at stage : Stage} (t : TaskState) → at ≡ stage → IsLive at t → IsLive stage t
at_stage t e v = subst (λ x. IsLive x t) e v

Step-IsLive :
    {env : Env} {at to : Stage} {t u : TaskState} → Step env at t to u → IsLive at t → IsLive to u
unfolding init_task load_task time_out_task complete_task update_task_state
Step-IsLive {env} (set_result r up at t w) v = set_task_result-IsLive env r up at t w v
Step-IsLive (poll old at t) v = poll-IsLive old at t v
Step-IsLive {env} (begin now later cond at t w) v = begin_task-IsLive env now later cond at t w v
Step-IsLive (init now none at t w e) v = at_stage _ e v
Step-IsLive (init now (some err) at t w e) v = let a = at_stage _ e v in ground arith
Step-IsLive (load now config at t w e) v = let a = at_stage _ e v in ground arith
Step-IsLive (time_out at t w e) v = rw e (at_stage _ e v)
Step-IsLive (complete now outcome at t w e) v = let a = at_stage _ e v in ground arith

-- Whatever the goroutines do, and in any order: before its execution a task is neither started nor
-- running and has no times; during it, it is started and running, and has no stop time; and after
-- it, it is started, no longer running, and has a stop time.
pub Reach-IsLive :
    {env : Env} {from : Stage} {s : TaskState} {at : Stage} {t : TaskState}
    → Reach env from s at t
    → IsLive from s
    → IsLive at t
Reach-IsLive here v = v
Reach-IsLive (next r st) v = Step-IsLive st (Reach-IsLive r v)

Step-is_started :
    {env : Env} {at to : Stage} {t u : TaskState}
    → Step env at t to u
    → t.is_started ≡ true
    → u.is_started ≡ true
unfolding set_task_result get_task_result_update_chan begin_task init_task load_task time_out_task
    complete_task update_task_state
Step-is_started (set_result r up at t w) h = ground arith
Step-is_started (poll old at t) h = ground arith
Step-is_started (begin now later cond at t w) h = simp (h, begin_task)
Step-is_started (init now none at t w e) h = h
Step-is_started (init now (some err) at t w e) h = h
Step-is_started (load now config at t w e) h = ground arith
Step-is_started (time_out at t w e) h = h
Step-is_started (complete now outcome at t w e) h = ground arith

Reach-is_started :
    {env : Env} {from : Stage} {s : TaskState} {at : Stage} {t : TaskState}
    → Reach env from s at t
    → s.is_started ≡ true
    → t.is_started ≡ true
Reach-is_started here h = h
Reach-is_started (next r st) h = Step-is_started st (Reach-is_started r h)

-- A task is executed at most once: however long after a first start, and whatever was done to the
-- task in between, another call of `ExecuteTask` changes nothing and returns the error.
pub begin_task-again :
    {env : Env} {from : Stage} {s : TaskState} {at : Stage} {t : TaskState} (now later : ℕ)
    (cond : Condition) (w : World)
    → s.is_started ≡ true
    → Reach env from s at t
    → begin_task env now later cond t w ≡ (t, w, returned (some already_executed))
unfolding begin_task
begin_task-again now later cond w h r = rw (Reach-is_started r h, begin_task)
