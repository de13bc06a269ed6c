-- ===== src/Scheduler/Results.antt =====
-- The result and the error of a task's execution (scheduler/task_execution.go).
use assertoor.Prelude.{
  ℕ, String, ◌≡◌, ◌≢◌, true, false, not, ◌&&◌, ◌||◌, Option, none, some, arith, if◌then◌else◌,
  nat_key, string_key,
}
use assertoor.Types.{TaskResult, result_eq}
use assertoor.Scheduler.State.{condition_failed, task_failed, TaskState, World, Env}
use assertoor.Scheduler.Database.{update_task_state}
use assertoor.Scheduler.Execution.{
  query_failed, no_boolean, boolean, Progress, goes_on, returned, Phase, begin_task, result, panic,
  has_error, or_else, complete_task,
}

abbrev pub state_of : Phase → TaskState
state_of p = p.0

abbrev pub progress_of : Phase → Progress
progress_of p = p.2

-- The result that an execution must end with: the task's own, if it set one that is not `none`;
-- else failure after an error or a timeout, and success otherwise.
pub expected_result : TaskState → Option String → TaskResult
expected_result t err =
    if t.updated_result && not (result_eq t.task_result TaskResult.none)
    then t.task_result
    else (if t.is_timeout || has_error err then TaskResult.failure else TaskResult.success)

-- When `Execute` returns, the task has stopped, its result is the expected one, and an error is
-- returned exactly when that result is a failure; the error kept is the first one reported.
pub complete_task-result :
    (env : Env) (now : ℕ) (err : Option String) (t : TaskState) (w : World)
    → let p = complete_task env now (result err) t w in
      let r = expected_result t err in
      ((state_of p).is_running ≡ false)
      × ((state_of p).stop_time ≡ some now)
      × ((state_of p).task_result ≡ r)
      × ((state_of p).task_error ≡ or_else t.task_error err)
      × (progress_of p
          ≡ returned (
              if result_eq r TaskResult.failure
              then some (task_failed (or_else t.task_error err))
              else none))
unfolding complete_task expected_result update_task_state
complete_task-result env now err t w = ground arith

-- When `Execute` panics the task has stopped with the result failure and keeps the panic's error,
-- but `ExecuteTask` returns no error, so that its caller takes the task for a success.
pub complete_task-panic :
    (env : Env) (now : ℕ) (err : Option String) (t : TaskState) (w : World)
    → let p = complete_task env now (panic err) t w in
      ((state_of p).is_running ≡ false)
      × ((state_of p).task_result ≡ TaskResult.failure)
      × ((state_of p).task_error ≡ or_else err t.task_error)
      × (progress_of p ≡ returned none)
unfolding complete_task update_task_state
complete_task-panic env now err t w = ground arith

-- A new task with a condition: a query that fails ends it with a failure and an error, a condition
-- that is false or no Boolean skips it with no result and no error, and one that is true lets it
-- run. In every case it counts as started, and it is running only in the last.
pub begin_task-condition :
    (env : Env) (now later : ℕ) (e : String) (t : TaskState) (w : World)
    → t.is_started ≡ false
    → t.options.if_cond ≢ ""
    → let bad = begin_task env now later (query_failed e) t w in
      let odd = begin_task env now later no_boolean t w in
      let off = begin_task env now later (boolean false) t w in
      let on = begin_task env now later (boolean true) t w in
      ((progress_of bad ≡ returned (some (condition_failed e)))
        × ((state_of bad).task_result ≡ TaskResult.failure)
        × ((state_of bad).is_started ≡ true)
        × ((state_of bad).is_running ≡ false))
      × ((progress_of off ≡ returned none)
          × ((state_of off).task_result ≡ TaskResult.none)
          × ((state_of off).is_skipped ≡ true)
          × ((state_of off).is_started ≡ true)
          × ((state_of off).is_running ≡ false))
      × (odd ≡ off)
      × ((progress_of on ≡ goes_on)
          × ((state_of on).task_result ≡ t.task_result)
          × ((state_of on).is_skipped ≡ t.is_skipped)
          × ((state_of on).is_started ≡ true)
          × ((state_of on).is_running ≡ true))
unfolding begin_task update_task_state
begin_task-condition env now later e t w fresh cond =
    let some_cond : string_key.beq t.options.if_cond "" ≡ false =
      ground (arith, string_key.beq_iff t.options.if_cond "") in
    rw (fresh, some_cond) (ground arith)
