-- ===== src/Scheduler/Execution.antt =====
-- The life of one task: scheduler/task_execution.go ExecuteTask, and setTaskResult and
-- GetTaskResultUpdateChan of scheduler/task_state.go. `ExecuteTask` is cut where other goroutines
-- can act: `begin_task` runs up to the task's constructor, `init_task` to the end of it, `load_task`
-- after `LoadConfig`, and `complete_task` after `Execute`. Loggers are left out.
use assertoor.Prelude.{
  ℕ, ◌+◌, String, Bool, true, false, not, ◌||◌, Option, none, some, ◌∷◌, if◌then◌else◌, nat_key,
  string_key,
}
use assertoor.Vars.{Value, bool, num, set_var}
use assertoor.Types.{TaskResult, result_code, result_eq}
use assertoor.Scheduler.State.{
  Error, already_executed, condition_failed, init_failed, config_invalid, task_failed, TaskState,
  World, Env,
}
use assertoor.Scheduler.Database.{update_task_state}

abbrev pub set_status : TaskState → String → Value → World → World
set_status t name value w = record w { heap = set_var t.task_status_vars name value w.heap }

-- `close(ch); ch = nil`, if there is a channel.
unfoldable pub close_notify_chan : TaskState → TaskState
close_notify_chan t = elim t.result_notify_chan [
  | none ↦ t
  | some ch ↦ record t { result_notify_chan = none; closed_chans = ch ∷ t.closed_chans }
]

unfoldable pub set_task_result : Env → TaskResult → Bool → TaskState → World → TaskState × World
unfolding close_notify_chan update_task_state
set_task_result env result set_updated t w =
    let t1 = record t { updated_result = set_updated || t.updated_result } in
    let t2 = record t1 { task_result = result } in
    let (t3, w3) = update_task_state env t2 (set_status t "result" (num (result_code result)) w) in
    if result_eq t.task_result result then (t1, w) else (close_notify_chan t3, w3)

-- The end of a call that found no channel: it makes one and returns it.
unfoldable pub make_notify_chan : TaskState → TaskState × Option ℕ
make_notify_chan t = (
  record t { result_notify_chan = some t.chan_count; chan_count = t.chan_count + 1 },
  some t.chan_count,
)

-- The channel that is closed when the result changes; `none` if it has changed already. The call holds
-- the lock of the result for reading only: this is one step as long as no two calls of it overlap.
unfoldable pub get_task_result_update_chan : TaskResult → TaskState → TaskState × Option ℕ
unfolding make_notify_chan
get_task_result_update_chan old t =
    if not (result_eq t.task_result old)
    then (t, none)
    else (elim t.result_notify_chan [ some ch ↦ (t, some ch) | none ↦ make_notify_chan t ])

-- The first deferred function: the task stops running.
unfoldable pub stop_task : Env → ℕ → TaskState → World → TaskState × World
unfolding update_task_state
stop_task env now t w =
    update_task_state env (record t { is_running = false; stop_time = some now })
      (set_status t "running" (bool false) w)

-- What `ResolveQuery` gives for the condition: an error, or a value that is a Boolean or is not.
pub data Condition : Type 0 where
  query_failed : String → Condition
  no_boolean : Condition
  boolean : Bool → Condition

-- The task goes on, or `ExecuteTask` has returned.
pub data Progress : Type 0 where
  goes_on : Progress
  returned : Option Error → Progress

abbrev pub Phase : Type 0
Phase = TaskState × World × Progress

-- Return from `ExecuteTask` with the deferred functions run.
unfoldable pub finish : Env → ℕ → Option Error → TaskState × World → Phase
unfolding stop_task
finish env now err (t, w) = let (t', w') = stop_task env now t w in (t', w', returned err)

unfoldable pub mark_started : Env → ℕ → TaskState → World → TaskState × World
unfolding update_task_state
mark_started env now t w =
    update_task_state env (record t { is_started = true; start_time = some now; is_running = true })
      (set_status t "running" (bool true) (set_status t "started" (bool true) w))

unfoldable pub skip_task : Env → ℕ → TaskState → World → Phase
unfolding finish set_task_result
skip_task env now t w =
    finish env now none
      (set_task_result env TaskResult.none false (record t { is_skipped = true }) w)

unfoldable pub check_condition : Env → ℕ → Condition → TaskState × World → Phase
unfolding finish skip_task set_task_result
check_condition env now (query_failed e) (t, w) =
    finish env now (some (condition_failed e)) (set_task_result env TaskResult.failure false t w)
check_condition env now no_boolean (t, w) = skip_task env now t w
check_condition env now (boolean false) (t, w) = skip_task env now t w
check_condition env now (boolean true) (t, w) = (t, w, goes_on)

unfoldable pub begin_task : Env → ℕ → ℕ → Condition → TaskState → World → Phase
unfolding mark_started check_condition
begin_task env now later cond t w =
    let (t', w') = mark_started env now t w in
    let checked = check_condition env later cond (t', w') in
    if t.is_started
    then (t, w, returned (some already_executed))
    else (if string_key.beq t.options.if_cond "" then (t', w', goes_on) else checked)

-- `descriptor.NewTask`.
unfoldable pub init_task : Env → ℕ → Option String → TaskState → World → Phase
unfolding finish
init_task env now none t w = (t, w, goes_on)
init_task env now (some e) t w = finish env now (some (init_failed e)) (t, w)

-- `LoadConfig`: its error, or the configuration.
pub data Loaded : Type 0 where
  load_error : String → Loaded
  loaded : String → Loaded

unfoldable pub load_task : Env → ℕ → Loaded → TaskState → World → Phase
unfolding finish set_task_result
load_task env now (load_error e) t w =
    finish env now (some (config_invalid e)) (set_task_result env TaskResult.failure false t w)
load_task env now (loaded config) t w =
    (record t { has_task = true; task_config = config }, w, goes_on)

-- The timer of a task with a timeout.
unfoldable pub time_out_task : TaskState → World → TaskState × World
time_out_task t w = (record t { is_timeout = true }, set_status t "timeout" (bool true) w)

-- How `Execute` ends: it returns, or it panics with a value that is an error or is not.
pub data Outcome : Type 0 where
  result : Option String → Outcome
  panic : Option String → Outcome

abbrev pub has_error : Option String → Bool
has_error none = false
has_error (some e) = true

abbrev pub or_else : Option String → Option String → Option String
or_else none e = e
or_else (some e) _ = some e

-- The result that the scheduler sets if the task has not set one.
unfoldable pub settle_result : Env → Option String → TaskState → World → TaskState × World
unfolding set_task_result
settle_result env err t w =
    if not t.updated_result || result_eq t.task_result TaskResult.none
    then set_task_result env
        (if t.is_timeout || has_error err then TaskResult.failure else TaskResult.success) false t w
    else (t, w)

-- The error that `ExecuteTask` returns after `Execute` returned.
unfoldable pub final_error : TaskState → Option Error
final_error t =
    if result_eq t.task_result TaskResult.failure then some (task_failed t.task_error) else none

abbrev pub release_task : TaskState × World → TaskState × World
release_task (t, w) = (record t { has_task = false }, w)

-- After a panic the recovering function sets the result, and `ExecuteTask` returns no error.
unfoldable pub complete_task : Env → ℕ → Outcome → TaskState → World → Phase
unfolding finish settle_result final_error set_task_result
complete_task env now (result err) t w =
    let (t', w') = settle_result env err (record t { task_error = or_else t.task_error err }) w in
    finish env now (final_error t') (release_task (t', w'))
complete_task env now (panic err) t w = finish env now none (
    release_task (
      set_task_result env TaskResult.failure false
        (record t { task_error = or_else err t.task_error }) w))
