-- ===== src/Flow/Background.antt =====
-- tasks/run_task_background: a foreground task beside a background task. What the two tasks, the
-- watcher of the foreground's result and `Execute` do is a sequence of events, in any order that
-- the locks and the channels allow.
pub mod Justified
pub mod Returns
mod Examples
use text.Mathlib.Text.{◌==◌ as str_eq}
use assertoor.Prelude.{
  String, Bool, true, false, not, ◌&&◌, ◌||◌, Option, none, some, List, [], ◌∷◌, ◌++◌, arith, ◌==◌,
  if◌then◌else◌, nat_key, string_key,
}
use assertoor.Types.{TaskResult, result_eq}
use assertoor.Scheduler.State.{Error}

pub record Config : Type 0 where
  pub exit_on_foreground_success : Bool
  pub exit_on_foreground_failure : Bool
  pub on_background_complete : String

pub data CompletionError : Type 0 where
  background_completed : CompletionError
  background_failed : CompletionError
  foreground_error : Error → CompletionError

-- `taskResult` of the source.
pub record Completion : Type 0 where
  pub result : TaskResult
  pub err : Option CompletionError

-- `result_chan` holds what was sent; `is_open` says that the field is not nil. `set_results` are the
-- results set on the task itself, the last one first.
pub record Background : Type 0 where
  pub background_runs : Bool
  pub foreground_runs : Bool
  pub watches : Bool
  pub current_result : TaskResult
  pub result_chan : List Completion
  pub is_open : Bool
  pub received : Option Completion
  pub is_cancelled : Bool
  pub set_results : List TaskResult

unfoldable pub start : (has_background : Bool) → Background
start has_background = record {
  background_runs = has_background;
  foreground_runs = true;
  watches = true;
  current_result = TaskResult.none;
  result_chan = [];
  is_open = true;
  received = none;
  is_cancelled = false;
  set_results = [];
}

unfoldable pub complete_with_result : Completion → Background → Background
complete_with_result c s =
    if s.is_open then record s { result_chan = s.result_chan ++ c ∷ [] } else s

-- What the end of the background task asks for.
unfoldable pub background_completion : Config → TaskResult → Option Completion
background_completion c result =
    if str_eq c.on_background_complete "fail"
    then some (record { result = TaskResult.failure; err = some background_completed })
    else (if str_eq c.on_background_complete "success" || str_eq c.on_background_complete "succeed"
        then some (record { result = TaskResult.success; err = none })
        else (if str_eq c.on_background_complete "failOrIgnore"
              && result_eq result TaskResult.failure
            then some (record { result = TaskResult.failure; err = some background_failed })
            else none))

abbrev pub complete_some : Option Completion → Background → Background
complete_some none s = s
complete_some (some c) s = complete_with_result c s

unfoldable pub exec_background_task : Config → TaskResult → Background → Background
unfolding background_completion complete_with_result
exec_background_task c result s =
    let ended = record s { background_runs = false } in
    if not s.background_runs
    then s
    else (if s.is_cancelled then ended else complete_some (background_completion c result) ended)

abbrev pub foreground_completion : TaskResult → Option Error → Completion
foreground_completion result none = record { result = result; err = none }
foreground_completion result (some e) = record { result = result; err = some (foreground_error e) }

-- The end of the foreground task.
unfoldable pub exec_foreground_task : TaskResult → Option Error → Background → Background
unfolding complete_with_result
exec_foreground_task result err s =
    if not s.foreground_runs
    then s
    else complete_with_result (foreground_completion result err)
        (record s { foreground_runs = false })

-- One round of the watcher, which reads the result of the foreground task.
unfoldable pub watch_task_result : Config → TaskResult → Option Error → Background → Background
unfolding complete_with_result
watch_task_result c result err s =
    let seen = record s { current_result = result } in
    let left = record seen { watches = false } in
    if not s.watches || result_eq result s.current_result
    then s
    else (if c.exit_on_foreground_success && result_eq result TaskResult.success
        then complete_with_result (record { result = TaskResult.success; err = none }) left
        else (if c.exit_on_foreground_failure && result_eq result TaskResult.failure
            then complete_with_result (foreground_completion TaskResult.failure err) left
            else record seen { set_results = result ∷ s.set_results }))

-- The watcher finds its context done.
unfoldable pub stop_watching : Background → Background
stop_watching s =
    if s.is_cancelled || not s.foreground_runs then record s { watches = false } else s

-- `Execute` receives the first completion and sets its result,
unfoldable pub receive : Background → Background
receive s = elim s.received [
  | some c ↦ s
  | none ↦ elim s.result_chan [
    | [] ↦ s
    | c ∷ rest ↦ record s {
      result_chan = rest;
      received = some c;
      set_results = c.result ∷ s.set_results;
    }
  ]
]

-- drops the channel,
unfoldable pub drop_chan : Background → Background
drop_chan s = elim s.received [ none ↦ s | some c ↦ record s { is_open = false } ]

-- and cancels the context of both tasks.
unfoldable pub cancel : Background → Background
cancel s = if s.is_open then s else record s { is_cancelled = true }

-- What it returns once the foreground task has ended.
unfoldable pub returned : Background → Option Completion
returned s = if s.is_cancelled && not s.is_open && not s.foreground_runs then s.received else none

pub data Event : Type 0 where
  background_ends : TaskResult → Event
  foreground_ends : TaskResult → Option Error → Event
  foreground_result : TaskResult → Option Error → Event
  watcher_stops receives drops cancels parent_cancels : Event

unfoldable pub step : Config → Event → Background → Background
unfolding exec_background_task exec_foreground_task watch_task_result stop_watching receive
    drop_chan cancel
step c (background_ends result) s = exec_background_task c result s
step c (foreground_ends result err) s = exec_foreground_task result err s
step c (foreground_result result err) s = watch_task_result c result err s
step c watcher_stops s = stop_watching s
step c receives s = receive s
step c drops s = drop_chan s
step c cancels s = cancel s
step c parent_cancels s = record s { is_cancelled = true }

unfoldable pub run : Config → List Event → Background → Background
unfolding step
run c [] s = s
run c (e ∷ es) s = run c es (step c e s)
