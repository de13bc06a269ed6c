-- ===== src/Scheduler/Examples.antt =====
-- A task without a condition and one with a condition, in a world without a database
-- (scheduler/task_execution.go, scheduler/task_state.go).
use assertoor.Vars.{empty_scope, variables}
use assertoor.Types.{TaskResult, result_eq, result_code}
use assertoor.Scheduler.State.{
  condition_failed, task_failed, TaskState, World, Env, no_database, database, DbTaskState,
}
use assertoor.Scheduler.Execution.{
  loaded, get_task_result_update_chan, boolean, query_failed, no_boolean, result, returned, goes_on,
  begin_task, complete_task, set_task_result,
}
use assertoor.Scheduler.Results.{
  state_of, progress_of, expected_result, complete_task-result, begin_task-condition,
}
use assertoor.Scheduler.Lifecycle.{
  Stage, idle, began, Reach, here, next, begin, set_result, IsLive, Reach-IsLive,
}
use assertoor.Scheduler.Database.{text_or, task_run_flags, update_task_state}
use assertoor.Scheduler.Sync.{stored, update_task_state-stored}
use assertoor.Scheduler.Tasks.{TaskScheduler, new_task_scheduler, add_root_task, add_cleanup_task}
use assertoor.Scheduler.Running.{TaskRun, Executed, Plan, run_tasks}
use assertoor.Scheduler.Order.{EndsRoots, EndsCleanup, run_tasks-EndsCleanup}
use assertoor.Scheduler.Watch.{is_closed, down, HasChans, poll-Reach_closed, Reach-HasChans}
use assertoor.Scheduler.TaskOrder.{sorts_before}
use assertoor.Scheduler.TaskOrder.Forest.{root, child}
use assertoor.Scheduler.TaskOrder.Sorted.{sorts_before-lex}
use assertoor.Prelude.{
  ℕ, String, ◌≡◌, refl, ◌≢◌, true, false, none, some, List, [], ◌∷◌, arith, ◌==◌, if◌then◌else◌,
  nat_key, string_key, lookup,
}

abbrev pub env : Env
env = record {
  has_descriptor = λ name. true;
  resolve_placeholders = λ heap v text. text;
  marshal_config = λ config. some config;
  marshal_status = λ fields. some "status";
  map_depth = 4;
}

abbrev task_with : String → TaskState
task_with if_cond = record {
  index = 1;
  options = record { name = "sleep"; title = "wait"; id = ""; if_cond = if_cond; timeout = 0 };
  parent_state = none;
  task_depth = 0;
  task_vars = 0;
  task_outputs = 1;
  task_status_vars = 2;
  has_task = false;
  task_config = "";
  is_cleanup = false;
  is_started = false;
  is_running = false;
  is_skipped = false;
  is_timeout = false;
  start_time = none;
  stop_time = none;
  updated_result = false;
  task_result = TaskResult.none;
  task_error = none;
  result_notify_chan = none;
  chan_count = 0;
  closed_chans = [];
  db_task_state = none;
}

abbrev pub new_task : TaskState
new_task = task_with ""

abbrev pub world : World
world = record {
  heap =
      variables (empty_scope none)
      ∷ variables (empty_scope none)
      ∷ variables (empty_scope none)
      ∷ [];
  store = no_database;
}

-- The task once it has begun at time 5.
abbrev begun : TaskState
begun = (begin_task env 5 6 no_boolean new_task world).0

abbrev begun_stage : Stage
begun_stage = began false idle (begin_task env 5 6 no_boolean new_task world).2

begun_path : Reach env idle new_task begun_stage begun
begun_path = next here (begin 5 6 no_boolean idle new_task world)

began_running : (begun.is_running ≡ true) × (begun.start_time ≡ some 5)
unfolding begin_task
began_running = (refl, refl)

complete_task-result_example :
    let p = complete_task env 9 (result (some "boom")) new_task world in
    let r = expected_result new_task (some "boom") in
    ((state_of p).is_running ≡ false)
    × ((state_of p).stop_time ≡ some 9)
    × ((state_of p).task_result ≡ r)
    × ((state_of p).task_error ≡ some "boom")
    × (progress_of p
        ≡ returned
            (if result_eq r TaskResult.failure then some (task_failed (some "boom")) else none))
complete_task-result_example = complete_task-result env 9 (some "boom") new_task world

abbrev cond_task : TaskState
cond_task = task_with ".ready"

named : cond_task.options.if_cond ≢ ""
named e = grind (arith, string_key.beq_iff ".ready" "", e)

begin_task-condition_example :
    let bad = begin_task env 5 6 (query_failed "bad query") cond_task world in
    let odd = begin_task env 5 6 no_boolean cond_task world in
    let off = begin_task env 5 6 (boolean false) cond_task world in
    let on = begin_task env 5 6 (boolean true) cond_task world in
    ((progress_of bad ≡ returned (some (condition_failed "bad query")))
      × ((state_of bad).task_result ≡ TaskResult.failure)
      × ((state_of bad).is_started ≡ true)
      × ((state_of bad).is_running ≡ false))
    × ((progress_of off ≡ returned none)
        × ((state_of off).task_result ≡ TaskResult.none)
        × ((state_of off).is_skipped ≡ true)
        × ((state_of off).is_started ≡ true)
        × ((state_of off).is_running ≡ false))
    × (odd ≡ off)
    × ((progress_of on ≡ goes_on)
        × ((state_of on).task_result ≡ TaskResult.none)
        × ((state_of on).is_skipped ≡ false)
        × ((state_of on).is_started ≡ true)
        × ((state_of on).is_running ≡ true))
begin_task-condition_example = begin_task-condition env 5 6 "bad query" cond_task world refl named

Reach-IsLive_example : IsLive begun_stage begun
Reach-IsLive_example = Reach-IsLive begun_path (refl, refl, refl, refl)

abbrev watched : TaskState
watched = (get_task_result_update_chan TaskResult.none new_task).0

abbrev changed : TaskState
changed = (set_task_result env TaskResult.success true watched world).0

handed_out : (get_task_result_update_chan TaskResult.none new_task).1 ≡ some 0
unfolding get_task_result_update_chan
handed_out = refl

succeeded : changed.task_result ≢ TaskResult.none
unfolding set_task_result get_task_result_update_chan
succeeded = ground arith

poll-Reach_closed_example :
    (new_task.task_result ≡ TaskResult.none) × (is_closed 0 changed.closed_chans ≡ true)
poll-Reach_closed_example =
    poll-Reach_closed {from = idle} TaskResult.none new_task changed 0
      (next here (set_result TaskResult.success true idle watched world)) handed_out succeeded

Reach-HasChans_example : HasChans begun
unfolding down
Reach-HasChans_example = Reach-HasChans begun_path refl

-- A second task with a row in a database, of which one row belongs to another task.
abbrev row_of_task : ℕ → DbTaskState
row_of_task id = record {
  run_id = 1;
  task_id = id;
  parent_task = 0;
  name = "sleep";
  title = "wait";
  ref_id = "";
  timeout = 0;
  if_cond = "";
  run_flags = 0;
  start_time = 0;
  stop_time = 0;
  task_config = "";
  task_status = "";
  task_result = 0;
  task_error = "";
}

abbrev rows : List (ℕ × DbTaskState)
rows = (1, row_of_task 1) ∷ (2, row_of_task 2) ∷ []

abbrev failed_task : TaskState
failed_task = record new_task {
  is_started = true;
  task_result = TaskResult.failure;
  task_error = some "boom";
  db_task_state = some (row_of_task 1);
}

abbrev stored_world : World
stored_world = record world { store = database rows false }

own_row : lookup 1 rows ≡ some (row_of_task 1)
unfolding lookup
own_row = refl

update_task_state-stored_example :
    let r = update_task_state env failed_task stored_world in
    (d' : DbTaskState) × (r.0.db_task_state ≡ some d')
    × (stored 1 r.1.store ≡ some d')
    × (stored 2 r.1.store ≡ lookup 2 rows)
    × (d'.run_flags ≡ task_run_flags failed_task)
    × (d'.task_result ≡ result_code TaskResult.failure)
    × (d'.task_error ≡ text_or (some "boom") "")
update_task_state-stored_example =
    update_task_state-stored env failed_task stored_world (row_of_task 1) rows 2 refl refl own_row
      refl (ground arith)

-- Two root tasks, of which the first fails, and a cleanup task.
abbrev scheduler : TaskScheduler
scheduler =
    (add_cleanup_task env new_task.options
      (add_root_task env new_task.options
        (add_root_task env new_task.options (new_task_scheduler 0 1 world)).0).0).0

abbrev failing_run : ℕ → TaskRun
failing_run i = record {
  started_at = 5;
  stopped_at = 9;
  condition = no_boolean;
  init_error = none;
  during_load = [];
  config = loaded "duration: 1s";
  during_run = [];
  outcome = result (if i == 1 then some "boom" else none);
}

abbrev plan : Plan
plan = record { run_of = failing_run; done_after = λ i. false }

run_tasks-EndsCleanup_example :
    let r = run_tasks env plan (λ i. false) failing_run scheduler in
    (roots : Executed) × EndsRoots env plan scheduler.root_tasks scheduler roots
    × EndsCleanup env (λ i. false) failing_run roots.0.root_cleanup_tasks roots.0 r.0
    × (r.1 ≡ roots.1)
run_tasks-EndsCleanup_example = run_tasks-EndsCleanup env plan (λ i. false) failing_run scheduler

-- Two root tasks, and one that the first of them started.
abbrev second_task : TaskState
second_task = record new_task { index = 2 }

abbrev nested_task : TaskState
nested_task = record new_task { index = 3; parent_state = some 1; task_depth = 1 }

abbrev three_tasks : List (ℕ × TaskState)
three_tasks = (1, new_task) ∷ (2, second_task) ∷ (3, nested_task) ∷ []

sorts_before-lex_example : sorts_before 3 three_tasks nested_task second_task ≡ some true
unfolding lookup
sorts_before-lex_example =
    sorts_before-lex 3 three_tasks nested_task second_task (1 ∷ []) []
      (child nested_task new_task [] refl refl refl (root new_task refl refl))
      (root second_task refl refl) refl refl (omega arith)
