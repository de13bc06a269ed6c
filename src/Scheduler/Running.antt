-- ===== src/Scheduler/Running.antt =====
-- Executing tasks: ExecuteTask on the scheduler's tasks (scheduler/task_execution.go), RunTasks and
-- runCleanupTasks (scheduler/scheduler.go). What the goroutines of other tasks and of a task's own
-- `LoadConfig` and `Execute` do in the meantime is a list of events.
use assertoor.Prelude.{
  ℕ, String, Bool, true, Option, none, some, List, [], ◌∷◌, if◌then◌else◌, nat_key, string_key,
  insert,
}
use assertoor.Vars.{Value, set_var}
use assertoor.Types.{TaskResult, TaskOptions}
use assertoor.Scheduler.State.{Error, task_not_found, context_done, TaskState, Database, World, Env}
use assertoor.Scheduler.Execution.{
  set_task_result, get_task_result_update_chan, Condition, Progress, goes_on, returned, Phase,
  begin_task, init_task, Loaded, load_task, time_out_task, Outcome, complete_task,
}
use assertoor.Scheduler.Tasks.{TaskScheduler, get_task_state, new_task_state}

unfoldable pub store_task : ℕ → TaskState → World → TaskScheduler → TaskScheduler
store_task i t w s = record s { task_state_map = insert i t s.task_state_map; world = w }

unfoldable pub on_task : ℕ → (TaskState → World → TaskState × World) → TaskScheduler → TaskScheduler
unfolding store_task get_task_state
on_task i op s = elim (get_task_state i s) [
  | none ↦ s
  | some t ↦ let (t', w') = op t s.world in store_task i t' w' s
]

-- What can happen between two steps of one execution.
pub data Event : Type 0 where
  set_result : ℕ → TaskResult → Event
  poll : ℕ → TaskResult → Event
  time_out : ℕ → Event
  begin : ℕ → ℕ → ℕ → Condition → Event
  init : ℕ → ℕ → Option String → Event
  load : ℕ → ℕ → Loaded → Event
  complete : ℕ → ℕ → Outcome → Event
  new_task : (creator : ℕ) → TaskOptions → (variables : Option ℕ) → Event
  write_var : ℕ → String → Value → Event
  replace_store : Database → Event

abbrev of_phase : Phase → TaskState × World
of_phase (t, w, p) = (t, w)

-- A child inherits `isCleanup` from the task that makes it.
unfoldable pub apply_event : Env → Event → TaskScheduler → TaskScheduler
unfolding on_task
apply_event env (set_result i r) s = on_task i (set_task_result env r true) s
apply_event env (poll i old) s = on_task i (λ t w. ((get_task_result_update_chan old t).0, w)) s
apply_event env (time_out i) s = on_task i time_out_task s
apply_event env (begin i now later cond) s =
    on_task i (λ t w. of_phase (begin_task env now later cond t w)) s
apply_event env (init i now err) s = on_task i (λ t w. of_phase (init_task env now err t w)) s
apply_event env (load i now config) s = on_task i (λ t w. of_phase (load_task env now config t w)) s
apply_event env (complete i now outcome) s =
    on_task i (λ t w. of_phase (complete_task env now outcome t w)) s
apply_event env (new_task creator options variables) s = elim (get_task_state creator s) [
  | none ↦ s
  | some t ↦ (new_task_state env options (some t) variables t.is_cleanup s).0
]
apply_event env (write_var v name value) s = record s {
  world = record s.world { heap = set_var v name value s.world.heap };
}
apply_event env (replace_store d) s = record s { world = record s.world { store = d } }

unfoldable pub apply_events : Env → List Event → TaskScheduler → TaskScheduler
unfolding apply_event
apply_events env [] s = s
apply_events env (e ∷ es) s = apply_events env es (apply_event env e s)

-- What the environment does in one execution of a task.
pub record TaskRun : Type 0 where
  pub started_at : ℕ
  pub stopped_at : ℕ
  pub condition : Condition
  pub init_error : Option String
  pub during_load : List Event
  pub config : Loaded
  pub during_run : List Event
  pub outcome : Outcome

abbrev pub Executed : Type 0
Executed = TaskScheduler × Option Error

abbrev pub after_phase : Progress → TaskScheduler → (TaskScheduler → Executed) → Executed
after_phase goes_on s k = k s
after_phase (returned err) s k = (s, err)

unfoldable pub run_phase :
    ℕ → (TaskState → World → Phase) → TaskScheduler → (TaskScheduler → Executed) → Executed
unfolding store_task get_task_state
run_phase i op s k = elim (get_task_state i s) [
  | none ↦ (s, some task_not_found)
  | some t ↦ let (t', w', p) = op t s.world in after_phase p (store_task i t' w' s) k
]

unfoldable pub execute_task : Env → ℕ → TaskRun → TaskScheduler → Executed
execute_task env i run s =
    run_phase i (begin_task env run.started_at run.stopped_at run.condition) s λ s1.
      run_phase i (init_task env run.stopped_at run.init_error) s1 λ s2.
        run_phase i (load_task env run.stopped_at run.config) (apply_events env run.during_load s2)
          λ s3.
            run_phase i (complete_task env run.stopped_at run.outcome)
              (apply_events env run.during_run s3) λ s4. (s4, none)

-- The context of the tasks, asked after each execution, and how each task runs.
pub record Plan : Type 0 where
  pub run_of : ℕ → TaskRun
  pub done_after : ℕ → Bool

unfoldable pub run_root_tasks : Env → Plan → List ℕ → TaskScheduler → Executed
run_root_tasks env plan [] s = (s, none)
run_root_tasks env plan (i ∷ is) s =
    let (s', err) = execute_task env i (plan.run_of i) s in
    let rest = run_root_tasks env plan is s' in
    elim err [
      | some e ↦ (s', some e)
      | none ↦ if plan.done_after i then (s', some context_done) else rest
    ]

-- The error of a cleanup task is only logged. The context is asked before each task.
unfoldable pub run_cleanup_tasks :
    Env → (ℕ → Bool) → (ℕ → TaskRun) → List ℕ → TaskScheduler → TaskScheduler
run_cleanup_tasks env done run_of [] s = s
run_cleanup_tasks env done run_of (i ∷ is) s =
    let rest = run_cleanup_tasks env done run_of is (execute_task env i (run_of i) s).0 in
    if done i then s else rest

-- The cleanup is deferred: it runs however the root tasks ended.
unfoldable pub run_tasks : Env → Plan → (ℕ → Bool) → (ℕ → TaskRun) → TaskScheduler → Executed
unfolding run_root_tasks run_cleanup_tasks
run_tasks env plan cleanup_done cleanup_run s =
    let (s', err) = run_root_tasks env plan s.root_tasks s in
    (run_cleanup_tasks env cleanup_done cleanup_run s'.root_cleanup_tasks s', err)
