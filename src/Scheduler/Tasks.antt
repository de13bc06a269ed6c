-- ===== src/Scheduler/Tasks.antt =====
-- The scheduler's tasks: newTaskState (scheduler/task_state.go), AddRootTask, AddCleanupTask and the
-- getters (scheduler/scheduler.go). A locked section is one step.
use assertoor.Prelude.{
  ℕ, ◌+◌, ◌%◌, ◌^◌, String, ◌⊎◌, inl, inr, Bool, true, false, Option, none, some, List, [], ◌∷◌,
  ◌++◌, if◌then◌else◌, length, nat_key, string_key, lookup, insert,
}
use assertoor.Vars.{Heap, new_variables, set_sub_scope, get_sub_scope}
use assertoor.Types.{TaskResult, TaskOptions}
use assertoor.Scheduler.State.{
  Error, unknown_task_name, database_failed, DbTaskState, TaskState, Database, no_database,
  database, World, Env,
}

pub record TaskScheduler : Type 0 where
  pub root_vars : ℕ
  pub test_run_id : ℕ
  pub task_count : ℕ
  pub all_tasks : List ℕ
  pub root_tasks : List ℕ
  pub all_cleanup_tasks : List ℕ
  pub root_cleanup_tasks : List ℕ
  pub task_state_map : List (ℕ × TaskState)
  pub world : World

abbrev pub Tasks : Type 0
Tasks = List (ℕ × TaskState)

unfoldable pub new_task_scheduler : ℕ → ℕ → World → TaskScheduler
new_task_scheduler vars run_id w = record {
  root_vars = vars;
  test_run_id = run_id;
  task_count = 0;
  all_tasks = [];
  root_tasks = [];
  all_cleanup_tasks = [];
  root_cleanup_tasks = [];
  task_state_map = [];
  world = w;
}

unfoldable pub get_task_state : ℕ → TaskScheduler → Option TaskState
get_task_state i s = lookup i s.task_state_map

-- The scope of a new task: the one given, else its parent's, else the root's.
abbrev pub scope_for : Option ℕ → Option TaskState → ℕ → ℕ
scope_for (some v) _ root = v
scope_for none (some parent) root = parent.task_vars
scope_for none none root = root

abbrev pub parent_index : Option TaskState → Option ℕ
parent_index none = none
parent_index (some p) = some p.index

abbrev pub depth_below : Option TaskState → ℕ
depth_below none = 0
depth_below (some p) = (p.task_depth + 1) % 2 ^ 64

-- The status scope of a task, entered as `tasks.<id>` if the task has an id: the new heap, and the
-- addresses of the outputs and of the status.
pub new_task_scopes : String → ℕ → Heap → Heap × ℕ × ℕ
unfolding new_variables
new_task_scopes id vars h =
    let (h1, outputs) = new_variables none h in
    let (h2, status) = new_variables none h1 in
    let h3 = set_sub_scope status "outputs" outputs h2 in
    let (h4, tasks) = get_sub_scope (length h3) vars "tasks" h3 in
    (if string_key.beq id "" then h3 else set_sub_scope tasks id status h4, outputs, status)

pub new_db_state :
    Env → TaskScheduler → ℕ → TaskOptions → Option TaskState → ℕ → Heap → Bool → DbTaskState
new_db_state env s idx options parent vars h cleanup = record {
  run_id = s.test_run_id;
  task_id = idx;
  parent_task = elim parent [ none ↦ 0 | some p ↦ p.index ];
  name = options.name;
  title = env.resolve_placeholders h vars options.title;
  ref_id = options.id;
  timeout = options.timeout;
  if_cond = options.if_cond;
  run_flags = if cleanup then 0x01 else 0;
  start_time = 0;
  stop_time = 0;
  task_config = "";
  task_status = "";
  task_result = 0;
  task_error = "";
}

pub fresh_task : ℕ → TaskOptions → Option TaskState → ℕ → ℕ → ℕ → Bool → TaskState
fresh_task idx options parent vars outputs status cleanup = record {
  index = idx;
  options = options;
  parent_state = parent_index parent;
  task_depth = depth_below parent;
  task_vars = vars;
  task_outputs = outputs;
  task_status_vars = status;
  has_task = false;
  task_config = "";
  is_cleanup = cleanup;
  is_started = false;
  is_running = false;
  is_skipped = false;
  is_timeout = false;
  start_time = none;
  stop_time = none;
  updated_result = false;
  task_result = TaskResult.none;
  task_error = none;
  result_notify_chan = none;
  chan_count = 0;
  closed_chans = [];
  db_task_state = none;
}

-- The task's record, if there is a database; the table with it, if the transaction succeeds.
abbrev pub own_record : Database → DbTaskState → Option DbTaskState
own_record no_database d = none
own_record (database rows fails) d = some d

abbrev pub insert_task_state : Database → DbTaskState → Database
insert_task_state no_database d = no_database
insert_task_state (database rows true) d = database rows true
insert_task_state (database rows false) d = database (insert d.task_id d rows) false

abbrev pub insert_result : Database → ℕ → Error ⊎ ℕ
insert_result (database rows true) idx = inl database_failed
insert_result _ idx = inr idx

-- A task whose record cannot be written stays registered, though its creator gets an error.
unfoldable pub register_task :
    Env → TaskOptions → Option TaskState → ℕ → Bool → TaskScheduler → TaskScheduler
unfolding new_task_scopes new_db_state fresh_task
register_task env options parent vars cleanup s =
    let idx = (s.task_count + 1) % 2 ^ 64 in
    let (h, outputs, status) = new_task_scopes options.id vars s.world.heap in
    let d = new_db_state env s idx options parent vars h cleanup in
    let t = fresh_task idx options parent vars outputs status cleanup in
    record s {
      task_count = idx;
      task_state_map =
          insert idx (record t { db_task_state = own_record s.world.store d }) s.task_state_map;
      all_tasks = if cleanup then s.all_tasks else s.all_tasks ++ idx ∷ [];
      all_cleanup_tasks = if cleanup then s.all_cleanup_tasks ++ idx ∷ [] else s.all_cleanup_tasks;
      world = record { heap = h; store = insert_task_state s.world.store d };
    }

unfoldable pub new_task_state :
    Env
    → TaskOptions
    → Option TaskState
    → Option ℕ
    → Bool
    → TaskScheduler
    → TaskScheduler × (Error ⊎ ℕ)
unfolding register_task
new_task_state env options parent variables cleanup s =
    let s' = register_task env options parent (scope_for variables parent s.root_vars) cleanup s in
    if env.has_descriptor options.name
    then (s', insert_result s.world.store ((s.task_count + 1) % 2 ^ 64))
    else (s, inl unknown_task_name)

abbrev add_root : TaskScheduler × (Error ⊎ ℕ) → TaskScheduler × (Error ⊎ ℕ)
add_root (s, inl e) = (s, inl e)
add_root (s, inr idx) = (record s { root_tasks = s.root_tasks ++ idx ∷ [] }, inr idx)

abbrev add_root_cleanup : TaskScheduler × (Error ⊎ ℕ) → TaskScheduler × (Error ⊎ ℕ)
add_root_cleanup (s, inl e) = (s, inl e)
add_root_cleanup (s, inr idx) =
    (record s { root_cleanup_tasks = s.root_cleanup_tasks ++ idx ∷ [] }, inr idx)

unfoldable pub add_root_task : Env → TaskOptions → TaskScheduler → TaskScheduler × (Error ⊎ ℕ)
unfolding new_task_state
add_root_task env options s = add_root (new_task_state env options none none false s)

unfoldable pub add_cleanup_task : Env → TaskOptions → TaskScheduler → TaskScheduler × (Error ⊎ ℕ)
unfolding new_task_state
add_cleanup_task env options s = add_root_cleanup (new_task_state env options none none true s)

unfoldable pub get_task_count : TaskScheduler → ℕ
get_task_count s = length s.all_tasks
