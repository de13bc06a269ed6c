-- ===== src/Scheduler/State.antt =====
-- The state of a task and of its database record (scheduler/task_state.go, db/task_states.go), and
-- what the scheduler asks of code outside the model.
use assertoor.Prelude.{ℕ, String, Bool, Option, List, nat_key, string_key}
use assertoor.Vars.{Fields, Heap}
use assertoor.Types.{TaskResult, TaskOptions}

pub data Error : Type 0 where
  task_not_found already_executed unknown_task_name database_failed context_done : Error
  condition_failed init_failed config_invalid : String → Error
  task_failed : Option String → Error
  external : String → Error

-- A row of the table `task_states`.
pub record DbTaskState : Type 0 where
  pub run_id : ℕ
  pub task_id : ℕ
  pub parent_task : ℕ
  pub name : String
  pub title : String
  pub ref_id : String
  pub timeout : ℕ
  pub if_cond : String
  pub run_flags : ℕ
  pub start_time : ℕ
  pub stop_time : ℕ
  pub task_config : String
  pub task_status : String
  pub task_result : ℕ
  pub task_error : String

-- A channel is named by a number that is new to the task; `closed_chans` are the closed ones.
pub record TaskState : Type 0 where
  pub index : ℕ
  pub options : TaskOptions
  pub parent_state : Option ℕ
  pub task_depth : ℕ
  pub task_vars : ℕ
  pub task_outputs : ℕ
  pub task_status_vars : ℕ
  pub has_task : Bool
  pub task_config : String
  pub is_cleanup : Bool
  pub is_started : Bool
  pub is_running : Bool
  pub is_skipped : Bool
  pub is_timeout : Bool
  pub start_time : Option ℕ
  pub stop_time : Option ℕ
  pub updated_result : Bool
  pub task_result : TaskResult
  pub task_error : Option String
  pub result_notify_chan : Option ℕ
  pub chan_count : ℕ
  pub closed_chans : List ℕ
  pub db_task_state : Option DbTaskState

-- The database, if the services have one; `fails` says whether its transactions fail at present.
pub data Database : Type 0 where
  no_database : Database
  database : (rows : List (ℕ × DbTaskState)) (fails : Bool) → Database

pub record World : Type 0 where
  pub heap : Heap
  pub store : Database

-- Code outside the model: the task registry, the placeholder resolver and the YAML encoders.
pub record Env : Type 0 where
  pub has_descriptor : String → Bool
  pub resolve_placeholders : Heap → ℕ → String → String
  pub marshal_config : String → Option String
  pub marshal_status : Fields → Option String
  pub map_depth : ℕ
