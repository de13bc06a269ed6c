-- ===== src/Types.antt =====
-- The shared types of pkg/coordinator/types/task.go.
use assertoor.Prelude.{ℕ, Bool, true, false, String}

pub data TaskResult : Type 0 where
  none success failure : TaskResult

abbrev pub result_code : TaskResult → ℕ
result_code none = 0
result_code success = 1
result_code failure = 2

abbrev pub result_eq : TaskResult → TaskResult → Bool
result_eq none none = true
result_eq success success = true
result_eq failure failure = true
result_eq _ _ = false

-- The raw configuration is read by the task itself and is not part of the model.
pub record TaskOptions : Type 0 where
  pub name : String
  pub title : String
  pub id : String
  pub if_cond : String
  pub timeout : ℕ
