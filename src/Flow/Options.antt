-- ===== src/Flow/Options.antt =====
-- tasks/run_task_options/task.go: a child task with retries, whose failure may be expected or
-- ignored. A child is parsed, made and run anew for each attempt; the errors come from the scheduler.
-- What the watcher of the child propagates is apart (`watched_result`), as are the variable scopes.
pub mod Outcome
use assertoor.Prelude.{
  ℕ, zero, suc, ◌+◌, Bool, ◌&&◌, ◌||◌, Option, none, some, arith, if◌then◌else◌, nat_key,
  string_key,
}
use assertoor.Types.{TaskResult}
use assertoor.Scheduler.State.{Error, external}

pub record Config : Type 0 where
  pub propagate_result : Bool
  pub exit_on_result : Bool
  pub invert_result : Bool
  pub expect_failure : Bool
  pub ignore_failure : Bool
  pub retry_on_failure : Bool
  pub max_retry_count : ℕ

pub data RunError : Type 0 where
  should_have_failed : RunError
  child_failed : Error → RunError
  child_error : Error → RunError
  parse_error : Error → RunError
  create_error : Error → RunError

-- An attempt: its options cannot be parsed, its task cannot be made, or it runs and ends with the
-- error of `ExecuteTask`.
pub data Attempt : Type 0 where
  parse_failed : Error → Attempt
  create_failed : Error → Attempt
  ran : Option Error → Attempt

-- What `Execute` leaves: the result that it sets, if any, its error, and the attempts made.
pub record Execution : Type 0 where
  pub set_result : Option TaskResult
  pub error : Option RunError
  pub attempts : ℕ

abbrev as_error : Option Error → Option RunError
as_error none = none
as_error (some e) = some (child_error e)

-- The last attempt, which is not retried.
unfoldable pub settle : Config → ℕ → Attempt → Execution
settle c n (parse_failed e) = record {
  set_result = none;
  error = some (parse_error e);
  attempts = n;
}
settle c n (create_failed e) = record {
  set_result = none;
  error = some (create_error e);
  attempts = n;
}
settle c n (ran err) =
    if c.expect_failure
    then (elim err [
      | none ↦ record {
        set_result = some TaskResult.failure;
        error = some should_have_failed;
        attempts = n;
      }
      | some e ↦ record {
        set_result = some TaskResult.success;
        error = some (child_error e);
        attempts = n;
      }
    ])
    else (if c.ignore_failure
        then record { set_result = some TaskResult.success; error = as_error err; attempts = n }
        else (elim err [
          | none ↦ record { set_result = none; error = none; attempts = n }
          | some e ↦ record {
            set_result = some TaskResult.failure;
            error = some (child_failed e);
            attempts = n;
          }
        ]))

-- `left` counts the retries that may still be made; attempt `n` is the next one. Options that cannot be parsed and a
-- task that cannot be made end the task at once.
unfoldable pub execute_from : Config → (ℕ → Attempt) → (left n : ℕ) → Execution
execute_from c child zero n = settle c (n + 1) (child n)
execute_from c child (suc left) n =
    let again = execute_from c child left (n + 1) in
    elim (child n) [
      | parse_failed e ↦ record {
        set_result = none;
        error = some (parse_error e);
        attempts = n + 1;
      }
      | create_failed e ↦ record {
        set_result = none;
        error = some (create_error e);
        attempts = n + 1;
      }
      | ran err ↦ elim err [
        | some e ↦ again
        | none ↦ record { set_result = none; error = none; attempts = n + 1 }
      ]
    ]

unfoldable pub execute : Config → (ℕ → Attempt) → Execution
unfolding execute_from
execute c child = execute_from c child (if c.retry_on_failure then c.max_retry_count else 0) 0

-- The result that is passed on for a child's result.
unfoldable pub watched_result : Config → TaskResult → TaskResult
watched_result c TaskResult.none = if c.invert_result then TaskResult.success else TaskResult.none
watched_result c TaskResult.success =
    if c.invert_result then TaskResult.none else TaskResult.success
watched_result c TaskResult.failure =
    if c.invert_result && (c.expect_failure || c.ignore_failure)
    then TaskResult.success
    else TaskResult.failure
