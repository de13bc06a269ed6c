-- ===== src/Flow/Examples.antt =====
-- Runs of the tasks that run other tasks (tasks/run_*).
use assertoor.Types.{TaskResult}
use assertoor.Scheduler.State.{external}
use assertoor.Scheduler.Execution.{result, complete_task}
use assertoor.Scheduler.Examples.{env, new_task, world}
use assertoor.Flow.Sequential
use assertoor.Flow.Sequential.{Ends, execute-Ends}
use assertoor.Flow.Limits
use assertoor.Flow.Limits.{
  update, complete, decided, waiting, watch_results, default_config, execute_concurrent,
  default_config-decided,
}
use assertoor.Flow.Limits.Verdict.{nothing_yet, Decides, watch_results-Decides}
use assertoor.Flow.Options
use assertoor.Flow.Options.Outcome.{
  is_failed_run, wanted, retries, report, describe_error, execute-complete_task,
}
use assertoor.Flow.Chain
use assertoor.Flow.Chain.{all_waiting, IsSerial, Reach-IsSerial}
use assertoor.Prelude.{
  ℕ, zero, suc, ◌+◌, ◌≤◌, ◌<◌, String, ◌≡◌, refl, ◌⊎◌, true, false, none, some, List, [], ◌∷◌, ltb,
  set, nat_key, string_key, lookup, insert,
}

abbrev plain_tasks : Sequential.Config
plain_tasks = record {
  stop_child_on_result = false;
  expect_failure = false;
  continue_on_failure = false;
  new_variable_scope = false;
}

execute-Ends_example :
    Ends plain_tasks 1
      (none ∷ some (external "boom") ∷ none ∷ [])
      (Sequential.execute plain_tasks (none ∷ some (external "boom") ∷ none ∷ []))
execute-Ends_example = execute-Ends plain_tasks (none ∷ some (external "boom") ∷ none ∷ [])

abbrev two_updates : List Limits.Message
two_updates = update 4 TaskResult.success ∷ update 5 TaskResult.failure ∷ complete ∷ []

two_updates_fail :
    watch_results default_config (4 ∷ 5 ∷ []) [] two_updates ≡ decided TaskResult.failure
unfolding watch_results Limits.decide_update Limits.count_results lookup insert
two_updates_fail = refl

watch_results-Decides_example :
    Decides default_config (4 ∷ 5 ∷ []) nothing_yet two_updates TaskResult.failure
watch_results-Decides_example =
    watch_results-Decides default_config (4 ∷ 5 ∷ []) two_updates TaskResult.failure
      two_updates_fail

abbrev retrying : Options.Config
retrying = record {
  propagate_result = false;
  exit_on_result = false;
  invert_result = false;
  expect_failure = false;
  ignore_failure = false;
  retry_on_failure = true;
  max_retry_count = 2;
}

-- The first attempt fails.
abbrev attempt : ℕ → Options.Attempt
attempt zero = Options.ran (some (external "not yet"))
attempt (suc n) = Options.ran none

abbrev describe : Options.RunError → String
describe e = "failed"

execute-complete_task_example :
    let x = Options.execute retrying attempt in
    let (t1, w1) = report env x.set_result new_task world in
    (d : ℕ) × (d ≤ retries retrying)
    × ((k : ℕ) → k < d → is_failed_run (attempt k) ≡ true)
    × ((is_failed_run (attempt d) ≡ false) ⊎ (d ≡ retries retrying))
    × (x.attempts ≡ d + 1)
    × ((complete_task env 9 (result (describe_error describe x.error)) t1 w1).0.task_result
        ≡ wanted retrying (ltb d (retries retrying)) (attempt d))
execute-complete_task_example =
    execute-complete_task env 9 describe retrying attempt new_task world refl refl refl

Reach-IsSerial_example :
    IsSerial (set (set (set (all_waiting 3) 0 Chain.running) 0 Chain.done) 1 Chain.running)
Reach-IsSerial_example = Reach-IsSerial 3 (
    Chain.next
      (Chain.next (Chain.next Chain.here (Chain.start (all_waiting 3) 0 refl tt))
        (Chain.finish (set (all_waiting 3) 0 Chain.running) 0 refl))
      (Chain.start (set (set (all_waiting 3) 0 Chain.running) 0 Chain.done) 1 refl refl))
