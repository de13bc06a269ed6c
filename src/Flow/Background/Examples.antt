-- ===== src/Flow/Background/Examples.antt =====
-- A task with a background task that fails (tasks/run_task_background).
use assertoor.Prelude.{
  ℕ, ◌≤◌, ◌≡◌, refl, true, false, none, some, List, [], ◌∷◌, length, take, nat_key, string_key,
}
use assertoor.Types.{TaskResult}
use assertoor.Scheduler.State.{external}
use assertoor.Flow.Background.{
  Config, background_failed, Completion, start, receive, drop_chan, cancel, returned, Event,
  background_ends, foreground_ends, foreground_result, receives, drops, cancels, run,
}
use assertoor.Flow.Background.Justified.{IsJustified, run-IsJustified}
use assertoor.Flow.Background.Returns.{run-returns}

abbrev config : Config
config = record {
  exit_on_foreground_success = true;
  exit_on_foreground_failure = false;
  on_background_complete = "failOrIgnore";
}

abbrev events : List Event
events =
    foreground_result TaskResult.failure none
    ∷ background_ends TaskResult.failure
    ∷ receives
    ∷ drops
    ∷ cancels
    ∷ foreground_ends TaskResult.failure (some (external "cancelled"))
    ∷ []

abbrev background_fails : Completion
background_fails = record { result = TaskResult.failure; err = some background_failed }

returns_failure : returned (run config events (start true)) ≡ some background_fails
unfolding returned run start
returns_failure = refl

run-IsJustified_example : IsJustified config events background_fails
run-IsJustified_example = run-IsJustified config true events background_fails returns_failure

run-returns_example :
    let es : List Event = foreground_ends TaskResult.success none ∷ [] in
    let s = run config es (start false) in
    ((k : ℕ) → length (run config (take k es) (start false)).result_chan ≤ 3)
    × ((done : Completion) × (returned (cancel (drop_chan (receive s))) ≡ some done))
unfolding run start
run-returns_example = run-returns config false (foreground_ends TaskResult.success none ∷ []) refl
