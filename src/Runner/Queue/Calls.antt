-- ===== src/Runner/Queue/Calls.antt =====
-- Sequences of calls on the test runner (testrunner.go).
use assertoor.Prelude.{ℕ, String, Bool, Option, List, [], ◌∷◌, nat_key, string_key}
use assertoor.Runner.Queue.{
  Descriptor, TestRunner, schedule_test, remove_test_from_queue, take_next, start_taken, finish_run,
}

-- What is done to the runner. The web API passes on whether a test may stand in the queue twice.
pub data Call : Type 0 where
  schedule : Descriptor → Option String → (allow_duplicate : Bool) → (skip_queue : Bool) → Call
  remove : ℕ → Call
  take_one start : Call
  finish : ℕ → Call

unfoldable pub apply_call : (limit : ℕ) → Call → TestRunner → TestRunner
apply_call limit (schedule d err dup skip) c = (schedule_test d err dup skip c).0
apply_call limit (remove id) c = (remove_test_from_queue id c).0
apply_call limit take_one c = take_next c
apply_call limit start c = start_taken limit c
apply_call limit (finish id) c = finish_run id c

unfoldable pub apply_calls : (limit : ℕ) → List Call → TestRunner → TestRunner
apply_calls limit [] c = c
apply_calls limit (call ∷ calls) c = apply_calls limit calls (apply_call limit call c)
