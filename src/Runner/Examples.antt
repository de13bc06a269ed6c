-- ===== src/Runner/Examples.antt =====
-- Test runs and a queue of them (test/test.go, testrunner.go).
use assertoor.Runner.TestRun.{
  pending, success, Test, Tasks, run, final_status, started_row, run_result,
}
use assertoor.Runner.Queue.{new_test_runner}
use assertoor.Runner.Queue.Calls.{Call, schedule, remove, take_one, start, apply_calls}
use assertoor.Runner.Queue.Rising.{IsQueue}
use assertoor.Runner.Queue.Order.{new_test_runner-IsQueue}
use assertoor.Runner.Queue.Places.{places, new_test_runner-active}
use assertoor.Prelude.{
  ◌≤◌, ◌≡◌, refl, ◌↔◌, true, false, none, some, List, [], ◌∷◌, arith, length, nat_key, string_key,
}

abbrev new_test : Test
new_test = record {
  status = pending;
  start_time = none;
  stop_time = none;
  task_count = 2;
  tasks_cancelled = false;
  cleanup_cancelled = false;
  db_test_run = record { status = pending; start_time = 0; stop_time = 0 };
  row = record { status = pending; start_time = 0; stop_time = 0 };
}

abbrev aborted_tasks : Tasks
aborted_tasks = record {
  aborts = false ∷ [];
  error = some "context canceled";
  context_done = false;
}

run_result_example :
    let r = run 3 8 false true aborted_tasks new_test in
    (r.0.status ≡ final_status aborted_tasks)
    × (r.0.start_time ≡ some 3)
    × (r.0.stop_time ≡ some 8)
    × ((r.1 ≡ none) ↔ (final_status aborted_tasks ≡ success))
    × (r.0.row ≡ started_row 3 false new_test)
run_result_example = run_result 3 8 false true aborted_tasks new_test refl

abbrev calls : List Call
calls =
    schedule (record { id = "a"; err = none }) none true false
    ∷ schedule (record { id = "b"; err = none }) none false false
    ∷ take_one
    ∷ start
    ∷ schedule (record { id = "a"; err = none }) none true false
    ∷ remove 2
    ∷ []

new_test_runner-IsQueue_example : IsQueue "b" (apply_calls 1 calls (new_test_runner 7))
new_test_runner-IsQueue_example =
    new_test_runner-IsQueue "b" 1 7 calls (refl, (refl, (refl, (refl, (refl, (refl, tt))))))
      (omega arith)

new_test_runner-active_example : length (apply_calls 1 calls (new_test_runner 7)).active ≤ places 1
new_test_runner-active_example = new_test_runner-active 1 7 calls
