-- ===== src/Runner/Queue/Places.antt =====
-- How many runs the execution loop has active (testrunner.go RunTestExecutionLoop).
use assertoor.Prelude.{
  ℕ, ◌≤◌, ◌<◌, ◌≡◌, ap, ◌⊎◌, inl, inr, List, [], ◌∷◌, ◌++◌, arith, ltb, ◌==◌, if◌then◌else◌, ltb→lt,
  Bool-cases, Option-cases, length, length-append, nat_key, string_key,
}
use assertoor.Runner.Queue.{
  TestRef, TestRunner, new_test_runner, create_test_run, schedule_test, remove_test_from_queue,
  take_next, start_taken, drop_run, finish_run,
}
use assertoor.Runner.Queue.Calls.{
  Call, schedule, remove, take_one, start, finish, apply_call, apply_calls,
}

length-drop_run : (id : ℕ) (ts : List TestRef) → length (drop_run id ts) ≤ length ts
length-drop_run id [] = omega arith
length-drop_run id (t ∷ ts) = ground (arith, length-drop_run id ts)

abbrev pub places : ℕ → ℕ
places limit = if limit == 0 then 1 else limit

start_taken_active :
    (limit : ℕ) (c : TestRunner)
    → ((start_taken limit c).active ≡ c.active)
      ⊎ ((t : TestRef) × ((start_taken limit c).active ≡ c.active ++ t ∷ [])
          × (length c.active < places limit))
unfolding start_taken
start_taken_active limit c = elim (Option-cases c.taken) [
  | inl e ↦ inl (ground (arith, e))
  | inr (t, e) ↦ elim (Bool-cases (ltb (length c.active) (places limit))) [
    | inl room ↦ inr (t, ground (arith, e, room), ltb→lt _ _ room)
    | inr full ↦ inl (ground (arith, e, full))
  ]
]

apply_call_active :
    (limit : ℕ) (call : Call) (c : TestRunner)
    → length c.active ≤ places limit
    → length (apply_call limit call c).active ≤ places limit
unfolding apply_call schedule_test create_test_run remove_test_from_queue take_next start_taken
    finish_run
apply_call_active limit (schedule d err dup skip) c h = ground arith
apply_call_active limit (remove id) c h = ground arith
apply_call_active limit take_one c h = ground arith
apply_call_active limit start c h = elim (start_taken_active limit c) [
  | inl same ↦ rw same h
  | inr (t, more, room) ↦ omega (arith, ap length more, length-append c.active (t ∷ []))
]
apply_call_active limit (finish id) c h = ground (arith, length-drop_run id c.active)

apply_calls_active :
    (limit : ℕ) (calls : List Call) (c : TestRunner)
    → length c.active ≤ places limit
    → length (apply_calls limit calls c).active ≤ places limit
unfolding apply_calls
apply_calls_active limit [] c h = h
apply_calls_active limit (call ∷ calls) c h =
    apply_calls_active limit calls (apply_call limit call c) (apply_call_active limit call c h)

-- The queue's loop never has more runs active than the limit, which counts as 1 if it is 0.
pub new_test_runner-active :
    (limit last_run_id : ℕ) (calls : List Call)
    → length (apply_calls limit calls (new_test_runner last_run_id)).active ≤ places limit
unfolding new_test_runner
new_test_runner-active limit last calls =
    apply_calls_active limit calls (new_test_runner last) (ground arith)
