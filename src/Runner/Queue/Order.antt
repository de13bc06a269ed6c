-- ===== src/Runner/Queue/Order.antt =====
-- The queue keeps the order of scheduling, each test once (testrunner.go).
use assertoor.Prelude.{
  ℕ, ◌+◌, ◌%◌, ◌^◌, ◌≤◌, ◌<◌, String, ◌≡◌, refl, ◌⊎◌, inl, inr, Bool, true, false, ◌&&◌, Option,
  none, some, List, [], ◌∷◌, ◌++◌, arith, Option-cases, length, All, nat_key, string_key,
}
use assertoor.Runner.TestRun.{TestStatus}
use assertoor.Runner.Queue.{
  TestRef, Descriptor, TestRunner, new_test_runner, in_queue, create_test_run, schedule_test,
  remove_run, remove_test_from_queue, take_next, start_taken, finish_run,
}
use assertoor.Runner.Queue.Calls.{
  Call, schedule, remove, take_one, start, finish, apply_call, apply_calls,
}
use assertoor.Runner.Queue.Rising.{
  IsQueue, append-Ordered, count-Ordered, remove-Ordered, take-Ordered, start-Ordered,
}

module _ (id : String) where
  abbrev pub new_run : Descriptor → TestRunner → TestRef
  new_run d c = record {
    run_id = (c.run_id_counter + 1) % 2 ^ 64;
    test_id = d.id;
    status = TestStatus.pending;
  }

  -- A call of `ScheduleTest` leaves the runner's queue, uses up an id, or appends the new run.
  schedule_test_cases :
      (d : Descriptor) (err : Option String) (dup skip : Bool) (c : TestRunner)
      → let c' = (schedule_test d err dup skip c).0 in
        (c'.taken ≡ c.taken)
        × (((c'.run_id_counter ≡ c.run_id_counter) × (c'.test_queue ≡ c.test_queue))
            ⊎ (((c'.run_id_counter ≡ (new_run d c).run_id) × (c'.test_queue ≡ c.test_queue))
                ⊎ ((c'.run_id_counter ≡ (new_run d c).run_id)
                    × (c'.test_queue ≡ c.test_queue ++ new_run d c ∷ [])
                    × ((dup ≡ true) ⊎ (in_queue d.id c.test_queue ≡ false)))))
  unfolding schedule_test create_test_run
  schedule_test_cases d err dup skip c = ground arith

  schedule-IsQueue :
      (d : Descriptor) (err : Option String) (dup skip : Bool) (c : TestRunner)
      → (dup && string_key.beq d.id id) ≡ false
      → IsQueue id c
      → c.run_id_counter + 1 < 2 ^ 64
      → IsQueue id (schedule_test d err dup skip c).0
        × ((schedule_test d err dup skip c).0.run_id_counter ≤ c.run_id_counter + 1)
  schedule-IsQueue d err dup skip c ok v room =
      let next : (new_run d c).run_id ≡ c.run_id_counter + 1 = omega arith in
      let (t, cases) = schedule_test_cases d err dup skip c in
      elim cases [
        | inl (n, q) ↦ (rw (t, n, q) v, omega arith)
        | inr (inl (n, q)) ↦ (
          rw (t, n, q)
              (count-Ordered id c.run_id_counter (new_run d c).run_id c.taken c.test_queue
                (omega arith) v),
          omega arith,
        )
        | inr (inr (n, q, new)) ↦
            let apart : (string_key.beq d.id id ≡ false) ⊎ (in_queue d.id c.test_queue ≡ false) =
              ground arith in
            (
              rw (t, n, q)
                  (append-Ordered id c.run_id_counter c.taken c.test_queue (new_run d c) v
                    (omega arith) apart),
              omega arith,
            )
      ]

  -- Calls other than `ScheduleTest` leave the counter.
  remove-IsQueue :
      (run : ℕ) (c : TestRunner)
      → IsQueue id c
      → IsQueue id (remove_test_from_queue run c).0
        × ((remove_test_from_queue run c).0.run_id_counter ≡ c.run_id_counter)
  unfolding remove_test_from_queue
  remove-IsQueue run c v = elim (Option-cases (remove_run run c.test_queue)) [
    | inl e ↦ rw (e, remove_test_from_queue) (v, refl)
    | inr (q, e) ↦
        rw (e, remove_test_from_queue)
          (remove-Ordered id run c.run_id_counter c.taken c.test_queue q e v, refl)
  ]

  take_next_cases :
      (c : TestRunner)
      → ((take_next c).run_id_counter ≡ c.run_id_counter)
        × ((((take_next c).taken ≡ c.taken) × ((take_next c).test_queue ≡ c.test_queue))
            ⊎ ((t : TestRef) × (ts : List TestRef) × (c.taken ≡ none)
                × (c.test_queue ≡ t ∷ ts)
                × ((take_next c).taken ≡ some t)
                × ((take_next c).test_queue ≡ ts)))
  unfolding take_next
  take_next_cases c = ground arith

  take-IsQueue :
      (c : TestRunner)
      → IsQueue id c
      → IsQueue id (take_next c) × ((take_next c).run_id_counter ≡ c.run_id_counter)
  take-IsQueue c v =
      let (n, cases) = take_next_cases c in
      elim cases [
        | inl (t, q) ↦ (rw (n, t, q) v, n)
        | inr (x, xs, e, e', t, q) ↦
            (rw (n, t, q) (take-Ordered id c.run_id_counter x xs (rw (e, e') at v)), n)
      ]

  start_taken_cases :
      (limit : ℕ) (c : TestRunner)
      → ((start_taken limit c).run_id_counter ≡ c.run_id_counter)
        × ((start_taken limit c).test_queue ≡ c.test_queue)
        × (((start_taken limit c).taken ≡ c.taken)
            ⊎ ((t : TestRef) × (c.taken ≡ some t) × ((start_taken limit c).taken ≡ none)))
  unfolding start_taken
  start_taken_cases limit c = ground arith

  start-IsQueue :
      (limit : ℕ) (c : TestRunner)
      → IsQueue id c
      → IsQueue id (start_taken limit c) × ((start_taken limit c).run_id_counter ≡ c.run_id_counter)
  start-IsQueue limit c v =
      let (n, q, cases) = start_taken_cases limit c in
      elim cases [
        | inl t ↦ (rw (n, t, q) v, n)
        | inr (x, e, t) ↦
            (rw (n, t, q) (start-Ordered id c.run_id_counter x c.test_queue (rw e at v)), n)
      ]

  -- A call that asks for a run of the test even if one is in the queue.
  abbrev pub asks_twice : String → Call → Bool
  asks_twice test (schedule d err dup skip) = dup && string_key.beq d.id test
  asks_twice test (remove run) = false
  asks_twice test take_one = false
  asks_twice test start = false
  asks_twice test (finish run) = false

  apply_call-IsQueue :
      (limit : ℕ) (call : Call) (c : TestRunner)
      → asks_twice id call ≡ false
      → IsQueue id c
      → c.run_id_counter + 1 < 2 ^ 64
      → IsQueue id (apply_call limit call c)
        × ((apply_call limit call c).run_id_counter ≤ c.run_id_counter + 1)
  unfolding apply_call finish_run
  apply_call-IsQueue limit (schedule d err dup skip) c ok v room =
      schedule-IsQueue d err dup skip c ok v room
  apply_call-IsQueue limit (remove run) c ok v room =
      let (v', n) = remove-IsQueue run c v in (v', omega (arith, n))
  apply_call-IsQueue limit take_one c ok v room =
      let (v', n) = take-IsQueue c v in (v', omega (arith, n))
  apply_call-IsQueue limit start c ok v room =
      let (v', n) = start-IsQueue limit c v in (v', omega (arith, n))
  apply_call-IsQueue limit (finish run) c ok v room = (v, omega arith)

  apply_calls-IsQueue :
      (limit : ℕ) (calls : List Call) (c : TestRunner)
      → All (λ call. asks_twice id call ≡ false) calls
      → IsQueue id c
      → c.run_id_counter + length calls < 2 ^ 64
      → IsQueue id (apply_calls limit calls c)
  unfolding apply_calls
  apply_calls-IsQueue limit [] c ok v room = v
  apply_calls-IsQueue limit (call ∷ calls) c (ok, oks) v room =
      let (v', n) = apply_call-IsQueue limit call c ok v (omega arith) in
      apply_calls-IsQueue limit calls (apply_call limit call c) oks v' (omega (arith, n))

  -- After any calls on a new runner (fewer than are left of the 2^64 run ids), runs wait in the order
  -- in which they were scheduled, by rising ids that were all given out, the one taken out first; and
  -- of a test that no call schedules with duplicates allowed, at most one run is in the queue.
  pub new_test_runner-IsQueue :
      (limit last_run_id : ℕ) (calls : List Call)
      → All (λ call. asks_twice id call ≡ false) calls
      → last_run_id + length calls < 2 ^ 64
      → IsQueue id (apply_calls limit calls (new_test_runner last_run_id))
  unfolding new_test_runner
  new_test_runner-IsQueue limit last calls ok room =
      apply_calls-IsQueue limit calls (new_test_runner last) ok
        (record { rising = omega arith; once = omega arith }) room
