-- ===== src/Flow/Options/Outcome.antt =====
-- What a run_task_options task comes to, with its execution by the scheduler.
use assertoor.Prelude.{
  ℕ, zero, suc, ◌+◌, ◌≤◌, ◌<◌, String, ◌≡◌, refl, ◌⊎◌, inl, inr, Bool, true, false, ◌||◌, Option,
  none, some, arith, ltb, ◌==◌, if◌then◌else◌, ltb→lt, ==_iff, Bool-cases, nat_key, string_key,
}
use assertoor.Types.{TaskResult}
use assertoor.Scheduler.State.{Error, TaskState, World, Env}
use assertoor.Scheduler.Execution.{set_task_result, result, complete_task}
use assertoor.Flow.Options.{
  Config, RunError, parse_error, create_error, Attempt, parse_failed, create_failed, ran, Execution,
  settle, execute_from, execute,
}

abbrev pub retries : Config → ℕ
retries c = if c.retry_on_failure then c.max_retry_count else 0

-- An attempt that is retried while retries are left: a run with an error.
abbrev pub is_failed_run : Attempt → Bool
is_failed_run (parse_failed e) = false
is_failed_run (create_failed e) = false
is_failed_run (ran none) = false
is_failed_run (ran (some e)) = true

failed_run-cases :
    (a : Attempt)
    → ((e : Error) × (a ≡ ran (some e)))
      ⊎ ((a ≡ ran none)
          ⊎ (((e : Error) × (a ≡ parse_failed e)) ⊎ ((e : Error) × (a ≡ create_failed e))))
failed_run-cases (parse_failed e) = inr (inr (inl (e, refl)))
failed_run-cases (create_failed e) = inr (inr (inr (e, refl)))
failed_run-cases (ran none) = inr (inl refl)
failed_run-cases (ran (some e)) = inl (e, refl)

-- The attempt that counts: the first one that is no failed run, or the last one allowed.
pub decisive : (ℕ → Attempt) → (left n : ℕ) → ℕ
decisive child zero n = n
decisive child (suc left) n =
    let later = decisive child left (n + 1) in if is_failed_run (child n) then later else n

decisive_bounds :
    (child : ℕ → Attempt) (left n : ℕ)
    → (n ≤ decisive child left n) × (decisive child left n ≤ n + left)
unfolding decisive
decisive_bounds child zero n = omega arith
decisive_bounds child (suc left) n = ground (arith, decisive_bounds child left (n + 1))

-- Every attempt before the decisive one failed.
decisive_first :
    (child : ℕ → Attempt) (left n k : ℕ)
    → n ≤ k
    → k < decisive child left n
    → is_failed_run (child k) ≡ true
unfolding decisive
decisive_first child zero n k ge lt = absurd (omega arith)
decisive_first child (suc left) n k ge lt = elim (Bool-cases (is_failed_run (child n))) [
  | inr e ↦ absurd (ground (arith, e))
  | inl e ↦ elim (Bool-cases (k == n)) [
    | inl same ↦ rw ((==_iff k n).0 same) e
    | inr other ↦ decisive_first child left (n + 1) k (ground arith) (rw (e, decisive) at lt)
  ]
]

decisive_last :
    (child : ℕ → Attempt) (left n : ℕ)
    → decisive child left n < n + left
    → is_failed_run (child (decisive child left n)) ≡ false
unfolding decisive
decisive_last child zero n lt = absurd (omega arith)
decisive_last child (suc left) n lt = elim (Bool-cases (is_failed_run (child n))) [
  | inr e ↦ rw (e, decisive) e
  | inl e ↦
      let lt' = rw (e, decisive) at lt in
      rw (e, decisive) (decisive_last child left (n + 1) (omega arith))
]

-- How an attempt ends the task while retries are left.
abbrev early : ℕ → Attempt → Execution
early n (parse_failed e) = record { set_result = none; error = some (parse_error e); attempts = n }
early n (create_failed e) = record {
  set_result = none;
  error = some (create_error e);
  attempts = n;
}
early n (ran err) = record { set_result = none; error = none; attempts = n }

attempts_of :
    (c : Config) (d n : ℕ) (a : Attempt)
    → (if d == n then settle c (d + 1) a else early (d + 1) a).attempts ≡ d + 1
unfolding settle
attempts_of c d n (parse_failed e) = ground arith
attempts_of c d n (create_failed e) = ground arith
attempts_of c d n (ran err) = ground arith

-- An attempt is final in itself if it uses up the retries; earlier it was no failed run.
execute_from-decisive :
    (c : Config) (child : ℕ → Attempt) (left n : ℕ)
    → let d = decisive child left n in
      execute_from c child left n
      ≡ (if d == n + left then settle c (d + 1) (child d) else early (d + 1) (child d))
unfolding execute_from decisive
execute_from-decisive c child zero n =
    let same : n + 0 ≡ n = omega arith in rw same (ground (arith, (==_iff n n).1 refl))
execute_from-decisive c child (suc left) n =
    let moved : n + suc left ≡ n + 1 + left = omega arith in
    elim (failed_run-cases (child n)) [
      | inl (x, e) ↦
          rw (e, execute_from, decisive, moved) (execute_from-decisive c child left (n + 1))
      | inr (inl e) ↦ rw (e, execute_from, decisive) (ground (arith, e))
      | inr (inr (inl (x, e))) ↦ rw (e, execute_from, decisive) (ground (arith, e))
      | inr (inr (inr (x, e))) ↦ rw (e, execute_from, decisive) (ground (arith, e))
    ]

-- `SetResult`, if the task calls it.
abbrev pub report : Env → Option TaskResult → TaskState → World → TaskState × World
report env none t w = (t, w)
report env (some r) t w = set_task_result env r true t w

abbrev pub describe_error : (RunError → String) → Option RunError → Option String
describe_error describe none = none
describe_error describe (some e) = some (describe e)

-- Failure if the attempt could not be parsed or made. Else success where it is wanted: a child that
-- succeeds before the retries are used up; and with no retry left, one that fails where a failure
-- is expected, any if failures are ignored, and else one that succeeds.
abbrev pub wanted : Config → (retries_left : Bool) → Attempt → TaskResult
wanted c retries_left (parse_failed e) = TaskResult.failure
wanted c retries_left (create_failed e) = TaskResult.failure
wanted c true (ran err) = TaskResult.success
wanted c false (ran err) = elim err [
  | none ↦ if c.expect_failure then TaskResult.failure else TaskResult.success
  | some e ↦ if c.expect_failure || c.ignore_failure then TaskResult.success else TaskResult.failure
]

module _ (env : Env) (now : ℕ) (describe : RunError → String) (t : TaskState) (w : World)
    (u : t.updated_result ≡ false) (r : t.task_result ≡ TaskResult.none)
    (o : t.is_timeout ≡ false) where
  abbrev result_after : Execution → TaskResult
  result_after x =
      let (t1, w1) = report env x.set_result t w in
      (complete_task env now (result (describe_error describe x.error)) t1 w1).0.task_result

  settle-result :
      (n : ℕ) (c : Config) (a : Attempt) → result_after (settle c n a) ≡ wanted c false a
  unfolding settle complete_task
  settle-result n c (parse_failed e) = ground arith
  settle-result n c (create_failed e) = ground arith
  settle-result n c (ran err) = ground arith

  early-result : (n : ℕ) (c : Config) (a : Attempt) → result_after (early n a) ≡ wanted c true a
  unfolding complete_task
  early-result n c (parse_failed e) = ground arith
  early-result n c (create_failed e) = ground arith
  early-result n c (ran err) = ground arith

last_or_done :
    (child : ℕ → Attempt) (n d : ℕ)
    → d ≤ n
    → (d < n → is_failed_run (child d) ≡ false)
    → (is_failed_run (child d) ≡ false) ⊎ (d ≡ n)
last_or_done child n d le done = elim (Bool-cases (ltb d n)) [
  | inl lt ↦ inl (done (ltb→lt d n lt))
  | inr ge ↦ inr (ground arith)
]

-- A run_task_options task that is not timed out and has no result by then (so none was propagated),
-- with the scheduler around it: it makes attempts up to the first that is no failed run (one that
-- succeeds, whose options cannot be parsed or whose task cannot be made) or to its last retry, all
-- earlier ones having run and failed; and its result is the wanted one for that last attempt. In
-- particular an error that it returns does not make it fail where a failure is expected or ignored,
-- an expected failure is not asked for while retries are left, and an attempt that cannot be parsed
-- or made fails it however it is configured.
pub execute-complete_task :
    (env : Env) (now : ℕ) (describe : RunError → String) (c : Config) (child : ℕ → Attempt)
    (t : TaskState) (w : World)
    → t.updated_result ≡ false
    → t.task_result ≡ TaskResult.none
    → t.is_timeout ≡ false
    → let x = execute c child in
      let (t1, w1) = report env x.set_result t w in
      (d : ℕ) × (d ≤ retries c)
      × ((k : ℕ) → k < d → is_failed_run (child k) ≡ true)
      × ((is_failed_run (child d) ≡ false) ⊎ (d ≡ retries c))
      × (x.attempts ≡ d + 1)
      × ((complete_task env now (result (describe_error describe x.error)) t1 w1).0.task_result
          ≡ wanted c (ltb d (retries c)) (child d))
unfolding execute
execute-complete_task env now describe c child t w u r o =
    let n = retries c in
    let d = decisive child n 0 in
    let bounds = decisive_bounds child n 0 in
    let plain : 0 + n ≡ n = omega arith in
    let eq = rw plain at (execute_from-decisive c child n 0) in
    (
      d,
      omega arith,
      (λ k lt. decisive_first child n 0 k (omega arith) lt),
      last_or_done child n d (omega arith) (λ lt. decisive_last child n 0 (omega arith)),
      rw eq (attempts_of c d n (child d)),
      elim (Bool-cases (d == n)) [
        | inl last ↦
            let spent : ltb d n ≡ false = ground arith in
            rw (eq, last, spent) (settle-result env now describe t w u r o (d + 1) c (child d))
        | inr more ↦
            let left : ltb d n ≡ true = ground arith in
            rw (eq, more, left) (early-result env now describe t w u r o (d + 1) c (child d))
      ],
    )
