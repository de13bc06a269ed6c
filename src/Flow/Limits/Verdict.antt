-- ===== src/Flow/Limits/Verdict.antt =====
-- When the loop of the concurrent tasks ends with which result (tasks/run_tasks_concurrent/task.go,
-- tasks/run_task_matrix/task.go), told of the reports without the map and the counters of the loop.
use assertoor.Prelude.{
  ℕ, suc, ◌≤◌, ◌<◌, ◌≡◌, refl, ap, ◌⊎◌, inl, inr, none, some, List, [], ◌∷◌, ◌++◌, arith, ◌==◌,
  if◌then◌else◌, length, nat_key, string_key, lookup, insert, lookup-insert,
}
use assertoor.Types.{TaskResult, result_eq}
use assertoor.Flow.Limits.{
  ResultMap, result_of, count_results, Config, success_limit, failure_limit, decide_update,
  decide_complete, Message, cancelled, complete, update, decided, watch_results, AreUpdates,
}

-- The latest result of each child, and what one message makes of it.
abbrev pub Results : Type 0
Results = ℕ → TaskResult

abbrev pub nothing_yet : Results
nothing_yet task = TaskResult.none

abbrev pub report : Results → Message → Results
report f (update task r) = λ k. if task == k then r else f k
report f cancelled = f
report f complete = f

abbrev pub reports : Results → List Message → Results
reports f [] = f
reports f (m ∷ ms) = reports (report f m) ms

abbrev pub number_of : TaskResult → Results → List ℕ → ℕ
number_of r f [] = 0
number_of r f (task ∷ tasks) =
    let n = number_of r f tasks in if result_eq (f task) r then suc n else n

-- As many as the limit, or all where the limit is 0; and fewer.
abbrev pub AtLimit : ℕ → List ℕ → ℕ → Type 0
AtLimit limit tasks n = (if limit == 0 then length tasks else limit) ≤ n

abbrev pub BelowLimit : ℕ → List ℕ → ℕ → Type 0
BelowLimit limit tasks n = n < (if limit == 0 then length tasks else limit)

abbrev pub IsOpen : Config → List ℕ → Results → Type 0
IsOpen c tasks f =
    BelowLimit c.succeed_task_count tasks (number_of TaskResult.success f tasks)
    × BelowLimit c.fail_task_count tasks (number_of TaskResult.failure f tasks)

-- After each of the messages both numbers are below their limits.
abbrev pub StayOpen : Config → List ℕ → Results → List Message → Type 0
StayOpen c tasks f [] = Unit
StayOpen c tasks f (m ∷ ms) = IsOpen c tasks (report f m) × StayOpen c tasks (report f m) ms

abbrev pub IsVerdict : Config → List ℕ → Results → TaskResult → Type 0
IsVerdict c tasks f r =
    let successes = number_of TaskResult.success f tasks in
    let failures = number_of TaskResult.failure f tasks in
    ((r ≡ TaskResult.success) × AtLimit c.succeed_task_count tasks successes)
    ⊎ ((r ≡ TaskResult.failure)
        × BelowLimit c.succeed_task_count tasks successes
        × AtLimit c.fail_task_count tasks failures)

-- After some updates that keep both numbers below their limits comes one that reaches a limit, or
-- the message that all children have completed.
abbrev pub Decides : Config → List ℕ → Results → List Message → TaskResult → Type 0
Decides c tasks f ms r =
    (pre : List Message) × (post : List Message) × (AreUpdates pre)
    × (StayOpen c tasks f pre)
    × (((task : ℕ) × (k : TaskResult) × (ms ≡ pre ++ update task k ∷ post)
          × IsVerdict c tasks (report (reports f pre) (update task k)) r)
        ⊎ ((ms ≡ pre ++ complete ∷ post)
            × (r ≡ (if c.fail_on_undecided then TaskResult.failure else TaskResult.success))))

-- The map of the loop has the latest results.
abbrev Tells : ResultMap → Results → Type 0
Tells m f = (k : ℕ) → result_of m k ≡ f k

count_results-number_of :
    (r : TaskResult) (m : ResultMap) (f : Results) (tasks : List ℕ)
    → Tells m f
    → count_results r m tasks ≡ number_of r f tasks
unfolding count_results
count_results-number_of r m f [] same = refl
count_results-number_of r m f (task ∷ tasks) same =
    rw (same task) (ground (arith, count_results-number_of r m f tasks same))

insert-Tells :
    (task : ℕ) (r : TaskResult) (m : ResultMap) (f : Results)
    → Tells m f
    → Tells (insert task r m) (report f (update task r))
insert-Tells task r m f same k = ground (arith, lookup-insert task k r m, same k)

decide_update-cases :
    (c : Config) (tasks : List ℕ) (m : ResultMap) (f : Results)
    → Tells m f
    → ((decide_update c tasks m ≡ none) × IsOpen c tasks f)
      ⊎ ((r : TaskResult) × (decide_update c tasks m ≡ some r) × IsVerdict c tasks f r)
unfolding decide_update success_limit failure_limit
decide_update-cases c tasks m f same =
    let s = count_results-number_of TaskResult.success m f tasks same in
    let e = count_results-number_of TaskResult.failure m f tasks same in ground (arith, s, e)

decides :
    (c : Config) (tasks : List ℕ) (m : ResultMap) (f : Results) (ms : List Message) (r : TaskResult)
    → Tells m f
    → watch_results c tasks m ms ≡ decided r
    → Decides c tasks f ms r
unfolding watch_results decide_complete
decides c tasks m f [] r same h = cc
decides c tasks m f (cancelled ∷ ms) r same h = cc
decides c tasks m f (complete ∷ ms) r same h = ([], ms, tt, tt, inr (refl, ground arith))
decides c tasks m f (update task s ∷ ms) r same h =
    let m' = insert task s m in
    let f' = report f (update task s) in
    let same' = insert-Tells task s m f same in
    elim (decide_update-cases c tasks m' f' same') [
      | inl (e, open_yet) ↦
          let (pre, post, us, quiet, why) =
            decides c tasks m' f' ms r same' (simp (e, watch_results) at h) in
          (
            update task s ∷ pre,
            post,
            us,
            (open_yet, quiet),
            elim why [
              | inl (t, k, eq, v) ↦ inl (t, k, ap (◌∷◌ (update task s)) eq, v)
              | inr (eq, d) ↦ inr (ap (◌∷◌ (update task s)) eq, d)
            ],
          )
      | inr (x, e, v) ↦
          let same_result : x ≡ r = ground (arith, simp (e, watch_results) at h) in
          ([], ms, tt, tt, inl (task, s, refl, rw same_result at v))
    ]

-- Whenever the loop decides on a result, it does so at the first of these messages: an update after
-- which the children whose latest result is a success are as many as the success limit (a success),
-- one after which they are fewer, and those whose latest result is a failure are as many as the
-- failure limit (a failure), or the message that all children have completed (a failure if
-- failOnUndecided, else a success). A limit of 0 stands for all children.
pub watch_results-Decides :
    (c : Config) (tasks : List ℕ) (ms : List Message) (r : TaskResult)
    → watch_results c tasks [] ms ≡ decided r
    → Decides c tasks nothing_yet ms r
unfolding lookup
watch_results-Decides c tasks ms r h = decides c tasks [] nothing_yet ms r (λ k. refl) h
