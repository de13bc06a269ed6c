-- ===== src/Flow/Limits.antt =====
-- How tasks/run_tasks_concurrent/task.go and tasks/run_task_matrix/task.go decide on a result while
-- their children run. The select loop reads a sequence of messages.
pub mod Verdict
use assertoor.Prelude.{
  ℕ, zero, suc, ◌+◌, ◌-◌, ◌*◌, ◌/◌, ◌%◌, ◌^◌, ◌≤◌, ◌<◌, String, ◌≡◌, refl, sym, ap, ◌∙◌, ◌≢◌, ◌↔◌,
  ◌⊎◌, inl, inr, Bool, true, false, not, ◌&&◌, ◌||◌, Option, none, some, List, [], ◌∷◌, ◌++◌, map,
  arith, ltb, leb, ◌==◌, if◌then◌else◌, ltb→lt, lt→ltb, leb→le, ==_iff, Bool-cases, Option-cases,
  length, get_elem?, set, take, drop, filterb, anyb, All, length-append, length-set, length-take,
  length-drop, take-append-drop, drop_all, take_all, drop-append_le, drop-append_ge, set-split,
  drop_head, drop-drop, take-append, drop-append, drop-set, take-set, get_elem?-set_self,
  get_elem?-set_ne, get_elem?_bound, Key, nat_key, string_key, lookup, insert, delete,
  lookup-insert, lookup-delete,
}
use assertoor.Types.{TaskResult, result_eq}

-- Children are named by their task index; a child with no update yet has the zero result.
abbrev pub ResultMap : Type 0
ResultMap = List (ℕ × TaskResult)

abbrev pub result_of : ResultMap → ℕ → TaskResult
result_of m task = elim (lookup task m) [ none ↦ TaskResult.none | some r ↦ r ]

unfoldable pub count_results : TaskResult → ResultMap → List ℕ → ℕ
count_results r m [] = 0
count_results r m (task ∷ tasks) =
    let n = count_results r m tasks in if result_eq (result_of m task) r then suc n else n

pub record Config : Type 0 where
  pub succeed_task_count : ℕ
  pub fail_task_count : ℕ
  pub fail_on_undecided : Bool

-- A limit of 0 stands for all children.
abbrev pub limit_or_all : ℕ → List ℕ → ℕ
limit_or_all limit tasks = if limit == 0 then length tasks else limit

unfoldable pub success_limit : Config → List ℕ → ℕ
success_limit c tasks = limit_or_all c.succeed_task_count tasks

unfoldable pub failure_limit : Config → List ℕ → ℕ
failure_limit c tasks = limit_or_all c.fail_task_count tasks

-- The decision after an update, if the limits allow one.
unfoldable pub decide_update : Config → List ℕ → ResultMap → Option TaskResult
unfolding success_limit failure_limit
decide_update c tasks m =
    if leb (success_limit c tasks) (count_results TaskResult.success m tasks)
    then some TaskResult.success
    else (if leb (failure_limit c tasks) (count_results TaskResult.failure m tasks)
        then some TaskResult.failure
        else none)

-- The decision when all children have completed.
unfoldable pub decide_complete : Bool → TaskResult
decide_complete fail_on_undecided =
    if fail_on_undecided then TaskResult.failure else TaskResult.success

pub data Message : Type 0 where
  cancelled complete : Message
  update : ℕ → TaskResult → Message

-- How the loop ends: by the error of the context, or with a result; or it still waits.
pub data Watch : Type 0 where
  aborted waiting : Watch
  decided : TaskResult → Watch

unfoldable pub watch_results : Config → List ℕ → ResultMap → List Message → Watch
unfolding decide_complete
watch_results c tasks m [] = waiting
watch_results c tasks m (cancelled ∷ ms) = aborted
watch_results c tasks m (complete ∷ ms) = decided (decide_complete c.fail_on_undecided)
watch_results c tasks m (update task r ∷ ms) =
    let m' = insert task r m in
    let rest = watch_results c tasks m' ms in
    elim (decide_update c tasks m') [ some result ↦ decided result | none ↦ rest ]

unfoldable pub execute_concurrent : Config → List ℕ → List Message → Watch
unfolding watch_results
execute_concurrent c tasks ms = watch_results c tasks [] ms

-- The matrix does not fail as undecided if it has no children.
unfoldable pub execute_matrix : Config → List ℕ → List Message → Watch
unfolding watch_results
execute_matrix c tasks ms =
    watch_results (record c { fail_on_undecided = c.fail_on_undecided && ltb 0 (length tasks) })
      tasks [] ms

-- The default configuration of run_tasks_concurrent.
abbrev pub default_config : Config
default_config = record { succeed_task_count = 0; fail_task_count = 1; fail_on_undecided = false }

-- Every child is counted once: as successful, failed or pending.
pub count_results_total :
    (m : ResultMap) (tasks : List ℕ)
    → count_results TaskResult.success m tasks
        + count_results TaskResult.failure m tasks
        + count_results TaskResult.none m tasks
      ≡ length tasks
unfolding count_results
count_results_total m [] = refl
count_results_total m (t ∷ tasks) = ground (arith, count_results_total m tasks)

-- The results that the updates of a sequence leave.
abbrev pub updates : ResultMap → List Message → ResultMap
updates m [] = m
updates m (update task r ∷ ms) = updates (insert task r m) ms
updates m (cancelled ∷ ms) = updates m ms
updates m (complete ∷ ms) = updates m ms

-- A sequence of updates alone.
abbrev pub AreUpdates : List Message → Type 0
AreUpdates [] = Unit
AreUpdates (update task r ∷ ms) = AreUpdates ms
AreUpdates (cancelled ∷ ms) = ⊥
AreUpdates (complete ∷ ms) = ⊥

-- While updates come in and the loop waits, no limit has been reached after the last of them.
watch_results_undecided :
    (c : Config) (tasks : List ℕ) (m : ResultMap) (ms : List Message)
    → AreUpdates ms
    → decide_update c tasks m ≡ none
    → watch_results c tasks m ms ≡ waiting
    → decide_update c tasks (updates m ms) ≡ none
unfolding watch_results
watch_results_undecided c tasks m [] u d w = d
watch_results_undecided c tasks m (update task r ∷ ms) u d w =
    elim (Option-cases (decide_update c tasks (insert task r m))) [
      | inl e ↦
          watch_results_undecided c tasks (insert task r m) ms u e (simp (e, watch_results) at w)
      | inr (x, e) ↦ absurd (cc (simp (e, watch_results) at w))
    ]
watch_results_undecided c tasks m (cancelled ∷ ms) u d w = elim u [ ]
watch_results_undecided c tasks m (complete ∷ ms) u d w = elim u [ ]

nothing_reported : (tasks : List ℕ) → count_results TaskResult.none [] tasks ≡ length tasks
unfolding count_results lookup
nothing_reported [] = refl
nothing_reported (t ∷ tasks) = ap suc (nothing_reported tasks)

-- With the default limits (all must succeed, one may not fail), once every child has reported a
-- success or a failure the task has been decided: it does not fall through to "undecided".
pub default_config-decided :
    (tasks : List ℕ) (ms : List Message)
    → AreUpdates ms
    → 0 < length tasks
    → count_results TaskResult.none (updates [] ms) tasks ≡ 0
    → execute_concurrent default_config tasks ms ≢ waiting
unfolding execute_concurrent decide_update
default_config-decided tasks ms u some_task all_reported w =
    let start : decide_update default_config tasks [] ≡ none =
      ground (arith, nothing_reported tasks, count_results_total [] tasks) in
    let open_end = watch_results_undecided default_config tasks [] ms u start w in
    ground (arith, open_end, count_results_total (updates [] ms) tasks)
