-- ===== src/Scheduler/Order.antt =====
-- The order in which RunTasks executes tasks (scheduler/scheduler.go RunTasks, runCleanupTasks).
use mathlib.Core.Path.{subst}
use assertoor.Scheduler.State.{Error, context_done, Env}
use assertoor.Scheduler.Tasks.{TaskScheduler}
use assertoor.Scheduler.Running.{
  TaskRun, Executed, execute_task, Plan, run_root_tasks, run_cleanup_tasks, run_tasks,
}
use assertoor.Prelude.{
  ℕ, ◌≡◌, refl, sym, ap, ◌≢◌, ◌⊎◌, inl, inr, Bool, true, false, none, some, List, [], ◌∷◌, ◌++◌,
  Bool-cases, Option-cases, All, nat_key, string_key,
}

-- The scheduler after the executions of some tasks, one after the other.
pub execute_all : Env → (ℕ → TaskRun) → List ℕ → TaskScheduler → TaskScheduler
execute_all env run_of [] s = s
execute_all env run_of (i ∷ is) s = execute_all env run_of is (execute_task env i (run_of i) s).0

-- Executions in order that all end without an error, and with the context not done after any.
abbrev pub AllSucceed : Env → Plan → List ℕ → TaskScheduler → Type 0
AllSucceed env plan [] s = Unit
AllSucceed env plan (i ∷ is) s =
    ((execute_task env i (plan.run_of i) s).1 ≡ none)
    × (plan.done_after i ≡ false)
    × AllSucceed env plan is (execute_task env i (plan.run_of i) s).0

-- How the root tasks end: all of them succeed, or those before some task do and that one does not.
pub EndsRoots : Env → Plan → List ℕ → TaskScheduler → Executed → Type 0
EndsRoots env plan is s r =
    (AllSucceed env plan is s × (r ≡ (execute_all env plan.run_of is s, none)))
    ⊎ ((pre : List ℕ) × (i : ℕ) × (post : List ℕ) × (is ≡ pre ++ i ∷ post)
        × AllSucceed env plan pre s
        × (r.0 ≡ (execute_task env i (plan.run_of i) (execute_all env plan.run_of pre s)).0)
        × (((execute_task env i (plan.run_of i) (execute_all env plan.run_of pre s)).1 ≡ r.1)
            ⊎ (((execute_task env i (plan.run_of i) (execute_all env plan.run_of pre s)).1 ≡ none)
                × (plan.done_after i ≡ true)
                × (r.1 ≡ some context_done)))
        × (r.1 ≢ none))

run_root_tasks-failed :
    (env : Env) (plan : Plan) (i : ℕ) (is : List ℕ) (s : TaskScheduler) (e : Error)
    → (execute_task env i (plan.run_of i) s).1 ≡ some e
    → run_root_tasks env plan (i ∷ is) s ≡ ((execute_task env i (plan.run_of i) s).0, some e)
unfolding run_root_tasks
run_root_tasks-failed env plan i is s e bad = rw (bad, run_root_tasks)

run_root_tasks-cancelled :
    (env : Env) (plan : Plan) (i : ℕ) (is : List ℕ) (s : TaskScheduler)
    → (execute_task env i (plan.run_of i) s).1 ≡ none
    → plan.done_after i ≡ true
    → run_root_tasks env plan (i ∷ is) s
      ≡ ((execute_task env i (plan.run_of i) s).0, some context_done)
unfolding run_root_tasks
run_root_tasks-cancelled env plan i is s ok done = rw (ok, run_root_tasks) (rw done)

run_root_tasks-next :
    (env : Env) (plan : Plan) (i : ℕ) (is : List ℕ) (s : TaskScheduler)
    → (execute_task env i (plan.run_of i) s).1 ≡ none
    → plan.done_after i ≡ false
    → run_root_tasks env plan (i ∷ is) s
      ≡ run_root_tasks env plan is (execute_task env i (plan.run_of i) s).0
unfolding run_root_tasks
run_root_tasks-next env plan i is s ok more = rw (ok, run_root_tasks) (rw more)

run_root_tasks-EndsRoots :
    (env : Env) (plan : Plan) (is : List ℕ) (s : TaskScheduler)
    → EndsRoots env plan is s (run_root_tasks env plan is s)
unfolding run_root_tasks execute_all EndsRoots
run_root_tasks-EndsRoots env plan [] s = inl (tt, refl)
run_root_tasks-EndsRoots env plan (i ∷ is) s =
    let goal = EndsRoots env plan (i ∷ is) s in
    elim (Option-cases (execute_task env i (plan.run_of i) s).1) [
      | inr (e, bad) ↦
          subst goal (sym (run_root_tasks-failed env plan i is s e bad))
            (inr ([], i, is, refl, tt, refl, inl bad, λ n. cc))
      | inl ok ↦ elim (Bool-cases (plan.done_after i)) [
        | inl done ↦
            subst goal (sym (run_root_tasks-cancelled env plan i is s ok done))
              (inr ([], i, is, refl, tt, refl, inr (ok, done, refl), λ n. cc))
        | inr more ↦
            subst goal (sym (run_root_tasks-next env plan i is s ok more))
              (elim (run_root_tasks-EndsRoots env plan is
                (execute_task env i (plan.run_of i) s).0) [
                  | inl (all, eq) ↦ inl ((ok, more, all), eq)
                  | inr (pre, j, post, split, all, at, why, bad) ↦
                      inr (i ∷ pre, j, post, ap (◌∷◌ i) split, (ok, more, all), at, why, bad)
                ])
      ]
    ]

-- The cleanup tasks are executed in order, whatever their errors, up to the first before which the
-- context is done.
pub EndsCleanup : Env → (ℕ → Bool) → (ℕ → TaskRun) → List ℕ → TaskScheduler → TaskScheduler → Type 0
EndsCleanup env done run_of is s s' =
    (pre : List ℕ) × (post : List ℕ) × (is ≡ pre ++ post)
    × All (λ i. done i ≡ false) pre
    × ((post ≡ []) ⊎ ((i : ℕ) × (rest : List ℕ) × (post ≡ i ∷ rest) × (done i ≡ true)))
    × (s' ≡ execute_all env run_of pre s)

run_cleanup_tasks-EndsCleanup :
    (env : Env) (done : ℕ → Bool) (run_of : ℕ → TaskRun) (is : List ℕ) (s : TaskScheduler)
    → EndsCleanup env done run_of is s (run_cleanup_tasks env done run_of is s)
unfolding run_cleanup_tasks execute_all EndsCleanup
run_cleanup_tasks-EndsCleanup env done run_of [] s = ([], [], refl, tt, inl refl, refl)
run_cleanup_tasks-EndsCleanup env done run_of (i ∷ is) s = elim (Bool-cases (done i)) [
  | inl stop ↦ ([], i ∷ is, refl, tt, inr (i, is, refl, stop), rw stop)
  | inr go ↦
      let (pre, post, split, all, end, eq) =
        run_cleanup_tasks-EndsCleanup env done run_of is (execute_task env i (run_of i) s).0 in
      (i ∷ pre, post, ap (◌∷◌ i) split, (go, all), end, rw go eq)
]

-- RunTasks executes the root tasks in order up to the first that does not succeed, by its error or
-- since the context is done after it, and returns that error, or none if all succeed. However they
-- end, it then executes the cleanup tasks in order, whatever their errors, up to the first before
-- which their context is done.
pub run_tasks-EndsCleanup :
    (env : Env) (plan : Plan) (done : ℕ → Bool) (run_of : ℕ → TaskRun) (s : TaskScheduler)
    → let r = run_tasks env plan done run_of s in
      (roots : Executed) × EndsRoots env plan s.root_tasks s roots
      × EndsCleanup env done run_of roots.0.root_cleanup_tasks roots.0 r.0
      × (r.1 ≡ roots.1)
unfolding run_tasks
run_tasks-EndsCleanup env plan done run_of s =
    let roots = run_root_tasks env plan s.root_tasks s in
    (
      roots,
      run_root_tasks-EndsRoots env plan s.root_tasks s,
      run_cleanup_tasks-EndsCleanup env done run_of roots.0.root_cleanup_tasks roots.0,
      refl,
    )
