-- ===== src/Flow/Sequential.antt =====
-- tasks/run_tasks/task.go: child tasks one after the other. The scheduler's `ExecuteTask` is seen by
-- the error that it returns for each child.
use assertoor.Prelude.{
  ℕ, suc, ◌+◌, ◌≡◌, refl, ap, ◌⊎◌, inl, inr, Bool, true, false, not, Option, none, some, List, [],
  ◌∷◌, arith, if◌then◌else◌, length, get_elem?, nat_key, string_key,
}
use assertoor.Scheduler.State.{Error}

pub record Config : Type 0 where
  pub stop_child_on_result : Bool
  pub expect_failure : Bool
  pub continue_on_failure : Bool
  pub new_variable_scope : Bool

-- The error of `Execute`: which child it is about (from 1) and, for a failed child, its error.
pub data RunError : Type 0 where
  should_have_failed : ℕ → RunError
  child_failed : ℕ → Error → RunError

-- One round of the loop: whether it ends the task, given the error of child `i`.
unfoldable pub check_child : Config → ℕ → Option Error → Option RunError
check_child c i err =
    if c.expect_failure
    then (elim err [ none ↦ some (should_have_failed i) | some e ↦ none ])
    else (if c.continue_on_failure
        then none
        else (elim err [ none ↦ none | some e ↦ some (child_failed i e) ]))

-- The children's errors in order; the rest is not run once the task has ended. The error, and how
-- many children were run.
unfoldable pub execute_from : Config → ℕ → List (Option Error) → Option RunError × ℕ
execute_from c i [] = (none, 0)
execute_from c i (err ∷ errs) =
    let (end, ran) = execute_from c (i + 1) errs in
    elim (check_child c i err) [ some e ↦ (some e, 1) | none ↦ (end, suc ran) ]

unfoldable pub execute : Config → List (Option Error) → Option RunError × ℕ
unfolding execute_from
execute c errs = execute_from c 1 errs

-- The scope of the children, as `LoadConfig` chooses it: it asks the configuration that the task
-- object still has, which is the zero value, and not the one that it has just read.
abbrev zero_config : Config
zero_config = record {
  stop_child_on_result = false;
  expect_failure = false;
  continue_on_failure = false;
  new_variable_scope = false;
}

-- A task object before `LoadConfig`, and the choice of a new scope in it.
unfoldable pub uses_new_scope : (task_config loaded : Config) → Bool
uses_new_scope task_config loaded = task_config.new_variable_scope

unfoldable pub load_config : Config → Config × Bool
unfolding uses_new_scope
load_config loaded = (loaded, uses_new_scope zero_config loaded)

abbrev failed : Option Error → Bool
failed none = false
failed (some e) = true

-- The child that a task is to stop at: the first one to succeed where failures are expected, none
-- where they are tolerated, and the first one to fail otherwise.
abbrev pub stops_at : Config → Option Error → Bool
stops_at c err =
    if c.expect_failure
    then not (failed err)
    else (if c.continue_on_failure then false else failed err)

-- How many children come before the first that stops the task.
abbrev pub before_stop : Config → List (Option Error) → ℕ
before_stop c [] = 0
before_stop c (err ∷ errs) = let n = before_stop c errs in if stops_at c err then 0 else suc n

-- The error for the child of a number that stops the task: it succeeded where a failure is expected,
-- or it failed with the error given.
abbrev pub IsErrorOf : Config → ℕ → Option Error → Option RunError → Type 0
IsErrorOf c number err end =
    ((c.expect_failure ≡ true) × (err ≡ none) × (end ≡ some (should_have_failed number)))
    ⊎ ((e : Error) × (c.expect_failure ≡ false)
        × (err ≡ some e)
        × (end ≡ some (child_failed number e)))

-- Where the loop ends: after all children with no error, or at the first child that stops it.
abbrev pub Ends : Config → ℕ → List (Option Error) → Option RunError × ℕ → Type 0
Ends c i errs r =
    ((before_stop c errs ≡ length errs) × (r.0 ≡ none) × (r.1 ≡ length errs))
    ⊎ ((err : Option Error) × (get_elem? errs (before_stop c errs) ≡ some err)
        × IsErrorOf c (i + before_stop c errs) err r.0
        × (r.1 ≡ suc (before_stop c errs)))

check_child-stops :
    (c : Config) (i : ℕ) (err : Option Error)
    → ((stops_at c err ≡ true) × IsErrorOf c i err (check_child c i err))
      ⊎ ((stops_at c err ≡ false) × (check_child c i err ≡ none))
unfolding check_child
check_child-stops c i none = ground arith
check_child-stops c i (some e) = ground arith

execute_from-Ends :
    (c : Config) (i : ℕ) (errs : List (Option Error)) → Ends c i errs (execute_from c i errs)
unfolding execute_from
execute_from-Ends c i [] = inl (refl, refl, refl)
execute_from-Ends c i (err ∷ errs) = elim (check_child-stops c i err) [
  | inl (stop, bad) ↦
      let at : i + 0 ≡ i = omega arith in
      elim bad [
        | inl (wants, fine, e) ↦
            rw (stop, e, at, execute_from) (inr (err, refl, inl (wants, fine, refl), refl))
        | inr (x, plain, failing, e) ↦
            rw (stop, e, at, execute_from) (inr (err, refl, inr (x, plain, failing, refl), refl))
      ]
  | inr (go, ok) ↦
      let at : i + suc (before_stop c errs) ≡ i + 1 + before_stop c errs = omega arith in
      rw (go, ok, at, execute_from)
        (elim (execute_from-Ends c (i + 1) errs) [
          | inl (all, e, n) ↦ inl (ap suc all, e, ap suc n)
          | inr (x, here, e, n) ↦ inr (x, here, e, ap suc n)
        ])
]

-- The task runs its children up to the first that stops it: the first to succeed where failures are
-- expected (the error is then that it should have failed), none where they are tolerated, and the
-- first to fail otherwise (the error is then that child's). The error has the child's number,
-- counted from 1. If no child stops the task, it runs them all and returns no error.
pub execute-Ends : (c : Config) (errs : List (Option Error)) → Ends c 1 errs (execute c errs)
unfolding execute
execute-Ends c errs = execute_from-Ends c 1 errs
