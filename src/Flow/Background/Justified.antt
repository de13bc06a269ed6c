-- ===== src/Flow/Background/Justified.antt =====
-- Why the task ends as it does (tasks/run_task_background/task.go).
use text.Mathlib.TextEquality.{eq_iff}
use assertoor.Prelude.{
  ◌≡◌, refl, sym, ap, ◌∙◌, ◌⊎◌, inl, inr, Bool, true, false, not, ◌||◌, Option, none, some, List,
  [], ◌∷◌, ◌++◌, arith, Bool-cases, Option-cases, nat_key, string_key,
}
use assertoor.Types.{TaskResult, result_eq}
use assertoor.Scheduler.State.{Error}
use assertoor.Flow.Background.{
  Config, background_completed, background_failed, Completion, Background, start,
  complete_with_result, background_completion, complete_some, exec_background_task,
  foreground_completion, exec_foreground_task, watch_task_result, stop_watching, receive, drop_chan,
  cancel, returned, Event, background_ends, foreground_ends, foreground_result, watcher_stops,
  receives, drops, cancels, parent_cancels, step, run,
}

-- An event that the configuration makes the end of the task, with the completion.
abbrev IsReason : Config → Event → Completion → Type 0
IsReason c (background_ends result) done =
    ((c.on_background_complete ≡ "fail")
      × (done ≡ record { result = TaskResult.failure; err = some background_completed }))
    ⊎ (((c.on_background_complete ≡ "success") ⊎ (c.on_background_complete ≡ "succeed"))
        × (done ≡ record { result = TaskResult.success; err = none }))
    ⊎ ((c.on_background_complete ≡ "failOrIgnore")
        × (result ≡ TaskResult.failure)
        × (done ≡ record { result = TaskResult.failure; err = some background_failed }))
IsReason c (foreground_ends result err) done = done ≡ foreground_completion result err
IsReason c (foreground_result result err) done =
    ((c.exit_on_foreground_success ≡ true)
      × (result ≡ TaskResult.success)
      × (done ≡ record { result = TaskResult.success; err = none }))
    ⊎ ((c.exit_on_foreground_failure ≡ true)
        × (result ≡ TaskResult.failure)
        × (done ≡ foreground_completion TaskResult.failure err))
IsReason c watcher_stops done = ⊥
IsReason c receives done = ⊥
IsReason c drops done = ⊥
IsReason c cancels done = ⊥
IsReason c parent_cancels done = ⊥

-- One of the events is the reason.
abbrev pub IsJustified : Config → List Event → Completion → Type 0
IsJustified c [] done = ⊥
IsJustified c (e ∷ es) done = IsReason c e done ⊎ IsJustified c es done

abbrev IsIn : Completion → List Completion → Type 0
IsIn done [] = ⊥
IsIn done (x ∷ xs) = (x ≡ done) ⊎ IsIn done xs

-- The completion was sent.
abbrev IsSent : Completion → Background → Type 0
IsSent done s = IsIn done s.result_chan ⊎ (s.received ≡ some done)

none_some : (a : Completion) → none ≡ some a → ⊥
none_some a e = cc

one_done : (a b : Completion) → some a ≡ some b → a ≡ b
one_done a b e = cc

IsIn-append :
    (done x : Completion) (xs : List Completion)
    → IsIn done (xs ++ x ∷ [])
    → IsIn done xs ⊎ (x ≡ done)
IsIn-append done x [] (inl e) = inr e
IsIn-append done x [] (inr none_left) = absurd none_left
IsIn-append done x (y ∷ xs) (inl e) = inl (inl e)
IsIn-append done x (y ∷ xs) (inr h) = elim (IsIn-append done x xs h) [
  | inl before ↦ inl (inr before)
  | inr e ↦ inr e
]

complete-IsSent :
    (done x : Completion) (s : Background)
    → IsSent done (complete_with_result x s)
    → IsSent done s ⊎ (x ≡ done)
unfolding complete_with_result
complete-IsSent done x s h = elim (Bool-cases s.is_open) [
  | inl still ↦ elim (rw still at h) [
    | inl sent ↦ elim (IsIn-append done x s.result_chan sent) [
      | inl before ↦ inl (inl before)
      | inr e ↦ inr e
    ]
    | inr got ↦ inl (inr got)
  ]
  | inr dropped ↦ inl (rw dropped at h)
]

result_eq_lem : (a b : TaskResult) → result_eq a b ≡ true → a ≡ b
result_eq_lem TaskResult.none TaskResult.none e = refl
result_eq_lem TaskResult.success TaskResult.success e = refl
result_eq_lem TaskResult.failure TaskResult.failure e = refl
result_eq_lem TaskResult.none TaskResult.success e = cc
result_eq_lem TaskResult.none TaskResult.failure e = cc
result_eq_lem TaskResult.success TaskResult.none e = cc
result_eq_lem TaskResult.success TaskResult.failure e = cc
result_eq_lem TaskResult.failure TaskResult.none e = cc
result_eq_lem TaskResult.failure TaskResult.success e = cc

background-IsReason :
    (c : Config) (result : TaskResult) (done : Completion)
    → background_completion c result ≡ some done
    → IsReason c (background_ends result) done
unfolding background_completion
background-IsReason c result done e = ground (
  arith,
  eq_iff c.on_background_complete "fail",
  eq_iff c.on_background_complete "success",
  eq_iff c.on_background_complete "succeed",
  eq_iff c.on_background_complete "failOrIgnore",
  result_eq_lem result TaskResult.failure,
)

pub list-cases {ℓ} :
    {A : Type ℓ} (xs : List A) → (xs ≡ []) ⊎ ((x : A) × (rest : List A) × (xs ≡ x ∷ rest))
list-cases [] = inl refl
list-cases (x ∷ rest) = inr (x, rest, refl)

-- `Execute` has received already, finds nothing to receive, or receives the first completion.
pub receive-cases :
    (s : Background)
    → (receive s ≡ s)
      ⊎ ((c : Completion) × (rest : List Completion) × (s.result_chan ≡ c ∷ rest)
          × (receive s ≡ record s {
            result_chan = rest;
            received = some c;
            set_results = c.result ∷ s.set_results;
          }))
unfolding receive
receive-cases s = elim (Option-cases s.received) [
  | inr (c, got) ↦ inl (ground arith)
  | inl nothing ↦ elim (list-cases s.result_chan) [
    | inl empty ↦ inl (ground arith)
    | inr (c, rest, first) ↦ inr (c, rest, first, ground arith)
  ]
]

receive-IsSent : (s : Background) (done : Completion) → IsSent done (receive s) → IsSent done s
receive-IsSent s done h = elim (receive-cases s) [
  | inl same ↦ rw same at h
  | inr (c, rest, first, new) ↦ elim (rw new at h) [
    | inl later ↦ rw first (inl (inr later))
    | inr got ↦ rw first (inl (inl (one_done c done got)))
  ]
]

pub background-cases :
    (c : Config) (result : TaskResult) (s : Background)
    → (exec_background_task c result s ≡ s)
      ⊎ ((exec_background_task c result s ≡ record s { background_runs = false }))
      ⊎ ((s.background_runs ≡ true)
          × (exec_background_task c result s
              ≡ complete_some
                  (background_completion c result)
                  (record s { background_runs = false })))
unfolding exec_background_task
background-cases c result s = ground arith

background-IsSent :
    (c : Config) (result : TaskResult) (s : Background) (done : Completion)
    → IsSent done (exec_background_task c result s)
    → IsSent done s ⊎ IsReason c (background_ends result) done
background-IsSent c result s done h = elim (background-cases c result s) [
  | inl same ↦ inl (rw same at h)
  | inr (inl ended) ↦ inl (rw ended at h)
  | inr (inr (ran, new)) ↦ elim (Option-cases (background_completion c result)) [
    | inl nothing ↦ inl (rw (new, nothing) at h)
    | inr (x, asked) ↦
        elim (complete-IsSent done x (record s { background_runs = false })
          (rw (new, asked) at h)) [
            | inl before ↦ inl before
            | inr e ↦ inr (background-IsReason c result done (asked ∙ ap some e))
          ]
  ]
]

-- The watcher does nothing, asks for the end of the task, or goes on.
pub watch-cases :
    (c : Config) (result : TaskResult) (err : Option Error) (s : Background)
    → let v = watch_task_result c result err s in
      let left = record s { current_result = result; watches = false } in
      (v ≡ s)
      ⊎ ((v ≡ record s { current_result = result; set_results = result ∷ s.set_results }))
      ⊎ ((s.watches ≡ true)
          × (c.exit_on_foreground_success ≡ true)
          × (result_eq result TaskResult.success ≡ true)
          × (v ≡ complete_with_result (record { result = TaskResult.success; err = none }) left))
      ⊎ ((s.watches ≡ true)
          × (c.exit_on_foreground_failure ≡ true)
          × (result_eq result TaskResult.failure ≡ true)
          × (v ≡ complete_with_result (foreground_completion TaskResult.failure err) left))
unfolding watch_task_result
watch-cases c result err s = ground arith

watch-IsSent :
    (c : Config) (result : TaskResult) (err : Option Error) (s : Background) (done : Completion)
    → IsSent done (watch_task_result c result err s)
    → IsSent done s ⊎ IsReason c (foreground_result result err) done
watch-IsSent c result err s done h = elim (watch-cases c result err s) [
  | inl same ↦ inl (rw same at h)
  | inr (inl goes) ↦ inl (rw goes at h)
  | inr (inr (inl (watched, exits, is_success, new))) ↦
      elim (complete-IsSent done _ _ (rw new at h)) [
        | inl before ↦ inl before
        | inr e ↦ inr (inl (exits, result_eq_lem result TaskResult.success is_success, sym e))
      ]
  | inr (inr (inr (watched, exits, is_failure, new))) ↦
      elim (complete-IsSent done _ _ (rw new at h)) [
        | inl before ↦ inl before
        | inr e ↦ inr (inr (exits, result_eq_lem result TaskResult.failure is_failure, sym e))
      ]
]

step-IsSent :
    (c : Config) (e : Event) (s : Background) (done : Completion)
    → IsSent done (step c e s)
    → IsSent done s ⊎ IsReason c e done
unfolding step exec_background_task exec_foreground_task watch_task_result stop_watching receive
    drop_chan cancel
step-IsSent c (background_ends result) s done h = background-IsSent c result s done h
step-IsSent c (foreground_ends result err) s done h = elim (Bool-cases s.foreground_runs) [
  | inl runs ↦ elim (complete-IsSent done (foreground_completion result err) _ (rw runs at h)) [
    | inl before ↦ inl before
    | inr e ↦ inr (sym e)
  ]
  | inr ended ↦ inl (rw ended at h)
]
step-IsSent c (foreground_result result err) s done h = watch-IsSent c result err s done h
step-IsSent c watcher_stops s done h = elim (Bool-cases (s.is_cancelled || not s.foreground_runs)) [
  | inl stops ↦ inl (rw stops at h)
  | inr goes ↦ inl (rw goes at h)
]
step-IsSent c receives s done h = inl (receive-IsSent s done h)
step-IsSent c drops s done h = elim (Option-cases s.received) [
  | inl waits ↦ let same : drop_chan s ≡ s = ground arith in inl (rw same at h)
  | inr (x, got) ↦
      let closed : drop_chan s ≡ record s { is_open = false } = ground arith in inl (rw closed at h)
]
step-IsSent c cancels s done h = elim (Bool-cases s.is_open) [
  | inl still ↦ inl (rw still at h)
  | inr dropped ↦ inl (rw dropped at h)
]
step-IsSent c parent_cancels s done h = inl h

run-IsSent :
    (c : Config) (es : List Event) (s : Background) (done : Completion)
    → IsSent done (run c es s)
    → IsSent done s ⊎ IsJustified c es done
unfolding run
run-IsSent c [] s done h = inl h
run-IsSent c (e ∷ es) s done h = elim (run-IsSent c es (step c e s) done h) [
  | inl sent ↦ elim (step-IsSent c e s done sent) [
    | inl before ↦ inl before
    | inr reason ↦ inr (inl reason)
  ]
  | inr later ↦ inr (inr later)
]

-- Whatever the order of the events, the completion that `Execute` received by its return, with the
-- result that it sets on the task on receiving it and the error that it returns, has a reason among
-- them: the end of the background task where `onBackgroundComplete` asks for it, a result of the
-- foreground task that the task is to exit on, or the end of the foreground task. (The watcher may
-- set another result on the task after that.)
pub run-IsJustified :
    (c : Config) (has_background : Bool) (es : List Event) (done : Completion)
    → returned (run c es (start has_background)) ≡ some done
    → IsJustified c es done
unfolding returned start
run-IsJustified c has_background es done e =
    let s = run c es (start has_background) in
    let got : s.received ≡ some done = ground arith in
    elim (run-IsSent c es (start has_background) done (inr got)) [
      | inl (inl nothing) ↦ absurd nothing
      | inl (inr never) ↦ absurd (none_some done never)
      | inr reason ↦ reason
    ]
