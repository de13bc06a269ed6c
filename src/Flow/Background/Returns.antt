-- ===== src/Flow/Background/Returns.antt =====
-- The task returns once its foreground task has ended (tasks/run_task_background/task.go).
use assertoor.Prelude.{
  ℕ, ◌+◌, ◌≤◌, ◌<◌, ◌≡◌, refl, ◌⊎◌, inl, inr, Bool, true, false, ◌||◌, Option, none, some, List, [],
  ◌∷◌, ◌++◌, arith, ltb, Bool-cases, Option-cases, length, take, length-append, nat_key, string_key,
}
use assertoor.Types.{TaskResult}
use assertoor.Scheduler.State.{Error}
use assertoor.Flow.Background.{
  Config, Completion, Background, start, complete_with_result, background_completion,
  exec_background_task, foreground_completion, exec_foreground_task, watch_task_result,
  stop_watching, receive, drop_chan, cancel, returned, Event, background_ends, foreground_ends,
  foreground_result, watcher_stops, receives, drops, cancels, parent_cancels, step, run,
}
use assertoor.Flow.Background.Justified.{list-cases, receive-cases, background-cases, watch-cases}

abbrev one_if : Bool → ℕ
one_if true = 1
one_if false = 0

abbrev has : Option Completion → Bool
has none = false
has (some c) = true

-- What was sent and who may still send; `Execute` has received, or can, once the foreground task has
-- ended; the channel is dropped only after that.
abbrev IsLive : Background → Type 0
IsLive s =
    (length s.result_chan + one_if s.background_runs + one_if s.foreground_runs + one_if s.watches
      ≤ 3)
    × ((s.foreground_runs || has s.received || ltb 0 (length s.result_chan)) ≡ true)
    × ((s.is_open || has s.received) ≡ true)

complete-cases :
    (x : Completion) (s : Background)
    → (complete_with_result x s ≡ record s { result_chan = s.result_chan ++ x ∷ [] })
      ⊎ ((complete_with_result x s ≡ s) × (s.is_open ≡ false))
unfolding complete_with_result
complete-cases x s = ground arith

-- A sender that ends may send once.
complete-IsLive :
    (x : Completion) (s : Background)
    → length s.result_chan + one_if s.background_runs + one_if s.foreground_runs + one_if s.watches
      < 3
    → (s.is_open || has s.received) ≡ true
    → IsLive (complete_with_result x s)
complete-IsLive x s less held = elim (complete-cases x s) [
  | inl sent ↦
      let size : length (s.result_chan ++ x ∷ []) ≡ length s.result_chan + 1 =
        length-append s.result_chan (x ∷ []) in
      rw sent (omega (arith, size), ground (arith, size), held)
  | inr (same, dropped) ↦ rw same (omega arith, ground arith, held)
]

background-IsLive :
    (c : Config) (result : TaskResult) (s : Background)
    → IsLive s
    → IsLive (exec_background_task c result s)
background-IsLive c result s (few, live, held) = elim (background-cases c result s) [
  | inl same ↦ rw same (few, live, held)
  | inr (inl ended) ↦ rw ended (ground arith, live, held)
  | inr (inr (ran, new)) ↦
      let ended : Background = record s { background_runs = false } in
      elim (Option-cases (background_completion c result)) [
        | inl nothing ↦ rw (new, nothing) (ground arith, live, held)
        | inr (x, asked) ↦ rw (new, asked) (complete-IsLive x ended (ground arith) held)
      ]
]

foreground-IsLive :
    (result : TaskResult) (err : Option Error) (s : Background)
    → IsLive s
    → IsLive (exec_foreground_task result err s)
unfolding exec_foreground_task
foreground-IsLive result err s (few, live, held) = elim (Bool-cases s.foreground_runs) [
  | inl runs ↦ rw runs (
      complete-IsLive (foreground_completion result err) (record s { foreground_runs = false })
        (ground arith) held)
  | inr ended ↦
      let same : exec_foreground_task result err s ≡ s = ground arith in rw same (few, live, held)
]

watch-IsLive :
    (c : Config) (result : TaskResult) (err : Option Error) (s : Background)
    → IsLive s
    → IsLive (watch_task_result c result err s)
watch-IsLive c result err s (few, live, held) =
    let left : Background = record s { current_result = result; watches = false } in
    elim (watch-cases c result err s) [
      | inl same ↦ rw same (few, live, held)
      | inr (inl goes) ↦ rw goes (few, live, held)
      | inr (inr (inl (watched, exits, is_success, new))) ↦
          rw new (complete-IsLive _ left (ground arith) held)
      | inr (inr (inr (watched, exits, is_failure, new))) ↦
          rw new (complete-IsLive _ left (ground arith) held)
    ]

receive-IsLive : (s : Background) → IsLive s → IsLive (receive s)
receive-IsLive s (few, live, held) = elim (receive-cases s) [
  | inl same ↦ rw same (few, live, held)
  | inr (c, rest, first, new) ↦ rw new (ground arith, ground arith, ground arith)
]

step-IsLive : (c : Config) (e : Event) (s : Background) → IsLive s → IsLive (step c e s)
unfolding step stop_watching drop_chan cancel
step-IsLive c (background_ends result) s h = background-IsLive c result s h
step-IsLive c (foreground_ends result err) s h = foreground-IsLive result err s h
step-IsLive c (foreground_result result err) s h = watch-IsLive c result err s h
step-IsLive c watcher_stops s (few, live, held) = ground arith
step-IsLive c receives s h = receive-IsLive s h
step-IsLive c drops s (few, live, held) = ground arith
step-IsLive c cancels s (few, live, held) = ground arith
step-IsLive c parent_cancels s h = h

run-IsLive : (c : Config) (es : List Event) (s : Background) → IsLive s → IsLive (run c es s)
unfolding run
run-IsLive c [] s h = h
run-IsLive c (e ∷ es) s h = run-IsLive c es (step c e s) (step-IsLive c e s h)

-- What `Execute` does after a completion was received.
ends_with :
    (s : Background) (done : Completion)
    → s.received ≡ some done
    → s.foreground_runs ≡ false
    → returned (cancel (drop_chan s)) ≡ some done
unfolding returned drop_chan cancel
ends_with s done got ended = ground arith

ends :
    (s : Background)
    → IsLive s
    → s.foreground_runs ≡ false
    → (done : Completion) × (returned (cancel (drop_chan (receive s))) ≡ some done)
unfolding receive
ends s (few, live, held) ended = elim (Option-cases s.received) [
  | inr (done, got) ↦
      let same : receive s ≡ s = ground arith in (done, rw same (ends_with s done got ended))
  | inl nothing ↦ elim (list-cases s.result_chan) [
    | inl empty ↦ absurd (ground arith)
    | inr (done, rest, first) ↦
        let next : Background = record s {
          result_chan = rest;
          received = some done;
          set_results = done.result ∷ s.set_results;
        } in
        let new : receive s ≡ next = ground arith in (done, rw new (ends_with next done refl ended))
  ]
]

-- Whatever the order of the events after which the foreground task has ended: after each of them at
-- most three completions stand in the channel of ten, so that no sender blocks; and at the end
-- `Execute` receives a completion (or has received one), drops the channel, cancels and returns it.
pub run-returns :
    (c : Config) (has_background : Bool) (es : List Event)
    → (run c es (start has_background)).foreground_runs ≡ false
    → let s = run c es (start has_background) in
      ((k : ℕ) → length (run c (take k es) (start has_background)).result_chan ≤ 3)
      × ((done : Completion) × (returned (cancel (drop_chan (receive s))) ≡ some done))
unfolding start
run-returns c has_background es ended =
    let live = run-IsLive c es (start has_background) (ground arith) in
    ((λ k. in_channel (take k es)), ends (run c es (start has_background)) live ended)
  where
    in_channel :
        (some_events : List Event)
        → length (run c some_events (start has_background)).result_chan ≤ 3
    in_channel some_events =
        let (few, live, held) = run-IsLive c some_events (start has_background) (ground arith) in
        omega (arith, few)
