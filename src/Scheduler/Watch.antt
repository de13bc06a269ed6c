-- ===== src/Scheduler/Watch.antt =====
-- Waiting for a result: the update channel of a task (scheduler/task_state.go
-- GetTaskResultUpdateChan and setTaskResult). Calls of the first that overlap are in Watch.Overlap.
pub mod Overlap
use assertoor.Prelude.{
  ℕ, zero, suc, ◌≡◌, ◌≢◌, ◌⊎◌, inl, inr, Bool, true, Option, none, some, List, [], ◌∷◌, arith, ◌==◌,
  anyb, nat_key, string_key,
}
use assertoor.Types.{TaskResult}
use assertoor.Scheduler.State.{TaskState, Env}
use assertoor.Scheduler.Database.{update_task_state}
use assertoor.Scheduler.Execution.{
  set_task_result, get_task_result_update_chan, begin_task, init_task, load_task, time_out_task,
  complete_task,
}
use assertoor.Scheduler.Lifecycle.{
  Stage, Step, set_result, poll, begin, init, load, time_out, complete, Reach, here, next,
}

abbrev pub is_closed : ℕ → List ℕ → Bool
is_closed ch = anyb (λ c. c == ch)

-- A goroutine waits on `ch` for a result other than `old`: the channel is still the one that the
-- next change closes, or it has been closed.
abbrev pub IsWatched : ℕ → TaskResult → TaskState → Type 0
IsWatched ch old t =
    ((t.task_result ≡ old) × (t.result_notify_chan ≡ some ch))
    ⊎ (is_closed ch t.closed_chans ≡ true)

Step-IsWatched :
    {env : Env} {at to : Stage} {t u : TaskState} (ch : ℕ) (old : TaskResult)
    → Step env at t to u
    → IsWatched ch old t
    → IsWatched ch old u
unfolding set_task_result get_task_result_update_chan begin_task init_task load_task time_out_task
    complete_task update_task_state
Step-IsWatched ch old (set_result r up at t w) v = ground arith
Step-IsWatched ch old (poll old' at t) v = ground arith
Step-IsWatched ch old (begin now later cond at t w) v = ground arith
Step-IsWatched ch old (init now none at t w e) v = v
Step-IsWatched ch old (init now (some err) at t w e) v = v
Step-IsWatched ch old (load now config at t w e) v = ground arith
Step-IsWatched ch old (time_out at t w e) v = v
Step-IsWatched ch old (complete now outcome at t w e) v = ground arith

Reach-IsWatched :
    {env : Env} {from : Stage} {s : TaskState} {at : Stage} {t : TaskState} (ch : ℕ)
    (old : TaskResult)
    → Reach env from s at t
    → IsWatched ch old s
    → IsWatched ch old t
Reach-IsWatched ch old here v = v
Reach-IsWatched ch old (next r st) v = Step-IsWatched ch old st (Reach-IsWatched ch old r v)

-- No wake-up is lost where the calls of `GetTaskResultUpdateChan` on a task do not overlap: a watcher
-- that holds the result `old` gets a channel only while the result is `old`, and whenever the result
-- is no longer `old`, after any actions in any order, each of them one step, that channel has been
-- closed.
pub poll-Reach_closed :
    {env : Env} {from at : Stage} (old : TaskResult) (s t : TaskState) (ch : ℕ)
    → Reach env from (get_task_result_update_chan old s).0 at t
    → (get_task_result_update_chan old s).1 ≡ some ch
    → t.task_result ≢ old
    → (s.task_result ≡ old) × (is_closed ch t.closed_chans ≡ true)
unfolding get_task_result_update_chan
poll-Reach_closed old s t ch r got changed =
    let watched : IsWatched ch old (get_task_result_update_chan old s).0 = ground arith in
    (
      ground arith,
      (elim (Reach-IsWatched ch old r watched) [
        | inl (same, _) ↦ absurd (changed same)
        | inr closed ↦ closed
      ]),
    )

-- The channels n - 1, …, 0.
unfoldable pub down : ℕ → List ℕ
down zero = []
down (suc n) = n ∷ down n

abbrev OpenOrClosed : Option ℕ → List ℕ → ℕ → Type 0
OpenOrClosed none closed n = closed ≡ down n
OpenOrClosed (some ch) closed n = (n ≡ suc ch) × (closed ≡ down ch)

-- All channels made are closed, but perhaps the last one, which is then the open one: none is
-- closed twice, and the open one has not been closed.
abbrev pub HasChans : TaskState → Type 0
HasChans t = OpenOrClosed t.result_notify_chan t.closed_chans t.chan_count

closes : (ch n : ℕ) (cs : List ℕ) → n ≡ suc ch → cs ≡ down ch → ch ∷ cs ≡ down n
unfolding down
closes ch n cs e c = rw (e, c)

Step-HasChans :
    {env : Env} {at to : Stage} {t u : TaskState} → Step env at t to u → HasChans t → HasChans u
unfolding set_task_result get_task_result_update_chan begin_task init_task load_task time_out_task
    complete_task update_task_state
Step-HasChans (set_result r up at t w) v = grind (arith, closes)
Step-HasChans (poll old at t) v = ground arith
Step-HasChans (begin now later cond at t w) v = grind (arith, closes)
Step-HasChans (init now none at t w e) v = v
Step-HasChans (init now (some err) at t w e) v = v
Step-HasChans (load now config at t w e) v = grind (arith, closes)
Step-HasChans (time_out at t w e) v = v
Step-HasChans (complete now outcome at t w e) v = grind (arith, closes)

-- If the closed channels of a task are all those made, each once, but for the open one, as they are
-- when none has been made, that stays so through any actions, each of them one step (so that no two
-- calls of `GetTaskResultUpdateChan` overlap): no channel is closed twice, and none is handed out
-- after it was closed.
pub Reach-HasChans :
    {env : Env} {from : Stage} {s : TaskState} {at : Stage} {t : TaskState}
    → Reach env from s at t
    → HasChans s
    → HasChans t
Reach-HasChans here v = v
Reach-HasChans (next r st) v = Step-HasChans st (Reach-HasChans r v)
