-- ===== src/Runner/TestRun.antt =====
-- One test run: its status, Validate, Run and AbortTest (test/test.go). What the task scheduler does
-- in `RunTasks` is given by its error and by what happened meanwhile.
use assertoor.Prelude.{
  ℕ, String, ◌≡◌, refl, ◌↔◌, Bool, true, false, not, ◌||◌, Option, none, some, List, [], ◌∷◌, arith,
  ◌==◌, if◌then◌else◌, nat_key, string_key,
}

pub data TestStatus : Type 0 where
  pending running success failure skipped aborted : TestStatus

pub data Error : Type 0 where
  no_tasks already_started test_aborted : Error
  tasks_failed : String → Error

-- The columns of the test's row that a status update writes; times are 0 before they are known.
pub record DbTestRun : Type 0 where
  pub status : TestStatus
  pub start_time : ℕ
  pub stop_time : ℕ

-- `task_count` is that of the task scheduler; `row` is the run's row in the database.
pub record Test : Type 0 where
  pub status : TestStatus
  pub start_time : Option ℕ
  pub stop_time : Option ℕ
  pub task_count : ℕ
  pub tasks_cancelled : Bool
  pub cleanup_cancelled : Bool
  pub db_test_run : DbTestRun
  pub row : DbTestRun

abbrev pub unix_milli : Option ℕ → ℕ
unix_milli none = 0
unix_milli (some t) = t

-- The update fails, and changes the record in memory only, if the transaction does.
unfoldable pub update_test_status : (db_fails : Bool) → Test → Test
update_test_status db_fails t =
    let d : DbTestRun = record {
      status = t.status;
      start_time = unix_milli t.start_time;
      stop_time = unix_milli t.stop_time;
    } in
    record t { db_test_run = d; row = if db_fails then t.row else d }

unfoldable pub validate : Test → Test × Option Error
validate t = if t.task_count == 0 then (record t { status = failure }, some no_tasks) else (t, none)

-- `AbortTest`: the scheduler's contexts are cancelled.
unfoldable pub abort_test : (skip_cleanup : Bool) → Test → Test
abort_test skip_cleanup t = record t {
  status = aborted;
  tasks_cancelled = true;
  cleanup_cancelled = t.cleanup_cancelled || skip_cleanup;
}

-- While the tasks run, the test may be aborted; the context of the run may be cancelled as well.
pub record Tasks : Type 0 where
  pub aborts : List Bool
  pub error : Option String
  pub context_done : Bool

abbrev pub apply_aborts : List Bool → Test → Test
apply_aborts [] t = t
apply_aborts (skip ∷ rest) t = apply_aborts rest (abort_test skip t)

-- The result after `RunTasks` has returned.
unfoldable pub conclude : Tasks → Test → Test × Option Error
conclude tasks t =
    if tasks.context_done
    then (record t { status = aborted }, some test_aborted)
    else (elim t.status [
      | aborted ↦ (t, some test_aborted)
      | _ ↦ elim tasks.error [
        | some e ↦ (record t { status = failure }, some (tasks_failed e))
        | none ↦ (record t { status = success }, none)
      ]
    ])

-- The deferred function writes the stop time and the status.
abbrev pub stop_run : (now : ℕ) (db_fails : Bool) → Test × Option Error → Test × Option Error
stop_run now db_fails (t, err) =
    (update_test_status db_fails (record t { stop_time = some now }), err)

abbrev pub is_pending : TestStatus → Bool
is_pending pending = true
is_pending _ = false

-- The second test of the source, for a test that was aborted before it ran, is never reached.
unfoldable pub run :
    (started stopped : ℕ) (start_fails stop_fails : Bool) → Tasks → Test → Test × Option Error
unfolding update_test_status conclude abort_test
run started stopped start_fails stop_fails tasks t =
    if not (is_pending t.status)
    then (t, some already_started)
    else stop_run stopped stop_fails (
        conclude tasks (
          apply_aborts tasks.aborts (
            update_test_status start_fails
              (record t { status = running; start_time = some started }))))

abbrev pub was_aborted : List Bool → Bool
was_aborted [] = false
was_aborted (skip ∷ rest) = true

-- The status that a run must end with.
abbrev pub final_status : Tasks → TestStatus
final_status tasks =
    if tasks.context_done || was_aborted tasks.aborts
    then aborted
    else (elim tasks.error [ some e ↦ failure | none ↦ success ])

apply_aborts_status :
    (aborts : List Bool) (t : Test)
    → ((apply_aborts aborts t).status ≡ (if was_aborted aborts then aborted else t.status))
      × ((apply_aborts aborts t).start_time ≡ t.start_time)
      × ((apply_aborts aborts t).row ≡ t.row)
unfolding abort_test
apply_aborts_status [] t = (refl, refl, refl)
apply_aborts_status (skip ∷ []) t = (refl, refl, refl)
apply_aborts_status (skip ∷ again ∷ rest) t = apply_aborts_status (again ∷ rest) (abort_test skip t)

-- The row of a run in the database once it has started.
abbrev pub started_row : (started : ℕ) (start_fails : Bool) → Test → DbTestRun
started_row started start_fails t =
    if start_fails
    then t.row
    else record { status = running; start_time = started; stop_time = unix_milli t.stop_time }

-- A test that is pending runs: it ends as aborted if its context was cancelled or it was aborted
-- meanwhile, else as failed if its tasks gave an error, and as succeeded otherwise, and returns an
-- error in all cases but the last. Its times are set, and if the last update succeeds its row holds
-- them and the final status; if not, the row is as it was after the start.
pub run_result :
    (started stopped : ℕ) (start_fails stop_fails : Bool) (tasks : Tasks) (t : Test)
    → t.status ≡ pending
    → let r = run started stopped start_fails stop_fails tasks t in
      (r.0.status ≡ final_status tasks)
      × (r.0.start_time ≡ some started)
      × (r.0.stop_time ≡ some stopped)
      × ((r.1 ≡ none) ↔ (final_status tasks ≡ success))
      × (r.0.row ≡ (
          if stop_fails
          then started_row started start_fails t
          else record { status = final_status tasks; start_time = started; stop_time = stopped }))
unfolding run
run_result started stopped start_fails stop_fails tasks t e =
    let t0 =
      update_test_status start_fails (record t { status = running; start_time = some started }) in
    let during = apply_aborts_status tasks.aborts t0 in ground (arith, during)
