-- ===== src/Checks/Ranges.antt =====
-- The tasks check_consensus_slot_range and check_consensus_finality
-- (tasks/check_consensus_slot_range/task.go, tasks/check_consensus_finality/task.go). The clock, if it
-- can be read, and the finalized checkpoint are arguments. The output variables are left out.
use assertoor.Types.{TaskResult}
use assertoor.Prelude.{
  ℕ, ◌+◌, ◌-◌, ◌^◌, ◌≤◌, Bool, true, false, not, ◌&&◌, ◌||◌, Option, none, some, arith, ltb, leb,
  if◌then◌else◌, nat_key, string_key,
}

pub record RangeConfig : Type 0 where
  pub min_slot_number : ℕ
  pub max_slot_number : ℕ
  pub min_epoch_number : ℕ
  pub max_epoch_number : ℕ
  pub fail_if_lower : Bool

-- `checkResult` and `isLower`, after genesis.
unfoldable pub check_range : RangeConfig → (slot epoch : ℕ) → Bool × Bool
check_range cfg slot epoch =
    if ltb slot cfg.min_slot_number
    then (false, true)
    else (if ltb epoch cfg.min_epoch_number
        then (false, true)
        else (if ltb cfg.max_slot_number slot
            then (false, false)
            else (if ltb cfg.max_epoch_number epoch then (false, false) else (true, false))))

-- The slot and the epoch are `none` where the clock cannot be read.
unfoldable run_range_check : RangeConfig → (before_genesis : Bool) → Option (ℕ × ℕ) → Bool × Bool
run_range_check cfg true now = (false, true)
run_range_check cfg false none = (false, true)
run_range_check cfg false (some (slot, epoch)) = check_range cfg slot epoch

-- The result that the task sets.
abbrev range_result : RangeConfig → Bool × Bool → TaskResult
range_result cfg (check_result, is_lower) =
    if check_result
    then TaskResult.success
    else (if not is_lower || cfg.fail_if_lower then TaskResult.failure else TaskResult.none)

pub record FinalityConfig : Type 0 where
  pub min_unfinalized_epochs : ℕ
  pub max_unfinalized_epochs : ℕ
  pub min_finalized_epochs : ℕ
  pub fail_on_check_miss : Bool

-- The difference of the epochs wraps around, as that of two uint64.
abbrev unfinalized_epochs : (current finalized : ℕ) → ℕ
unfinalized_epochs current finalized =
    if leb finalized current then current - finalized else current + 2 ^ 64 - finalized

unfoldable run_finality_check : FinalityConfig → Option ℕ → (finalized : ℕ) → Bool
run_finality_check cfg none finalized = false
run_finality_check cfg (some current) finalized =
    let unfinalized = unfinalized_epochs current finalized in
    if ltb 0 cfg.min_unfinalized_epochs && ltb unfinalized cfg.min_unfinalized_epochs
    then false
    else (if ltb 0 cfg.max_unfinalized_epochs && ltb cfg.max_unfinalized_epochs unfinalized
        then false
        else not (ltb 0 cfg.min_finalized_epochs && ltb finalized cfg.min_finalized_epochs))

abbrev finality_result : FinalityConfig → Bool → TaskResult
finality_result cfg check_result =
    if check_result
    then TaskResult.success
    else (if cfg.fail_on_check_miss then TaskResult.failure else TaskResult.none)

-- Where the clock stands: 0 before the range, 1 in it, 2 after it.
abbrev pub stage : Bool × Bool → ℕ
stage (true, is_lower) = 1
stage (false, true) = 0
stage (false, false) = 2

-- As time passes, the range is ahead, then reached and then over, in this order.
check_range-in_order :
    (cfg : RangeConfig) (slot slot' epoch epoch' : ℕ)
    → slot ≤ slot'
    → epoch ≤ epoch'
    → stage (check_range cfg slot epoch) ≤ stage (check_range cfg slot' epoch')
unfolding check_range
check_range-in_order cfg slot slot' epoch epoch' later later' = ground arith
