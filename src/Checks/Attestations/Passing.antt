-- ===== src/Checks/Attestations/Passing.antt =====
-- When the task passes (Execute, runAttestationStatsCheck and checkEpochVotes in
-- tasks/check_consensus_attestation_stats/task.go; config.go). Percentages are floating-point
-- numbers, which are a parameter; the votes of an epoch are asked for when its turn
-- comes. The duties of an epoch are dropped when it is checked, and it is not checked again.
use assertoor.Types.{TaskResult}
use assertoor.Checks.Attestations.{AttesterDuties, EpochVotes, add64}
use assertoor.Checks.Attestations.Duties.{no_duties}
use assertoor.Prelude.{
  ℕ, ◌-◌, Bool, true, false, not, ◌&&◌, ◌||◌, Option, none, some, List, [], ◌∷◌, ltb, leb,
  if◌then◌else◌, nat_key, string_key,
}

pub record CheckConfig : Type 0 where
  pub min_target_percent : ℕ
  pub max_target_percent : ℕ
  pub min_head_percent : ℕ
  pub max_head_percent : ℕ
  pub min_total_percent : ℕ
  pub max_total_percent : ℕ
  pub fail_on_check_miss : Bool
  pub min_checked_epochs : ℕ

abbrev pub default_check_config : CheckConfig
default_check_config = record {
  min_target_percent = 0;
  max_target_percent = 100;
  min_head_percent = 0;
  max_head_percent = 100;
  min_total_percent = 0;
  max_total_percent = 100;
  fail_on_check_miss = false;
  min_checked_epochs = 1;
}

-- `percent a b` is `float64(a) * 100.0 / float64(b)`, which the others compare with `float64(n)`.
pub record Percents (F : Type 0) : Type 0 where
  pub percent : ℕ → ℕ → F
  pub is_below : F → ℕ → Bool
  pub is_above : F → ℕ → Bool

-- The output variables of a check.
pub record CheckOutputs (F : Type 0) : Type 0 where
  pub last_checked_epoch : ℕ
  pub validator_count : ℕ
  pub validator_balance : ℕ
  pub target_votes : ℕ
  pub target_votes_percent : F
  pub head_votes : ℕ
  pub head_votes_percent : F
  pub total_votes : ℕ
  pub total_votes_percent : F

-- The task: its counter, its result and its output variables.
pub record CheckState (F : Type 0) : Type 0 where
  pub passed_epochs : ℕ
  pub result : TaskResult
  pub outputs : Option (CheckOutputs F)

module _ {F : Type 0} (floats : Percents F) (cfg : CheckConfig) where
  abbrev pub epoch_outputs : (epoch : ℕ) → EpochVotes → AttesterDuties → CheckOutputs F
  epoch_outputs epoch v d = record {
    last_checked_epoch = epoch;
    validator_count = d.validator_count;
    validator_balance = d.validator_balance;
    target_votes = add64 v.current_epoch.target_vote_count v.next_epoch.target_vote_count;
    target_votes_percent =
        floats.percent (add64 v.current_epoch.target_vote_amount v.next_epoch.target_vote_amount)
          d.validator_balance;
    head_votes = add64 v.current_epoch.head_vote_count v.next_epoch.head_vote_count;
    head_votes_percent =
        floats.percent (add64 v.current_epoch.head_vote_amount v.next_epoch.head_vote_amount)
          d.validator_balance;
    total_votes = add64 v.current_epoch.total_vote_count v.next_epoch.total_vote_count;
    total_votes_percent =
        floats.percent (add64 v.current_epoch.total_vote_amount v.next_epoch.total_vote_amount)
          d.validator_balance;
  }

  -- The six comparisons at the end of checkEpochVotes.
  unfoldable pub passes : CheckOutputs F → Bool
  passes o =
      if ltb 0 cfg.min_target_percent
        && floats.is_below o.target_votes_percent cfg.min_target_percent
      then false
      else (if ltb cfg.max_target_percent 100
            && floats.is_above o.target_votes_percent cfg.max_target_percent
          then false
          else (if ltb 0 cfg.min_head_percent
                && floats.is_below o.head_votes_percent cfg.min_head_percent
              then false
              else (if ltb cfg.max_head_percent 100
                    && floats.is_above o.head_votes_percent cfg.max_head_percent
                  then false
                  else (if ltb 0 cfg.min_total_percent
                        && floats.is_below o.total_votes_percent cfg.min_total_percent
                      then false
                      else not (
                          ltb cfg.max_total_percent 100
                          && floats.is_above o.total_votes_percent cfg.max_total_percent)))))

  -- What runAttestationStatsCheck does with the result of the canonical chain.
  unfoldable pub record_check : Bool → CheckState F → CheckState F
  record_check true s =
      let passed = add64 s.passed_epochs 1 in
      record s {
        passed_epochs = passed;
        result = if leb cfg.min_checked_epochs passed then TaskResult.success else s.result;
      }
  record_check false s = record s {
    passed_epochs = 0;
    result = if cfg.fail_on_check_miss then TaskResult.failure else TaskResult.none;
  }

  unfoldable pub check_epoch_votes : (epoch : ℕ) → EpochVotes → CheckState F → CheckState F
  check_epoch_votes epoch v s =
      let duties : AttesterDuties = elim v.attester_duties [ none ↦ no_duties | some d ↦ d ] in
      let outputs : CheckOutputs F = epoch_outputs epoch v duties in
      record_check (passes outputs) (record s { outputs = some outputs })

  -- Only the first head on the canonical chain is checked.
  unfoldable pub run_attestation_stats_check :
      (is_canonical : ℕ → Bool) → (epoch : ℕ) → List EpochVotes → CheckState F → CheckState F
  run_attestation_stats_check is_canonical epoch [] s = s
  run_attestation_stats_check is_canonical epoch (v ∷ vs) s =
      let rest = run_attestation_stats_check is_canonical epoch vs s in
      if is_canonical v.head_root then check_epoch_votes epoch v s else rest

-- The epoch that a tick of the clock has the task check, if any.
unfoldable pub check_epoch : (last_checked epoch : ℕ) → Option ℕ
check_epoch last epoch =
    let checked = epoch - 2 in if ltb epoch 2 || leb checked last then none else some checked

-- The task's loop from a start in the epoch `last_checked`, as the clock ticks; `votes` are those
-- that aggregateEpochVotes finds in its turn.
module _ {F : Type 0} (floats : Percents F) (cfg : CheckConfig) (is_canonical : ℕ → ℕ → Bool)
    (votes : ℕ → List EpochVotes) where
  abbrev check_if_any : Option ℕ → CheckState F → CheckState F
  check_if_any none s = s
  check_if_any (some epoch) s =
      run_attestation_stats_check floats cfg (is_canonical epoch) epoch (votes epoch) s

  unfoldable pub execute_ticks : (last_checked : ℕ) → (ticks : List ℕ) → CheckState F → CheckState F
  execute_ticks last [] s = s
  execute_ticks last (epoch ∷ ticks) s =
      let checked = check_epoch last epoch in
      let next : ℕ = elim checked [ none ↦ last | some e ↦ e ] in
      execute_ticks next ticks (check_if_any checked s)

abbrev pub new_check : {F : Type 0} → CheckState F
new_check = record { passed_epochs = 0; result = TaskResult.none; outputs = none }
