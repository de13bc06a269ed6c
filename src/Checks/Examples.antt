-- ===== src/Checks/Examples.antt =====
-- An epoch of two slots with two validators in one committee
-- (tasks/check_consensus_attestation_stats/task.go).
use mathlib.Core.Path.{subst}
use assertoor.Types.{TaskResult, result_eq}
use assertoor.Checks.Attestations.{
  AttesterDuties, EpochVotes, Attestation, CheckedBlock, ChainSpecs, add_attestation_votes,
  add_count, aggregate_committees, aggregate_attestation_votes, count_duties, count_duty, member,
}
use assertoor.Checks.Attestations.Tallies.{distinct, AllHaveBalances, balance_sum}
use assertoor.Checks.Attestations.Totals.{IsExact, IfAny}
use assertoor.Checks.Attestations.Epochs.{
  AttesterDutyMap, no_count, aggregate_epoch_votes, head_votes, aggregate_slots, aggregate_blocks,
  aggregate_block, add_chain, start_votes, first_votes, block_votes, aggregate_attestations,
  aggregate_attestation, add_attestation, attestation_votes, new_epoch_votes, without,
}
use assertoor.Checks.Attestations.Duties.{
  Validators, Committee, load_duties, add_committees, add_committee, add_duty, count_active,
  balance_in, load_duties-AllHaveBalances,
}
use assertoor.Checks.Attestations.Chains.{AreLoaded, aggregate_epoch_votes-IsExact}
use assertoor.Checks.Attestations.Passing.{
  CheckConfig, default_check_config, Percents, passes, execute_ticks, new_check,
}
use assertoor.Checks.Attestations.Streak.{execute_ticks-success}
use assertoor.Prelude.Int.{pos}
use assertoor.Checks.Proposals.{ProposalConfig, default_proposal_config, BlockData, Outside}
use assertoor.Checks.Proposals.Requests.{
  check_block, checks, run_checks, check_block_deposit_requests, all_deposit_requests_found,
  deposit_request_found, deposit_request_fits,
}
use assertoor.Checks.Proposals.Waiting.{
  ProposalBlock, lookback_blocks, lookback_from, execute_proposals,
}
use assertoor.Checks.Proposals.Matching.{finished}
use assertoor.Checks.Proposals.Verdict.{GivesAmounts, execute_proposals-check_block}
use assertoor.Checks.Ranges.{RangeConfig, check_range, stage}
use assertoor.Checks.SyncStatus.{
  SyncAnswer, status, no_status, SyncClient, SyncConfig, panicked, check_clients, process_check,
}
use assertoor.Prelude.{
  ℕ, ◌*◌, ◌/◌, ◌≡◌, refl, true, false, Option, none, some, List, [], ◌∷◌, arith, ltb, ◌==◌,
  if◌then◌else◌, get_elem?, nat_key, string_key, lookup, insert,
}

abbrev specs : ChainSpecs
specs = record {
  slots_per_epoch = 2;
  max_committees_per_slot = 1;
  att_key = λ slot committee. if slot == 2 then "2-0" else "3-0";
}

abbrev validators : Validators
validators =
    (1, record { activation_epoch = 0; exit_epoch = 100; effective_balance = 32 })
    ∷ (2, record { activation_epoch = 0; exit_epoch = 100; effective_balance = 32 })
    ∷ []

abbrev committees : List Committee
committees = record { slot = 2; index = 0; validators = 1 ∷ 2 ∷ [] } ∷ []

abbrev duties : AttesterDuties
duties = record {
  validator_count = 2;
  validator_balance = 64;
  duties =
      ("2-0", record { validator = 1; balance = 32 } ∷ record { validator = 2; balance = 32 } ∷ [])
      ∷ [];
}

duties_loaded : load_duties specs 1 validators committees ≡ some duties
unfolding load_duties add_committees add_committee add_duty count_active lookup insert
duties_loaded = refl

abbrev duty_map : AttesterDutyMap
duty_map = (1, (9, duties) ∷ []) ∷ []

abbrev attestation : Attestation
attestation = record {
  att_data = some (record { slot = 2; index = 0; target = 10; beacon_block_root = 10 });
  aggregation_bits = some (λ i. true);
  committee_bits = some (λ i. true);
  is_electra = true;
}

-- The second block carries the attestation twice.
abbrev cached : ℕ → List CheckedBlock
cached slot =
    if slot == 2
    then record { root = 10; parent_root = some 9; has_body = true; attestations = some [] } ∷ []
    else (if slot == 3
        then record {
          root = 11;
          parent_root = some 10;
          has_body = true;
          attestations = some (attestation ∷ attestation ∷ []);
        }
          ∷ []
        else [])

abbrev votes : EpochVotes
votes = record {
  head_root = 11;
  dependent_root = 9;
  target_root = 10;
  attester_duties = some duties;
  current_epoch = record {
    target_vote_amount = 64;
    target_vote_count = 2;
    head_vote_amount = 64;
    head_vote_count = 2;
    total_vote_amount = 64;
    total_vote_count = 2;
  };
  next_epoch = no_count;
  activity_map = 2 ∷ 1 ∷ [];
}

votes_found : get_elem? (aggregate_epoch_votes specs duty_map cached 1) 0 ≡ some (some votes)
unfolding aggregate_epoch_votes lookup insert head_votes aggregate_slots aggregate_blocks
    aggregate_block add_chain start_votes first_votes block_votes aggregate_attestations
    aggregate_attestation add_attestation attestation_votes new_epoch_votes without
    add_attestation_votes add_count aggregate_committees aggregate_attestation_votes count_duties
    count_duty member
votes_found = refl

loaded_worth : AllHaveBalances (balance_in validators) duties.duties
unfolding IfAny
loaded_worth =
    subst (IfAny (λ (d : AttesterDuties). AllHaveBalances (balance_in validators) d.duties))
      duties_loaded (load_duties-AllHaveBalances validators specs 1 committees)

duties_worth : AreLoaded (λ root. balance_in validators) duty_map 1
unfolding AreLoaded IfAny lookup
duties_worth root =
    elim (9 == root)
      as (λ b.
        IfAny (λ (d : AttesterDuties). AllHaveBalances (balance_in validators) d.duties)
          (if b then some duties else none)) [ true ↦ loaded_worth | false ↦ tt ]

aggregate_epoch_votes-IsExact_example :
    IsExact (balance_in validators) votes × (distinct (2 ∷ 1 ∷ []) ≡ true)
unfolding balance_sum lookup
aggregate_epoch_votes-IsExact_example =
    aggregate_epoch_votes-IsExact specs duty_map cached 1 (λ root. balance_in validators)
      duties_worth 0 votes votes_found (record { amount = omega arith; count = omega arith })

-- Two good epochs are wanted, and any votes are good.
abbrev cfg : CheckConfig
cfg = record default_check_config { min_checked_epochs = 2 }

abbrev floats : Percents ℕ
floats = record {
  percent = λ a b. a * 100 / b;
  is_below = λ p n. ltb p n;
  is_above = λ p n. ltb n p;
}

execute_ticks-success_example :
    result_eq
      (execute_ticks floats cfg
        (λ epoch root. true)
        (λ epoch. votes ∷ [])
        5
        (6 ∷ 7 ∷ 8 ∷ 9 ∷ [])
        new_check).result
      TaskResult.success
    ≡ true
unfolding passes
execute_ticks-success_example =
    execute_ticks-success floats cfg (λ epoch root. true) (λ epoch. votes ∷ []) 5
      (6 ∷ 7 ∷ 8 ∷ 9 ∷ []) (omega arith)

-- Two blocks are wanted that carry a deposit request for the amount 5
-- (tasks/check_consensus_block_proposals/task.go).
abbrev wanted : ProposalConfig
wanted = record default_proposal_config {
  check_lookback = 2;
  block_count = 2;
  expect_deposit_requests =
      record { public_key = "0xaa"; withdrawal_credentials = ""; amount = some (pos 5) } ∷ [];
}

abbrev outside : Outside
outside = record {
  match_string = λ pattern text. none;
  equal_fold = λ s t. false;
  from_hex = λ s. s;
  intersect = λ xs ys. [];
  get_validator_name = λ i. "";
  validator_set = none;
}

abbrev block_with : ℕ → BlockData
block_with amount = record {
  graffiti = none;
  proposer_index = none;
  extra_data = none;
  attestations = none;
  deposits = none;
  voluntary_exits = none;
  attester_slashings = none;
  proposer_slashings = none;
  bls_changes = none;
  withdrawals = none;
  transactions = none;
  blobs = none;
  execution_requests = some (record {
    deposits = record { pubkey = "0xaa"; withdrawal_credentials = ""; amount = amount } ∷ [];
    withdrawals = [];
    consolidations = [];
  });
}

abbrev old_block : ProposalBlock
old_block = record { root = 1; parent_root = some 0 }

abbrev head_block : ProposalBlock
head_block = record { root = 2; parent_root = some 1 }

abbrev new_block : ProposalBlock
new_block = record { root = 3; parent_root = some 2 }

-- The head asks for another amount.
abbrev await_block : ProposalBlock → Option BlockData
await_block b = if b.root == 2 then some (block_with 6) else some (block_with 5)

abbrev cached_block : ℕ → Option ProposalBlock
cached_block root = if root == 1 then some old_block else none

execute_proposals-check_block_example :
    execute_proposals 2 2
      (λ b. check_block outside wanted (await_block b))
      (head_block ∷ [])
      cached_block
      (new_block ∷ [])
    ≡ some (true, finished (old_block ∷ new_block ∷ []))
unfolding check_block checks run_checks check_block_deposit_requests all_deposit_requests_found
    deposit_request_found deposit_request_fits lookback_blocks lookback_from GivesAmounts
execute_proposals-check_block_example =
    execute_proposals-check_block outside wanted await_block (head_block ∷ []) cached_block
      (new_block ∷ []) ((pos 5, refl), tt) (omega arith)

-- Slots from 10 to 20 (tasks/check_consensus_slot_range/task.go).
abbrev range : RangeConfig
range = record {
  min_slot_number = 10;
  max_slot_number = 20;
  min_epoch_number = 0;
  max_epoch_number = 100;
  fail_if_lower = false;
}

range_over : stage (check_range range 21 2) ≡ 2
unfolding check_range
range_over = refl

-- One node answers and the other does not (tasks/check_consensus_sync_status/task.go).
abbrev sync_config : SyncConfig
sync_config = record {
  expect_syncing = false;
  expect_optimistic = false;
  min_slot_height = 10;
  wait_for_chain_progression = false;
  is_below_min_percent = λ s. false;
  is_above_max_percent = λ s. false;
}

abbrev answers : List (SyncClient × SyncAnswer)
answers =
    (
      record { name = "first"; execution_index = 0 },
      status
          (record { head_slot = 12; sync_distance = 0; is_syncing = false; is_optimistic = false }),
    )
    ∷ (record { name = "second"; execution_index = 1 }, no_status)
    ∷ []

second_panics : process_check sync_config answers [] ≡ (panicked, none)
unfolding process_check check_clients
second_panics = refl
