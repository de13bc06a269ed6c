-- ===== src/Checks/Attestations.antt =====
-- The task check_consensus_attestation_stats (tasks/check_consensus_attestation_stats/task.go): the
-- votes of an epoch, counted along every chain of blocks. Bitfields, the slots of a block and what
-- its attestations say come from other packages; `SlotsPerEpoch` is not 0.
pub mod Epochs
pub mod Tallies
pub mod Totals
pub mod Duties
pub mod Passing
pub mod Streak
pub mod Chains
use assertoor.Prelude.{
  ℕ, zero, suc, ◌+◌, ◌%◌, ◌^◌, String, Bool, true, false, not, Option, none, some, List, [], ◌∷◌,
  arith, ◌==◌, if◌then◌else◌, length, nat_key, string_key, lookup,
}

pub record AttesterDuty : Type 0 where
  pub validator : ℕ
  pub balance : ℕ

pub record AttesterDuties : Type 0 where
  pub validator_count : ℕ
  pub validator_balance : ℕ
  pub duties : List (String × List AttesterDuty)

-- What was voted in one of the two epochs.
pub record EpochCount : Type 0 where
  pub target_vote_amount : ℕ
  pub target_vote_count : ℕ
  pub head_vote_amount : ℕ
  pub head_vote_count : ℕ
  pub total_vote_amount : ℕ
  pub total_vote_count : ℕ

-- The keys of `activityMap` are a list: the map only ever maps to true.
pub record EpochVotes : Type 0 where
  pub head_root : ℕ
  pub dependent_root : ℕ
  pub target_root : ℕ
  pub attester_duties : Option AttesterDuties
  pub current_epoch : EpochCount
  pub next_epoch : EpochCount
  pub activity_map : List ℕ

abbrev pub Bits : Type 0
Bits = ℕ → Bool

-- An attestation as the client library gives it; `none` where its accessor fails.
pub record AttestationData : Type 0 where
  pub slot : ℕ
  pub index : ℕ
  pub target : ℕ
  pub beacon_block_root : ℕ

pub record Attestation : Type 0 where
  pub att_data : Option AttestationData
  pub aggregation_bits : Option Bits
  pub committee_bits : Option Bits
  pub is_electra : Bool

-- A cached block; `has_body` says whether its body arrives in time.
pub record CheckedBlock : Type 0 where
  pub root : ℕ
  pub parent_root : Option ℕ
  pub has_body : Bool
  pub attestations : Option (List Attestation)

-- The chain's constants, and `fmt.Sprintf("%v-%v", slot, committee)`.
pub record ChainSpecs : Type 0 where
  pub slots_per_epoch : ℕ
  pub max_committees_per_slot : ℕ
  pub att_key : ℕ → ℕ → String

abbrev pub add64 : ℕ → ℕ → ℕ
add64 a b = (a + b) % 2 ^ 64

unfoldable pub member : ℕ → List ℕ → Bool
member x [] = false
member x (y ∷ ys) = if x == y then true else member x ys

-- What aggregateAttestationVotes has counted so far, and the activity map that it writes.
pub record VoteTally : Type 0 where
  pub vote_amount : ℕ
  pub vote_count : ℕ
  pub activity : List ℕ

-- A validator whose bit is set is counted, unless it was before.
unfoldable pub count_duty : Bool → AttesterDuty → VoteTally → VoteTally
count_duty bit duty t =
    if bit
    then (if member duty.validator t.activity then t else record {
      vote_amount = add64 t.vote_amount duty.balance;
      vote_count = add64 t.vote_count 1;
      activity = duty.validator ∷ t.activity;
    })
    else t

-- The loop over a committee's duties from the place `bit_idx` on.
unfoldable pub count_duties :
    Bits → (offset : ℕ) → (bit_idx : ℕ) → List AttesterDuty → VoteTally → VoteTally
count_duties bits offset bit_idx [] t = t
count_duties bits offset bit_idx (duty ∷ rest) t =
    count_duties bits offset (bit_idx + 1) rest (count_duty (bits (add64 bit_idx offset)) duty t)

abbrev pub no_votes : List ℕ → VoteTally
no_votes activity = record { vote_amount = 0; vote_count = 0; activity = activity }

-- A missing key of a Go map gives the empty list.
abbrev pub duties_at : String → List (String × List AttesterDuty) → List AttesterDuty
duties_at key duties = elim (lookup key duties) [ none ↦ [] | some ds ↦ ds ]

-- The sum of what was counted before and of another committee's votes.
abbrev pub add_votes : VoteTally → VoteTally → VoteTally
add_votes t more = record {
  vote_amount = add64 t.vote_amount more.vote_amount;
  vote_count = add64 t.vote_count more.vote_count;
  activity = more.activity;
}

module _ (specs : ChainSpecs) where
  -- Also gives the size of the committee.
  unfoldable pub aggregate_attestation_votes :
      List (String × List AttesterDuty)
      → (slot committee : ℕ) → Bits
      → (offset : ℕ) → List ℕ
      → VoteTally × ℕ
  aggregate_attestation_votes duties slot committee bits offset activity =
      let validators = duties_at (specs.att_key slot committee) duties in
      (count_duties bits offset 0 validators (no_votes activity), length validators)

  -- The loop over `count` committees from `committee` on; the offset that it sums up is not used.
  unfoldable pub aggregate_committees :
      List (String × List AttesterDuty)
      → (slot : ℕ) → (committee_bits bits : Bits) → (count committee aggregation_bits_offset : ℕ)
      → VoteTally
      → VoteTally
  aggregate_committees duties slot committee_bits bits zero committee offset t = t
  aggregate_committees duties slot committee_bits bits (suc count) committee offset t =
      let (more, size) = aggregate_attestation_votes duties slot committee bits 0 t.activity in
      aggregate_committees duties slot committee_bits bits count (committee + 1)
        (if committee_bits committee then add64 offset size else offset)
        (if committee_bits committee then add_votes t more else t)

-- `votes.currentEpoch` or `votes.nextEpoch` after an attestation.
unfoldable pub add_count : (on_target on_head : Bool) → VoteTally → EpochCount → EpochCount
add_count on_target on_head t c = record {
  target_vote_amount =
      if on_target then add64 c.target_vote_amount t.vote_amount else c.target_vote_amount;
  target_vote_count =
      if on_target then add64 c.target_vote_count t.vote_count else c.target_vote_count;
  head_vote_amount = if on_head then add64 c.head_vote_amount t.vote_amount else c.head_vote_amount;
  head_vote_count = if on_head then add64 c.head_vote_count t.vote_count else c.head_vote_count;
  total_vote_amount = add64 c.total_vote_amount t.vote_amount;
  total_vote_count = add64 c.total_vote_count t.vote_count;
}

unfoldable pub add_attestation_votes :
    (is_next_epoch on_target on_head : Bool) → VoteTally → EpochVotes → EpochVotes
add_attestation_votes is_next_epoch on_target on_head t v = record v {
  current_epoch =
      if is_next_epoch then v.current_epoch else add_count on_target on_head t v.current_epoch;
  next_epoch = if is_next_epoch then add_count on_target on_head t v.next_epoch else v.next_epoch;
  activity_map = t.activity;
}

abbrev pub duties_of : EpochVotes → List (String × List AttesterDuty)
duties_of v = elim v.attester_duties [ none ↦ [] | some d ↦ d.duties ]
