-- ===== src/Checks/Attestations/Epochs.antt =====
-- Aggregating and checking the votes of an epoch (aggregateEpochVotes, checkEpochVotes,
-- runAttestationStatsCheck in tasks/check_consensus_attestation_stats/task.go).
use assertoor.Checks.Attestations.{
  AttesterDuty, AttesterDuties, EpochCount, EpochVotes, Attestation, AttestationData, CheckedBlock,
  ChainSpecs, Bits, VoteTally, no_votes, aggregate_attestation_votes, aggregate_committees,
  add_votes, add_attestation_votes, duties_of,
}
use assertoor.Prelude.{
  ℕ, zero, suc, ◌+◌, ◌-◌, ◌*◌, ◌/◌, ◌%◌, ◌^◌, String, Bool, true, false, Option, none, some, List,
  [], ◌∷◌, leb, ◌==◌, if◌then◌else◌, nat_key, string_key, lookup, insert,
}

abbrev pub no_count : EpochCount
no_count = record {
  target_vote_amount = 0;
  target_vote_count = 0;
  head_vote_amount = 0;
  head_vote_count = 0;
  total_vote_amount = 0;
  total_vote_count = 0;
}

unfoldable pub new_epoch_votes : Option EpochVotes → EpochVotes
new_epoch_votes none = record {
  head_root = 0;
  dependent_root = 0;
  target_root = 0;
  attester_duties = none;
  current_epoch = no_count;
  next_epoch = no_count;
  activity_map = [];
}
new_epoch_votes (some base) = record base { head_root = 0 }

module _ (specs : ChainSpecs) where
  -- The votes of one attestation, or `none` where the loop goes on with the next one.
  unfoldable pub attestation_votes :
      List (String × List AttesterDuty)
      → AttestationData
      → (is_electra : Bool) → (aggregation_bits committee_bits : Option Bits) → List ℕ
      → Option VoteTally
  attestation_votes duties att_data electra none committee_bits activity = none
  attestation_votes duties att_data true (some bits) none activity = none
  attestation_votes duties att_data true (some bits) (some committee_bits) activity = some (
      aggregate_committees specs duties att_data.slot committee_bits bits
        specs.max_committees_per_slot 0 0 (no_votes activity))
  attestation_votes duties att_data false (some bits) committee_bits activity = some (
      add_votes (no_votes activity)
        (aggregate_attestation_votes specs duties att_data.slot att_data.index bits 0 activity).0)

  module _ (epoch : ℕ) (is_next_epoch : Bool) (parent_root : ℕ) where
    unfoldable pub add_attestation : AttestationData → EpochVotes → Option VoteTally → EpochVotes
    add_attestation att_data v none = v
    add_attestation att_data v (some t) =
        add_attestation_votes is_next_epoch (att_data.target == v.target_root)
          (att_data.beacon_block_root == parent_root) t v

    -- The body of the loop over attestations, with what `att.Data()` gives.
    unfoldable pub aggregate_attestation :
        Option AttestationData → Attestation → EpochVotes → EpochVotes
    aggregate_attestation none att v = v
    aggregate_attestation (some att_data) att v =
        if att_data.slot / specs.slots_per_epoch == epoch
        then add_attestation att_data v (
            attestation_votes (duties_of v) att_data att.is_electra att.aggregation_bits
              att.committee_bits v.activity_map)
        else v

    unfoldable pub aggregate_attestations : EpochVotes → List Attestation → EpochVotes
    aggregate_attestations v [] = v
    aggregate_attestations v (att ∷ atts) =
        aggregate_attestations (aggregate_attestation att.att_data att v) atts

-- `allHeads` and `allVotes`.
pub record Chains : Type 0 where
  pub all_heads : List ℕ
  pub all_votes : List (ℕ × EpochVotes)

unfoldable pub without : ℕ → List ℕ → List ℕ
without x [] = []
without x (y ∷ ys) = if x == y then without x ys else y ∷ without x ys

-- The duties of the task by epoch and dependent root (`attesterDutyMap`).
abbrev pub AttesterDutyMap : Type 0
AttesterDutyMap = List (ℕ × List (ℕ × AttesterDuties))

abbrev pub epoch_duties : ℕ → ℕ → AttesterDutyMap → Option AttesterDuties
epoch_duties epoch root m = elim (lookup epoch m) [ none ↦ none | some roots ↦ lookup root roots ]

module _ (specs : ChainSpecs) (duty_map : AttesterDutyMap) (epoch first_slot slot : ℕ) where
  -- The votes of a block whose parent has none: it is the first of the epoch on its chain.
  unfoldable pub first_votes : CheckedBlock → ℕ → Option AttesterDuties → Option EpochVotes
  first_votes block parent_root none = none
  first_votes block parent_root (some duties) = some (record (new_epoch_votes none) {
    head_root = block.root;
    dependent_root = parent_root;
    attester_duties = some duties;
    target_root = if slot == first_slot then block.root else parent_root;
  })

  -- The votes with which a block starts; `none` if there are no duties for it.
  unfoldable pub start_votes : CheckedBlock → ℕ → Option EpochVotes → Option EpochVotes
  start_votes block parent_root none =
      first_votes block parent_root (epoch_duties epoch parent_root duty_map)
  start_votes block parent_root (some parent) =
      some (record (new_epoch_votes (some parent)) { head_root = block.root })

  -- Nothing is counted where the attestations cannot be read.
  unfoldable pub block_votes :
      (parent_root : ℕ) → Option (List Attestation) → EpochVotes → EpochVotes
  block_votes parent_root none v = v
  block_votes parent_root (some atts) v =
      aggregate_attestations specs epoch (leb specs.slots_per_epoch (slot - first_slot)) parent_root
        v atts

  unfoldable pub add_chain : CheckedBlock → ℕ → Chains → Option EpochVotes → Chains
  add_chain block parent_root c none = c
  add_chain block parent_root c (some v) = record {
    all_heads = block.root ∷ without block.root (without parent_root c.all_heads);
    all_votes = insert block.root (block_votes parent_root block.attestations v) c.all_votes;
  }

  -- The body of the loop over blocks, with what `block.GetParentRoot()` gives.
  unfoldable pub aggregate_block : Option ℕ → CheckedBlock → Chains → Chains
  aggregate_block none block c = c
  aggregate_block (some parent_root) block c =
      add_chain block parent_root c (start_votes block parent_root (lookup parent_root c.all_votes))

  unfoldable pub aggregate_blocks : Chains → List CheckedBlock → Chains
  aggregate_blocks c [] = c
  aggregate_blocks c (block ∷ blocks) =
      aggregate_blocks (if block.has_body then aggregate_block block.parent_root block c else c)
        blocks

module _ (specs : ChainSpecs) (duty_map : AttesterDutyMap) (cached : ℕ → List CheckedBlock)
    (epoch : ℕ) where
  -- `count` slots from `slot` on.
  unfoldable pub aggregate_slots : (first_slot : ℕ) → (count slot : ℕ) → Chains → Chains
  aggregate_slots first_slot zero slot c = c
  aggregate_slots first_slot (suc count) slot c =
      aggregate_slots first_slot count (slot + 1)
        (aggregate_blocks specs duty_map epoch first_slot slot c (cached slot))

  -- The votes of every head, in the order in which Go happens to range over them.
  unfoldable pub head_votes : List (ℕ × EpochVotes) → List ℕ → List (Option EpochVotes)
  head_votes votes [] = []
  head_votes votes (root ∷ roots) = lookup root votes ∷ head_votes votes roots

  unfoldable pub aggregate_epoch_votes : List (Option EpochVotes)
  aggregate_epoch_votes =
      let first_slot = (epoch * specs.slots_per_epoch) % 2 ^ 64 in
      let last_slot = (first_slot + 2 * specs.slots_per_epoch) % 2 ^ 64 in
      let c =
        aggregate_slots first_slot (last_slot + 1 - first_slot) first_slot
          (record { all_heads = []; all_votes = [] }) in
      head_votes c.all_votes c.all_heads
