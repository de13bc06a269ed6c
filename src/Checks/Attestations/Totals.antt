-- ===== src/Checks/Attestations/Totals.antt =====
-- The votes of an epoch count every active validator once
-- (tasks/check_consensus_attestation_stats/task.go, aggregateEpochVotes).
use assertoor.Checks.Attestations.{
  AttesterDuty, EpochCount, EpochVotes, Attestation, AttestationData, ChainSpecs, Bits, VoteTally,
  no_votes, aggregate_attestation_votes, add_count, add_attestation_votes, duties_of,
}
use assertoor.Checks.Attestations.Tallies.{
  distinct, balance_sum, balance_sum-append, AllHaveBalances, Adds, no_votes-Adds, add_votes-Adds,
  aggregate_attestation_votes-Adds, aggregate_committees-Adds,
}
use assertoor.Checks.Attestations.Epochs.{
  attestation_votes, add_attestation, aggregate_attestation, aggregate_attestations,
}
use assertoor.Prelude.{
  ℕ, ◌+◌, ◌/◌, ◌^◌, ◌≤◌, ◌<◌, String, ◌≡◌, refl, ap, ◌∙◌, Bool, true, false, Option, none, some,
  List, [], ◌∷◌, arith, ◌==◌, if◌then◌else◌, length, length-append, nat_key, string_key,
}

-- Of the votes that count, some are for the right target and some for the right head.
pub record Within (c : EpochCount) : Type 0 where
  pub target_amount : c.target_vote_amount ≤ c.total_vote_amount
  pub target_count : c.target_vote_count ≤ c.total_vote_count
  pub head_amount : c.head_vote_amount ≤ c.total_vote_amount
  pub head_count : c.head_vote_count ≤ c.total_vote_count

-- The totals of both epochs are those of the validators in the activity map.
pub record IsExact (balance : ℕ → ℕ) (v : EpochVotes) : Type 0 where
  pub current : Within v.current_epoch
  pub next : Within v.next_epoch
  pub amount :
      v.current_epoch.total_vote_amount + v.next_epoch.total_vote_amount
      ≡ balance_sum balance v.activity_map
  pub count :
      v.current_epoch.total_vote_count + v.next_epoch.total_vote_count ≡ length v.activity_map

-- No sum over the active validators overflows.
pub record Fits (balance : ℕ → ℕ) (active : List ℕ) : Type 0 where
  pub amount : balance_sum balance active < 2 ^ 64
  pub count : length active < 2 ^ 64

pub record IsCounted (balance : ℕ → ℕ) (v : EpochVotes) : Type 0 where
  pub once : distinct v.activity_map ≡ true
  pub worth : AllHaveBalances balance (duties_of v)
  pub exact : Fits balance v.activity_map → IsExact balance v

add_count-Within :
    (on_target on_head : Bool) (t : VoteTally) (c : EpochCount)
    → c.total_vote_amount + t.vote_amount < 2 ^ 64
    → c.total_vote_count + t.vote_count < 2 ^ 64
    → Within c
    → Within (add_count on_target on_head t c)
unfolding add_count
add_count-Within on_target on_head t c fits_amount fits_count ok = record {
  target_amount = let k = ok.target_amount in ground arith;
  target_count = let k = ok.target_count in ground arith;
  head_amount = let k = ok.head_amount in ground arith;
  head_count = let k = ok.head_count in ground arith;
}

add_attestation_votes-IsExact :
    (balance : ℕ → ℕ) (is_next on_target on_head : Bool) (t : VoteTally) (v : EpochVotes)
    → IsCounted balance v
    → Adds balance v.activity_map t
    → Fits balance t.activity
    → IsExact balance (add_attestation_votes is_next on_target on_head t v)
unfolding add_attestation_votes add_count
add_attestation_votes-IsExact balance is_next on_target on_head t v ok added fits =
    let sum : balance_sum balance t.activity
        ≡ balance_sum balance added.added + balance_sum balance v.activity_map =
      ap (balance_sum balance) added.grown
      ∙ balance_sum-append balance added.added v.activity_map in
    let size : length t.activity ≡ length added.added + length v.activity_map =
      ap length added.grown ∙ length-append added.added v.activity_map in
    let exact = ok.exact (record {
      amount = omega (arith, sum, fits.amount);
      count = omega (arith, size, fits.count);
    }) in
    let amount = added.amount (omega (arith, sum, fits.amount)) in
    let count = added.count (omega (arith, size, fits.count)) in
    elim is_next as (λ k. IsExact balance (add_attestation_votes k on_target on_head t v)) [
      | false ↦ record {
        current =
            add_count-Within on_target on_head t v.current_epoch
              (omega (arith, sum, fits.amount, amount, exact.amount))
              (omega (arith, size, fits.count, count, exact.count)) exact.current;
        next = exact.next;
        amount = omega (arith, sum, fits.amount, amount, exact.amount);
        count = omega (arith, size, fits.count, count, exact.count);
      }
      | true ↦ record {
        current = exact.current;
        next =
            add_count-Within on_target on_head t v.next_epoch
              (omega (arith, sum, fits.amount, amount, exact.amount))
              (omega (arith, size, fits.count, count, exact.count)) exact.next;
        amount = omega (arith, sum, fits.amount, amount, exact.amount);
        count = omega (arith, size, fits.count, count, exact.count);
      }
    ]

add_attestation_votes-IsCounted :
    (balance : ℕ → ℕ) (is_next on_target on_head : Bool) (t : VoteTally) (v : EpochVotes)
    → IsCounted balance v
    → Adds balance v.activity_map t
    → IsCounted balance (add_attestation_votes is_next on_target on_head t v)
unfolding add_attestation_votes
add_attestation_votes-IsCounted balance is_next on_target on_head t v ok added = record {
  once = added.once;
  worth = ok.worth;
  exact = add_attestation_votes-IsExact balance is_next on_target on_head t v ok added;
}

-- What a result satisfies, if there is one.
unfoldable pub IfAny {ℓ} : {A : Type ℓ} → (A → Type 0) → Option A → Type 0
IfAny P none = Unit
IfAny P (some a) = P a

-- Both branches of a test count right.
either :
    {balance : ℕ → ℕ} {v w : EpochVotes} (b : Bool)
    → IsCounted balance v
    → IsCounted balance w
    → IsCounted balance (if b then v else w)
either true ok ok' = ok
either false ok ok' = ok'

module _ (specs : ChainSpecs) where
  attestation_votes-Adds :
      (balance : ℕ → ℕ) (duties : List (String × List AttesterDuty)) (att_data : AttestationData)
      (is_electra : Bool) (bits committee_bits : Option Bits) (activity : List ℕ)
      → AllHaveBalances balance duties
      → distinct activity ≡ true
      → IfAny
          (Adds balance activity)
          (attestation_votes specs duties att_data is_electra bits committee_bits activity)
  unfolding attestation_votes IfAny
  attestation_votes-Adds balance duties d electra none committee_bits activity worth once = tt
  attestation_votes-Adds balance duties d true (some bits) none activity worth once = tt
  attestation_votes-Adds balance duties d true (some bits) (some cs) activity worth once =
      aggregate_committees-Adds specs balance duties worth d.slot cs bits
        specs.max_committees_per_slot 0 0 activity (no_votes activity)
        (no_votes-Adds balance activity once)
  attestation_votes-Adds balance duties d false (some bits) committee_bits activity worth once =
      add_votes-Adds balance activity (no_votes activity)
        (aggregate_attestation_votes specs duties d.slot d.index bits 0 activity).0
        (no_votes-Adds balance activity once)
        (aggregate_attestation_votes-Adds specs balance duties worth d.slot d.index bits 0 activity
          once)

  module _ (epoch : ℕ) (is_next : Bool) (parent_root : ℕ) (balance : ℕ → ℕ) where
    add_attestation-IsCounted :
        (d : AttestationData) (v : EpochVotes) (o : Option VoteTally)
        → IsCounted balance v
        → IfAny (Adds balance v.activity_map) o
        → IsCounted balance (add_attestation specs epoch is_next parent_root d v o)
    unfolding add_attestation IfAny
    add_attestation-IsCounted d v none ok added = ok
    add_attestation-IsCounted d v (some t) ok added =
        add_attestation_votes-IsCounted balance is_next (d.target == v.target_root)
          (d.beacon_block_root == parent_root) t v ok added

    aggregate_attestation-IsCounted :
        (o : Option AttestationData) (att : Attestation) (v : EpochVotes)
        → IsCounted balance v
        → IsCounted balance (aggregate_attestation specs epoch is_next parent_root o att v)
    unfolding aggregate_attestation
    aggregate_attestation-IsCounted none att v ok = ok
    aggregate_attestation-IsCounted (some d) att v ok =
        either (d.slot / specs.slots_per_epoch == epoch)
          (add_attestation-IsCounted d v _ ok (
            attestation_votes-Adds balance (duties_of v) d att.is_electra att.aggregation_bits
              att.committee_bits v.activity_map ok.worth ok.once))
          ok

    pub aggregate_attestations-IsCounted :
        (v : EpochVotes) (atts : List Attestation)
        → IsCounted balance v
        → IsCounted balance (aggregate_attestations specs epoch is_next parent_root v atts)
    unfolding aggregate_attestations
    aggregate_attestations-IsCounted v [] ok = ok
    aggregate_attestations-IsCounted v (att ∷ atts) ok =
        aggregate_attestations-IsCounted
          (aggregate_attestation specs epoch is_next parent_root att.att_data att v) atts
          (aggregate_attestation-IsCounted att.att_data att v ok)

    -- The duties stay those of the chain.
    add_attestation-dependent_root :
        (d : AttestationData) (v : EpochVotes) (o : Option VoteTally)
        → (add_attestation specs epoch is_next parent_root d v o).dependent_root ≡ v.dependent_root
    unfolding add_attestation add_attestation_votes
    add_attestation-dependent_root d v none = refl
    add_attestation-dependent_root d v (some t) = refl

    aggregate_attestation-dependent_root :
        (o : Option AttestationData) (att : Attestation) (v : EpochVotes)
        → (aggregate_attestation specs epoch is_next parent_root o att v).dependent_root
          ≡ v.dependent_root
    unfolding aggregate_attestation
    aggregate_attestation-dependent_root none att v = refl
    aggregate_attestation-dependent_root (some d) att v =
        grind (arith, add_attestation-dependent_root)

    pub aggregate_attestations-dependent_root :
        (v : EpochVotes) (atts : List Attestation)
        → (aggregate_attestations specs epoch is_next parent_root v atts).dependent_root
          ≡ v.dependent_root
    unfolding aggregate_attestations
    aggregate_attestations-dependent_root v [] = refl
    aggregate_attestations-dependent_root v (att ∷ atts) =
        aggregate_attestations-dependent_root
          (aggregate_attestation specs epoch is_next parent_root att.att_data att v) atts
        ∙ aggregate_attestation-dependent_root att.att_data att v
