-- ===== src/Checks/Attestations/Chains.antt =====
-- Every chain of blocks carries exact votes (tasks/check_consensus_attestation_stats/task.go,
-- aggregateEpochVotes).
use assertoor.Checks.Attestations.{
  AttesterDuties, EpochVotes, Attestation, CheckedBlock, ChainSpecs,
}
use assertoor.Checks.Attestations.Tallies.{distinct, balance_sum, AllHaveBalances}
use assertoor.Checks.Attestations.Totals.{
  IfAny, IsExact, Fits, IsCounted, Within, aggregate_attestations-IsCounted,
  aggregate_attestations-dependent_root,
}
use assertoor.Checks.Attestations.Epochs.{
  no_count, new_epoch_votes, aggregate_attestations, AttesterDutyMap, epoch_duties, Chains,
  first_votes, start_votes, block_votes, add_chain, aggregate_block, aggregate_blocks,
  aggregate_slots, head_votes, aggregate_epoch_votes,
}
use mathlib.Core.Path.{subst}
use assertoor.Prelude.{
  ℕ, zero, suc, ◌+◌, ◌-◌, ◌≡◌, refl, sym, ap, Bool, true, false, Option, none, some, List, [], ◌∷◌,
  arith, leb, ◌==◌, if◌then◌else◌, get_elem?, nat_key, string_key, lookup, insert, lookup-insert,
}

some_inj {ℓ} : {A : Type ℓ} {a b : A} → some a ≡ some b → a ≡ b
some_inj {a} e = ap (λ o. elim o [ none ↦ a | some x ↦ x ]) e

-- A balance of every validator for every state from which duties were loaded.
abbrev pub Balances : Type 0
Balances = ℕ → ℕ → ℕ

IsChain : Balances → EpochVotes → Type 0
IsChain balance v = IsCounted (balance v.dependent_root) v

-- The loaded duties carry these balances.
unfoldable pub AreLoaded : Balances → AttesterDutyMap → ℕ → Type 0
AreLoaded balance duty_map epoch =
    (root : ℕ)
    → IfAny (λ (d : AttesterDuties). AllHaveBalances (balance root) d.duties)
        (epoch_duties epoch root duty_map)

AreChains : Balances → List (ℕ × EpochVotes) → Type 0
AreChains balance votes = (root : ℕ) → IfAny (IsChain balance) (lookup root votes)

IfAny-either :
    (balance : Balances) (v : EpochVotes) (o : Option EpochVotes) (b : Bool)
    → IsChain balance v
    → IfAny (IsChain balance) o
    → IfAny (IsChain balance) (if b then some v else o)
unfolding IfAny
IfAny-either balance v o true ok ok' = ok
IfAny-either balance v o false ok ok' = ok'

insert-AreChains :
    (balance : Balances) (root : ℕ) (v : EpochVotes) (votes : List (ℕ × EpochVotes))
    → IsChain balance v
    → AreChains balance votes
    → AreChains balance (insert root v votes)
unfolding AreChains
insert-AreChains balance root v votes ok all r =
    subst (IfAny (IsChain balance)) (sym (lookup-insert root r v votes))
      (IfAny-either balance v (lookup r votes) (root == r) ok (all r))

AreChains-either :
    (balance : Balances) (c d : Chains) (b : Bool)
    → AreChains balance c.all_votes
    → AreChains balance d.all_votes
    → AreChains balance (if b then c else d).all_votes
AreChains-either balance c d true ok ok' = ok
AreChains-either balance c d false ok ok' = ok'

empty_Within : Within no_count
empty_Within = record {
  target_amount = omega arith;
  target_count = omega arith;
  head_amount = omega arith;
  head_count = omega arith;
}

module _ (specs : ChainSpecs) (duty_map : AttesterDutyMap) (epoch first_slot slot : ℕ)
    (balance : Balances) (loaded : AreLoaded balance duty_map epoch) where
  first_votes-IsChain :
      (block : CheckedBlock) (parent_root : ℕ) (o : Option AttesterDuties)
      → IfAny (λ (d : AttesterDuties). AllHaveBalances (balance parent_root) d.duties) o
      → IfAny
          (IsChain balance)
          (first_votes specs duty_map epoch first_slot slot block parent_root o)
  unfolding first_votes IfAny IsChain new_epoch_votes distinct balance_sum
  first_votes-IsChain block parent_root none ok = tt
  first_votes-IsChain block parent_root (some d) ok = record {
    once = refl;
    worth = ok;
    exact =
        λ fits. record { current = empty_Within; next = empty_Within; amount = refl; count = refl };
  }

  start_votes-IsChain :
      (block : CheckedBlock) (parent_root : ℕ) (o : Option EpochVotes)
      → IfAny (IsChain balance) o
      → IfAny
          (IsChain balance)
          (start_votes specs duty_map epoch first_slot slot block parent_root o)
  unfolding start_votes IfAny IsChain new_epoch_votes AreLoaded
  start_votes-IsChain block parent_root none ok =
      first_votes-IsChain block parent_root (epoch_duties epoch parent_root duty_map)
        (loaded parent_root)
  start_votes-IsChain block parent_root (some parent) ok = record {
    once = ok.once;
    worth = ok.worth;
    exact = λ fits.
        let e = ok.exact fits in
        record { current = e.current; next = e.next; amount = e.amount; count = e.count };
  }

  block_votes-IsChain :
      (parent_root : ℕ) (atts : Option (List Attestation)) (v : EpochVotes)
      → IsChain balance v
      → IsChain balance (block_votes specs duty_map epoch first_slot slot parent_root atts v)
  unfolding block_votes IsChain
  block_votes-IsChain parent_root none v ok = ok
  block_votes-IsChain parent_root (some atts) v ok =
      let is_next = leb specs.slots_per_epoch (slot - first_slot) in
      subst
        (λ r. IsCounted (balance r) (aggregate_attestations specs epoch is_next parent_root v atts))
        (sym (
          aggregate_attestations-dependent_root specs epoch is_next parent_root
            (balance v.dependent_root) v atts))
        (aggregate_attestations-IsCounted specs epoch is_next parent_root (balance v.dependent_root)
          v atts ok)

  add_chain-AreChains :
      (block : CheckedBlock) (parent_root : ℕ) (c : Chains) (o : Option EpochVotes)
      → AreChains balance c.all_votes
      → IfAny (IsChain balance) o
      → AreChains balance
          (add_chain specs duty_map epoch first_slot slot block parent_root c o).all_votes
  unfolding add_chain IfAny
  add_chain-AreChains block parent_root c none all ok = all
  add_chain-AreChains block parent_root c (some v) all ok =
      insert-AreChains balance block.root _ c.all_votes
        (block_votes-IsChain parent_root block.attestations v ok) all

  aggregate_block-AreChains :
      (parent : Option ℕ) (block : CheckedBlock) (c : Chains)
      → AreChains balance c.all_votes
      → AreChains balance
          (aggregate_block specs duty_map epoch first_slot slot parent block c).all_votes
  unfolding aggregate_block AreChains
  aggregate_block-AreChains none block c all = all
  aggregate_block-AreChains (some parent_root) block c all =
      add_chain-AreChains block parent_root c _ all
        (start_votes-IsChain block parent_root (lookup parent_root c.all_votes) (all parent_root))

  aggregate_blocks-AreChains :
      (c : Chains) (blocks : List CheckedBlock)
      → AreChains balance c.all_votes
      → AreChains balance (aggregate_blocks specs duty_map epoch first_slot slot c blocks).all_votes
  unfolding aggregate_blocks
  aggregate_blocks-AreChains c [] all = all
  aggregate_blocks-AreChains c (block ∷ blocks) all =
      let next =
        if block.has_body
        then aggregate_block specs duty_map epoch first_slot slot block.parent_root block c
        else c in
      aggregate_blocks-AreChains next blocks (
        AreChains-either balance
          (aggregate_block specs duty_map epoch first_slot slot block.parent_root block c) c
          block.has_body (aggregate_block-AreChains block.parent_root block c all) all)

module _ (specs : ChainSpecs) (duty_map : AttesterDutyMap) (cached : ℕ → List CheckedBlock)
    (epoch : ℕ) (balance : Balances) (loaded : AreLoaded balance duty_map epoch) where
  aggregate_slots-AreChains :
      (first_slot count slot : ℕ) (c : Chains)
      → AreChains balance c.all_votes
      → AreChains balance
          (aggregate_slots specs duty_map cached epoch first_slot count slot c).all_votes
  unfolding aggregate_slots
  aggregate_slots-AreChains first_slot zero slot c all = all
  aggregate_slots-AreChains first_slot (suc count) slot c all =
      aggregate_slots-AreChains first_slot count (slot + 1) _ (
        aggregate_blocks-AreChains specs duty_map epoch first_slot slot balance loaded c
          (cached slot) all)

  head_votes-IsChain :
      (votes : List (ℕ × EpochVotes)) (roots : List ℕ) (i : ℕ) (v : EpochVotes)
      → AreChains balance votes
      → get_elem? (head_votes specs duty_map cached epoch votes roots) i ≡ some (some v)
      → IsChain balance v
  unfolding head_votes AreChains IfAny
  head_votes-IsChain votes [] i v all here = absurd (cc here)
  head_votes-IsChain votes (root ∷ roots) zero v all here =
      let e : lookup root votes ≡ some v = some_inj here in
      subst (IfAny (IsChain balance)) e (all root)
  head_votes-IsChain votes (root ∷ roots) (suc i) v all here =
      head_votes-IsChain votes roots i v all here

  -- If the loaded duties carry the balances of their validators, then in the votes of every head, unless
  -- the active validators' balances or their number overflow, each active validator stands once, the
  -- totals of both epochs together are the balances and the number of the active validators, and no
  -- more votes are for the target or for the head than there are.
  pub aggregate_epoch_votes-IsExact :
      (i : ℕ) (v : EpochVotes)
      → get_elem? (aggregate_epoch_votes specs duty_map cached epoch) i ≡ some (some v)
      → Fits (balance v.dependent_root) v.activity_map
      → IsExact (balance v.dependent_root) v × (distinct v.activity_map ≡ true)
  unfolding aggregate_epoch_votes AreChains IfAny IsChain lookup
  aggregate_epoch_votes-IsExact i v here fits =
      let ok : IsCounted (balance v.dependent_root) v =
        head_votes-IsChain _ _ i v (aggregate_slots-AreChains _ _ _ _ (λ root. tt)) here in
      (ok.exact fits, ok.once)
