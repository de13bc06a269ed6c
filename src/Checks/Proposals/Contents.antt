-- ===== src/Checks/Proposals/Contents.antt =====
-- What a block must contain (checkBlockGraffiti to checkBlockWithdrawals in
-- tasks/check_consensus_block_proposals/task.go).
use assertoor.Prelude.Int.{ℤ, pos, ltb_ℤ}
use assertoor.Checks.Proposals.{
  ProposalConfig, BlockData, Outside, BlsChange, Withdrawal, ExpectedSlashing, ExpectedBlsChange,
  ExpectedWithdrawal,
}
use assertoor.Prelude.{
  ℕ, ◌+◌, String, Bool, true, false, not, ◌&&◌, ◌||◌, Option, none, some, List, [], ◌∷◌, ltb,
  if◌then◌else◌, length, anyb, nat_key, string_key, lookup,
}

abbrev pub same_text : String → String → Bool
same_text = string_key.beq

abbrev pub is_set : String → Bool
is_set s = not (same_text s "")

-- Each expected item has one among the items that fits it.
unfoldable pub all_found {ℓ κ} : {E : Type ℓ} {I : Type κ} → (E → I → Bool) → List E → List I → Bool
all_found fits [] is = true
all_found fits (e ∷ es) is =
    let rest = all_found fits es is in if anyb (fits e) is then rest else false

abbrev at_least : ℕ → Option ℕ → Bool
at_least least none = false
at_least least (some n) = not (ltb n least)

module _ (out : Outside) (cfg : ProposalConfig) (b : BlockData) where
  abbrev text_matches : String → Option String → Bool
  text_matches pattern none = false
  text_matches pattern (some text) = elim (out.match_string pattern text) [
    | none ↦ false
    | some matched ↦ matched
  ]

  unfoldable pub check_block_graffiti : Bool
  check_block_graffiti = text_matches cfg.graffiti_pattern b.graffiti

  unfoldable pub check_block_validator_name : Bool
  check_block_validator_name = elim b.proposer_index [
    | none ↦ false
    | some i ↦ text_matches cfg.validator_name_pattern (some (out.get_validator_name i))
  ]

  unfoldable pub check_block_extra_data : Bool
  check_block_extra_data = text_matches cfg.extra_data_pattern b.extra_data

  unfoldable pub check_block_attestations : Bool
  check_block_attestations = at_least cfg.min_attestation_count b.attestations

  unfoldable pub check_block_deposits : Bool
  check_block_deposits = elim b.deposits [
    | none ↦ false
    | some deposits ↦
        if ltb (length deposits) cfg.min_deposit_count
        then false
        else all_found (λ pubkey deposit. same_text deposit pubkey) cfg.expect_deposits deposits
  ]

  -- A loop that needs the validators, which it asks for only if something is expected.
  abbrev with_validators {ℓ} : {E : Type ℓ} → List E → (List (ℕ × String) → Bool) → Bool
  with_validators [] check = true
  with_validators (e ∷ es) check = elim out.validator_set [ none ↦ false | some vs ↦ check vs ]

  abbrev has_key : List (ℕ × String) → ℕ → String → Bool
  has_key validators i pubkey = elim (lookup i validators) [
    | none ↦ false
    | some key ↦ same_text key pubkey
  ]

  unfoldable pub check_block_exits : Bool
  check_block_exits = elim b.voluntary_exits [
    | none ↦ false
    | some exits ↦
        if ltb (length exits) cfg.min_exit_count
        then false
        else with_validators cfg.expect_exits
            (λ vs. all_found (λ pubkey i. has_key vs i pubkey) cfg.expect_exits exits)
  ]

  abbrev is_type : String → ExpectedSlashing → Bool
  is_type type e = same_text e.slashing_type "" || same_text e.slashing_type type

  abbrev attester_slashed : List (ℕ × String) → String → (Option (List ℕ) × Option (List ℕ)) → Bool
  attester_slashed vs pubkey (some xs, some ys) =
      anyb (λ i. has_key vs i pubkey) (out.intersect xs ys)
  attester_slashed vs pubkey _ = false

  abbrev is_slashed :
      List (ℕ × String)
      → List (Option (List ℕ) × Option (List ℕ))
      → List ℕ
      → ExpectedSlashing
      → Bool
  is_slashed vs attester proposer e =
      if is_type "attester" e && anyb (attester_slashed vs e.public_key) attester
      then true
      else is_type "proposer" e && anyb (λ i. has_key vs i e.public_key) proposer

  abbrev all_slashed :
      List (ℕ × String)
      → List (Option (List ℕ) × Option (List ℕ))
      → List ℕ
      → List ExpectedSlashing
      → Bool
  all_slashed vs attester proposer [] = true
  all_slashed vs attester proposer (e ∷ es) =
      let rest = all_slashed vs attester proposer es in
      if is_slashed vs attester proposer e then rest else false

  unfoldable pub check_block_slashings : Bool
  check_block_slashings = elim b.attester_slashings [
    | none ↦ false
    | some attester ↦ elim b.proposer_slashings [
      | none ↦ false
      | some proposer ↦
          if ltb (length attester + length proposer) cfg.min_slashing_count
          then false
          else with_validators cfg.expect_slashings
              (λ vs. all_slashed vs attester proposer cfg.expect_slashings)
    ]
  ]

  unfoldable pub check_block_attester_slashings : Bool
  check_block_attester_slashings = elim b.attester_slashings [
    | none ↦ false
    | some attester ↦ not (ltb (length attester) cfg.min_attester_slashing_count)
  ]

  unfoldable pub check_block_proposer_slashings : Bool
  check_block_proposer_slashings = elim b.proposer_slashings [
    | none ↦ false
    | some proposer ↦ not (ltb (length proposer) cfg.min_proposer_slashing_count)
  ]

  -- The loop ends at the first change of the validator, whatever its address is.
  unfoldable pub bls_change_found : List (ℕ × String) → ExpectedBlsChange → List BlsChange → Bool
  bls_change_found vs e [] = false
  bls_change_found vs e (c ∷ cs) =
      let rest = bls_change_found vs e cs in
      if has_key vs c.validator_index e.public_key
      then not (is_set e.address && not (out.equal_fold e.address c.to_execution_address))
      else rest

  abbrev all_bls_changes_found : List (ℕ × String) → List BlsChange → List ExpectedBlsChange → Bool
  all_bls_changes_found vs changes [] = true
  all_bls_changes_found vs changes (e ∷ es) =
      let rest = all_bls_changes_found vs changes es in
      if bls_change_found vs e changes then rest else false

  unfoldable pub check_block_bls_changes : Bool
  check_block_bls_changes = elim b.bls_changes [
    | none ↦ false
    | some changes ↦
        if ltb (length changes) cfg.min_bls_change_count
        then false
        else with_validators cfg.expect_bls_changes
            (λ vs. all_bls_changes_found vs changes cfg.expect_bls_changes)
  ]

  -- A bound that is given and positive is violated.
  abbrev violates : Option ℤ → (ℤ → Bool) → Bool
  violates none test = false
  violates (some bound) test = ltb_ℤ (pos 0) bound && test bound

  unfoldable pub withdrawal_fits : List (ℕ × String) → ExpectedWithdrawal → Withdrawal → Bool
  withdrawal_fits vs e w =
      if has_key vs w.validator_index e.public_key
      then (if is_set e.address && not (out.equal_fold e.address w.address)
          then false
          else (if violates e.min_amount (λ least. ltb_ℤ (pos w.amount) least)
              then false
              else not (violates e.max_amount (λ most. ltb_ℤ most (pos w.amount)))))
      else false

  unfoldable pub check_block_withdrawals : Bool
  check_block_withdrawals = elim b.withdrawals [
    | none ↦ false
    | some withdrawals ↦
        if ltb (length withdrawals) cfg.min_withdrawal_count
        then false
        else with_validators cfg.expect_withdrawals
            (λ vs. all_found (withdrawal_fits vs) cfg.expect_withdrawals withdrawals)
  ]

  unfoldable pub check_block_transactions : Bool
  check_block_transactions = at_least cfg.min_transaction_count b.transactions

  unfoldable pub check_block_blobs : Bool
  check_block_blobs = at_least cfg.min_blob_count b.blobs
