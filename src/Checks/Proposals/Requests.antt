-- ===== src/Checks/Proposals/Requests.antt =====
-- The execution requests that a block must contain, and all its checks together (checkBlock and
-- checkBlockDepositRequests to checkBlockConsolidationRequests in
-- tasks/check_consensus_block_proposals/task.go). `none` is a panic.
use assertoor.Prelude.Int.{ℤ, pos, ltb_ℤ}
use assertoor.Checks.Proposals.{
  ProposalConfig, BlockData, Outside, DepositRequest, WithdrawalRequest, ConsolidationRequest,
  ExpectedDepositRequest, ExpectedWithdrawalRequest, ExpectedConsolidationRequest,
}
use assertoor.Checks.Proposals.Contents.{
  same_text, is_set, all_found, check_block_graffiti, check_block_validator_name,
  check_block_extra_data, check_block_attestations, check_block_deposits, check_block_exits,
  check_block_slashings, check_block_attester_slashings, check_block_proposer_slashings,
  check_block_bls_changes, check_block_withdrawals, check_block_transactions, check_block_blobs,
}
use assertoor.Prelude.{
  ℕ, Bool, true, false, not, ◌&&◌, ◌||◌, Option, none, some, List, [], ◌∷◌, ltb, if◌then◌else◌,
  length, nat_key, string_key,
}

-- `Cmp` on a nil pointer panics; an amount that is not positive is not compared.
abbrev pub amount_fits : Option ℤ → ℕ → Option Bool
amount_fits none amount = none
amount_fits (some expected) amount =
    some
      (not (ltb_ℤ (pos 0) expected && (ltb_ℤ expected (pos amount) || ltb_ℤ (pos amount) expected)))

-- A different amount, if one is expected.
abbrev differs : Option ℤ → ℕ → Bool
differs none amount = false
differs (some expected) amount = ltb_ℤ expected (pos amount) || ltb_ℤ (pos amount) expected

module _ (out : Outside) where
  unfoldable pub deposit_request_fits : ExpectedDepositRequest → DepositRequest → Option Bool
  deposit_request_fits e r =
      let amount = amount_fits e.amount r.amount in
      if same_text e.public_key "" || same_text r.pubkey e.public_key
      then (if is_set e.withdrawal_credentials
            && not (same_text (out.from_hex e.withdrawal_credentials) r.withdrawal_credentials)
          then some false
          else amount)
      else some false

  unfoldable pub deposit_request_found : ExpectedDepositRequest → List DepositRequest → Option Bool
  deposit_request_found e [] = some false
  deposit_request_found e (r ∷ rs) =
      let rest = deposit_request_found e rs in
      elim (deposit_request_fits e r) [ none ↦ none | some fits ↦ if fits then some true else rest ]

  unfoldable pub all_deposit_requests_found :
      List ExpectedDepositRequest → List DepositRequest → Option Bool
  all_deposit_requests_found [] rs = some true
  all_deposit_requests_found (e ∷ es) rs =
      let rest = all_deposit_requests_found es rs in
      elim (deposit_request_found e rs) [
        | none ↦ none
        | some found ↦ if found then rest else some false
      ]

  unfoldable pub withdrawal_request_fits : ExpectedWithdrawalRequest → WithdrawalRequest → Bool
  withdrawal_request_fits e r =
      if same_text e.validator_pubkey ""
        || same_text r.validator_pubkey (out.from_hex e.validator_pubkey)
      then (if is_set e.source_address
            && not (same_text (out.from_hex e.source_address) r.source_address)
          then false
          else not (differs e.amount r.amount))
      else false

  unfoldable pub consolidation_request_fits :
      ExpectedConsolidationRequest → ConsolidationRequest → Bool
  consolidation_request_fits e r =
      if same_text e.source_pubkey "" || same_text r.source_pubkey (out.from_hex e.source_pubkey)
      then (if is_set e.source_address
            && not (same_text (out.from_hex e.source_address) r.source_address)
          then false
          else not (
              is_set e.target_pubkey
              && not (same_text (out.from_hex e.target_pubkey) r.target_pubkey)))
      else false

module _ (out : Outside) (cfg : ProposalConfig) (b : BlockData) where
  unfoldable pub check_block_deposit_requests : Option Bool
  check_block_deposit_requests = elim b.execution_requests [
    | none ↦ some false
    | some requests ↦
        if ltb (length requests.deposits) cfg.min_deposit_request_count
        then some false
        else all_deposit_requests_found out cfg.expect_deposit_requests requests.deposits
  ]

  unfoldable pub check_block_withdrawal_requests : Bool
  check_block_withdrawal_requests = elim b.execution_requests [
    | none ↦ false
    | some requests ↦
        if ltb (length requests.withdrawals) cfg.min_withdrawal_request_count
        then false
        else all_found (withdrawal_request_fits out) cfg.expect_withdrawal_requests
            requests.withdrawals
  ]

  unfoldable pub check_block_consolidation_requests : Bool
  check_block_consolidation_requests = elim b.execution_requests [
    | none ↦ false
    | some requests ↦
        if ltb (length requests.consolidations) cfg.min_consolidation_request_count
        then false
        else all_found (consolidation_request_fits out) cfg.expect_consolidation_requests
            requests.consolidations
  ]

  -- The checks in their order, each with whether it is wanted.
  unfoldable pub checks : List (Bool × Option Bool)
  checks =
      (is_set cfg.validator_name_pattern, some (check_block_validator_name out cfg b))
      ∷ (is_set cfg.graffiti_pattern, some (check_block_graffiti out cfg b))
      ∷ (is_set cfg.extra_data_pattern, some (check_block_extra_data out cfg b))
      ∷ (ltb 0 cfg.min_attestation_count, some (check_block_attestations out cfg b))
      ∷ (
        ltb 0 cfg.min_deposit_count || ltb 0 (length cfg.expect_deposits),
        some (check_block_deposits out cfg b),
      )
      ∷ (
        ltb 0 cfg.min_exit_count || ltb 0 (length cfg.expect_exits),
        some (check_block_exits out cfg b),
      )
      ∷ (
        ltb 0 cfg.min_slashing_count || ltb 0 (length cfg.expect_slashings),
        some (check_block_slashings out cfg b),
      )
      ∷ (ltb 0 cfg.min_attester_slashing_count, some (check_block_attester_slashings out cfg b))
      ∷ (ltb 0 cfg.min_proposer_slashing_count, some (check_block_proposer_slashings out cfg b))
      ∷ (
        ltb 0 cfg.min_bls_change_count || ltb 0 (length cfg.expect_bls_changes),
        some (check_block_bls_changes out cfg b),
      )
      ∷ (
        ltb 0 cfg.min_withdrawal_count || ltb 0 (length cfg.expect_withdrawals),
        some (check_block_withdrawals out cfg b),
      )
      ∷ (ltb 0 cfg.min_transaction_count, some (check_block_transactions out cfg b))
      ∷ (ltb 0 cfg.min_blob_count, some (check_block_blobs out cfg b))
      ∷ (
        ltb 0 cfg.min_deposit_request_count || ltb 0 (length cfg.expect_deposit_requests),
        check_block_deposit_requests,
      )
      ∷ (
        ltb 0 cfg.min_withdrawal_request_count || ltb 0 (length cfg.expect_withdrawal_requests),
        some check_block_withdrawal_requests,
      )
      ∷ (
        ltb 0 cfg.min_consolidation_request_count
            || ltb 0 (length cfg.expect_consolidation_requests),
        some check_block_consolidation_requests,
      )
      ∷ []

-- The first check that is wanted and fails, or panics, decides.
unfoldable pub run_checks : List (Bool × Option Bool) → Option Bool
run_checks [] = some true
run_checks ((wanted, verdict) ∷ rest) =
    let later = run_checks rest in
    if wanted
    then elim verdict [ none ↦ none | some passed ↦ if passed then later else some false ]
    else later

-- `checkBlock` on what `AwaitBlock` gives.
unfoldable pub check_block : Outside → ProposalConfig → Option BlockData → Option Bool
check_block out cfg none = some false
check_block out cfg (some b) = run_checks (checks out cfg b)
