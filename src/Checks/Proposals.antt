-- ===== src/Checks/Proposals.antt =====
-- The task check_consensus_block_proposals (tasks/check_consensus_block_proposals/task.go and
-- config.go): its configuration and what it reads of a block. The accessors of a block belong to the
-- client library: `none` is an error. Regular expressions, hexadecimal texts and the intersection of
-- lists come from other packages, and so does the set of validators. A minimum below 0 has no effect
-- in the code, and is a natural number here.
pub mod Contents
pub mod Requests
pub mod Waiting
pub mod Matching
pub mod Verdict
use assertoor.Prelude.Int.{ℤ}
use assertoor.Prelude.{ℕ, String, Bool, Option, List, [], arith, nat_key, string_key}

pub record ExpectedSlashing : Type 0 where
  pub public_key : String
  pub slashing_type : String

pub record ExpectedBlsChange : Type 0 where
  pub public_key : String
  pub address : String

-- A pointer to a big integer may be nil.
pub record ExpectedWithdrawal : Type 0 where
  pub public_key : String
  pub address : String
  pub min_amount : Option ℤ
  pub max_amount : Option ℤ

pub record ExpectedDepositRequest : Type 0 where
  pub public_key : String
  pub withdrawal_credentials : String
  pub amount : Option ℤ

pub record ExpectedWithdrawalRequest : Type 0 where
  pub source_address : String
  pub validator_pubkey : String
  pub amount : Option ℤ

pub record ExpectedConsolidationRequest : Type 0 where
  pub source_address : String
  pub source_pubkey : String
  pub target_pubkey : String

pub record ProposalConfig : Type 0 where
  pub check_lookback : ℕ
  pub block_count : ℕ
  pub graffiti_pattern : String
  pub validator_name_pattern : String
  pub extra_data_pattern : String
  pub min_attestation_count : ℕ
  pub min_deposit_count : ℕ
  pub min_exit_count : ℕ
  pub min_slashing_count : ℕ
  pub min_attester_slashing_count : ℕ
  pub min_proposer_slashing_count : ℕ
  pub min_bls_change_count : ℕ
  pub min_withdrawal_count : ℕ
  pub min_transaction_count : ℕ
  pub min_blob_count : ℕ
  pub min_deposit_request_count : ℕ
  pub min_withdrawal_request_count : ℕ
  pub min_consolidation_request_count : ℕ
  pub expect_deposits : List String
  pub expect_exits : List String
  pub expect_slashings : List ExpectedSlashing
  pub expect_bls_changes : List ExpectedBlsChange
  pub expect_withdrawals : List ExpectedWithdrawal
  pub expect_deposit_requests : List ExpectedDepositRequest
  pub expect_withdrawal_requests : List ExpectedWithdrawalRequest
  pub expect_consolidation_requests : List ExpectedConsolidationRequest

abbrev pub default_proposal_config : ProposalConfig
default_proposal_config = record {
  check_lookback = 1;
  block_count = 1;
  graffiti_pattern = "";
  validator_name_pattern = "";
  extra_data_pattern = "";
  min_attestation_count = 0;
  min_deposit_count = 0;
  min_exit_count = 0;
  min_slashing_count = 0;
  min_attester_slashing_count = 0;
  min_proposer_slashing_count = 0;
  min_bls_change_count = 0;
  min_withdrawal_count = 0;
  min_transaction_count = 0;
  min_blob_count = 0;
  min_deposit_request_count = 0;
  min_withdrawal_request_count = 0;
  min_consolidation_request_count = 0;
  expect_deposits = [];
  expect_exits = [];
  expect_slashings = [];
  expect_bls_changes = [];
  expect_withdrawals = [];
  expect_deposit_requests = [];
  expect_withdrawal_requests = [];
  expect_consolidation_requests = [];
}

pub record BlsChange : Type 0 where
  pub validator_index : ℕ
  pub to_execution_address : String

pub record Withdrawal : Type 0 where
  pub validator_index : ℕ
  pub address : String
  pub amount : ℕ

pub record DepositRequest : Type 0 where
  pub pubkey : String
  pub withdrawal_credentials : String
  pub amount : ℕ

pub record WithdrawalRequest : Type 0 where
  pub source_address : String
  pub validator_pubkey : String
  pub amount : ℕ

pub record ConsolidationRequest : Type 0 where
  pub source_address : String
  pub source_pubkey : String
  pub target_pubkey : String

pub record ExecutionRequests : Type 0 where
  pub deposits : List DepositRequest
  pub withdrawals : List WithdrawalRequest
  pub consolidations : List ConsolidationRequest

-- A deposit is its public key, an exit the index of its validator, an attester slashing the attesting
-- indices of its two attestations, and a proposer slashing its proposer. Attestations, transactions
-- and blobs are only counted.
pub record BlockData : Type 0 where
  pub graffiti : Option String
  pub proposer_index : Option ℕ
  pub extra_data : Option String
  pub attestations : Option ℕ
  pub deposits : Option (List String)
  pub voluntary_exits : Option (List ℕ)
  pub attester_slashings : Option (List (Option (List ℕ) × Option (List ℕ)))
  pub proposer_slashings : Option (List ℕ)
  pub bls_changes : Option (List BlsChange)
  pub withdrawals : Option (List Withdrawal)
  pub transactions : Option ℕ
  pub blobs : Option ℕ
  pub execution_requests : Option ExecutionRequests

-- The code outside the repository, the names of validators, and their public keys, if known.
pub record Outside : Type 0 where
  pub match_string : String → String → Option Bool
  pub equal_fold : String → String → Bool
  pub from_hex : String → String
  pub intersect : List ℕ → List ℕ → List ℕ
  pub get_validator_name : ℕ → String
  pub validator_set : Option (List (ℕ × String))
