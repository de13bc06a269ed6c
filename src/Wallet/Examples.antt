-- ===== src/Wallet/Examples.antt =====
-- Runs of wallets on small inputs (wallet).
use assertoor.Prelude.{
  ℕ, ◌+◌, ◌-◌, ◌*◌, ◌≤◌, String, ◌≡◌, refl, ◌⊎◌, inl, Bool, true, false, Option, none, some, List,
  [], ◌∷◌, ◌++◌, arith, ◌==◌, if◌then◌else◌, anyb, All, nat_key, string_key, lookup, insert,
}
use assertoor.Prelude.Int.{ℤ, pos, ◌+ℤ◌}
use assertoor.Wallet.Account.{
  load_state, process_transaction_receival, process_transaction_inclusion, Tx, Receipt, Wallet,
  new_wallet, finish_load, get_tx_nonce_chan, build_transaction,
}
use assertoor.Wallet.Account.Closing.{closed_at}
use assertoor.Wallet.Account.Calls.{
  Call, builds, awaits, includes, checks_stale, resyncs, loads, apply_call, apply_calls,
}
use assertoor.Wallet.Account.Counting.{closes_of}
use assertoor.Wallet.Account.Once.{apply_calls-closes_once, await-IsWoken}
use assertoor.Wallet.Sending.{send_transaction, load_transaction_receipt}
use assertoor.Wallet.Sending.Rotation.{rotate, until_sent, send_transaction-until_sent}
use assertoor.Wallet.Sending.Receipts.{IsLoaded, load_transaction_receipt-IsLoaded}
use assertoor.Wallet.Manager.{
  BlockTx, receipt_at, on_wallet, resync_authorities, process_transaction,
  process_block_transactions,
}
use assertoor.Wallet.Manager.Settled.{worth}
use assertoor.Wallet.Manager.Blocks.{AreTransfers, fees, process_block_transactions-worth}
use assertoor.Wallet.Pool.{Refill, funded, build_refills, send_refill, ensure_funding}
use assertoor.Wallet.Pool.Funding.{due, ensure_funding-due}
use assertoor.Wallet.Blob.{zeros, BlobCommitment, encode_blob, encode_blob_data}
use assertoor.Wallet.Blob.RoundTrip.{decode, encode_blob-decode}

abbrev payment : ℕ → Tx
payment n = record { hash = 100 + n; nonce = n; value = 30 }

abbrev paid : ℕ → Receipt
paid n = record { tx_hash = 100 + n; effective_gas_price = 2; gas_used = 5 }

abbrev pays : ℕ → Option Tx
pays n = some (payment n)

abbrev signs : Tx → Bool
signs tx = true

abbrev before : List Call
before = resyncs ∷ loads 7 520 ∷ builds pays signs ∷ builds pays signs ∷ awaits 7 ∷ []

abbrev after : List Call
after =
    includes 20 (payment 7) (some (paid 7))
    ∷ awaits 8
    ∷ resyncs
    ∷ loads 8 430
    ∷ checks_stale 40 (some 9)
    ∷ []

apply_calls-closes_once_example :
    closes_of 1
      (apply_calls
        (awaits 7
          ∷ awaits 8
          ∷ resyncs
          ∷ loads 9 60
          ∷ includes 20 (payment 8) none
          ∷ checks_stale 40 (some 9)
          ∷ [])
        (finish_load 7 500 new_wallet)).statuses
    ≤ 1
apply_calls-closes_once_example = apply_calls-closes_once 7 500 1 (
    awaits 7
    ∷ awaits 8
    ∷ resyncs
    ∷ loads 9 60
    ∷ includes 20 (payment 8) none
    ∷ checks_stale 40 (some 9)
    ∷ [])

waits_for_8 : (get_tx_nonce_chan 8 (apply_calls before (finish_load 7 500 new_wallet))).1 ≡ some 1
unfolding get_tx_nonce_chan apply_calls finish_load new_wallet build_transaction lookup insert
    apply_call load_state
waits_for_8 = refl

await-IsWoken_example :
    let v =
      apply_calls after
        (get_tx_nonce_chan 8 (apply_calls before (finish_load 7 500 new_wallet))).0 in
    ((lookup 8 v.tx_nonce_chans ≡ some 1) × (v.confirmed_nonce ≤ 8))
    ⊎ (closed_at 1 v.statuses ≡ true)
await-IsWoken_example =
    await-IsWoken 7 500 8 1 before after (refl, (refl, (refl, (refl, (refl, tt))))) waits_for_8

abbrev loaded_wallet : Wallet
loaded_wallet = finish_load 7 500 new_wallet

abbrev after_payment : Wallet
after_payment = (build_transaction pays signs loaded_wallet).0

abbrev refuses : ℕ → Option String
refuses client = if client == 2 then none else some "refused"

send_transaction-until_sent_example :
    send_transaction (1 ∷ 2 ∷ 3 ∷ []) 5 refuses
    ≡ until_sent refuses (rotate 2 (1 ∷ 2 ∷ 3 ∷ [])) none
send_transaction-until_sent_example =
    send_transaction-until_sent (1 ∷ 2 ∷ 3 ∷ []) 5 refuses (omega arith)

abbrev never : ℕ → ℕ → Option ℕ
never retry client = if retry == 2 then some client else none

load_transaction_receipt-IsLoaded_example :
    IsLoaded
      (λ retry. [])
      (4 ∷ 5 ∷ [])
      never
      0
      (load_transaction_receipt (λ retry. []) (4 ∷ 5 ∷ []) never 6 0)
load_transaction_receipt-IsLoaded_example =
    load_transaction_receipt-IsLoaded (λ retry. []) (4 ∷ 5 ∷ []) never 6 (omega arith) (omega arith)

abbrev two_wallets : List (ℕ × Wallet)
two_wallets = (1, finish_load 7 500 new_wallet) ∷ (2, finish_load 0 20 new_wallet) ∷ []

abbrev transfer : BlockTx
transfer = record { tx = payment 7; sender = some 1; to = some 2; authorities = [] }

-- The receiver pays too, to itself.
abbrev to_itself : BlockTx
to_itself = record { tx = payment 0; sender = some 2; to = some 2; authorities = [] }

abbrev receipts : Option (List Receipt)
receipts = some (paid 7 ∷ paid 0 ∷ [])

abbrev receiver : Wallet
receiver = process_transaction_receival (payment 7) (finish_load 0 20 new_wallet)

both_transfer : AreTransfers 20 receipts 0 (transfer ∷ to_itself ∷ []) two_wallets
unfolding finish_load lookup receipt_at process_transaction on_wallet resync_authorities
    process_transaction_receival process_transaction_inclusion
both_transfer = (
  (
    paid 7,
    1,
    2,
    finish_load 0 20 new_wallet,
    finish_load 7 500 new_wallet,
    refl,
    refl,
    refl,
    refl,
    refl,
    refl,
    refl,
    refl,
    omega arith,
  ),
  (
    (paid 0, 2, 2, receiver, receiver, refl, refl, refl, refl, refl, refl, refl, refl, omega arith),
    tt,
  ),
)

process_block_transactions-worth_example :
    worth (
        process_block_transactions 20
          (some (transfer ∷ to_itself ∷ []))
          receipts
          (λ k. [])
          (λ a. some 9)
          two_wallets)
      +ℤ pos (fees receipts 0 (transfer ∷ to_itself ∷ []))
    ≡ worth two_wallets
process_block_transactions-worth_example =
    process_block_transactions-worth 20 (transfer ∷ to_itself ∷ []) receipts (λ k. []) (λ a. some 9)
      two_wallets (λ k. refl) both_transfer

abbrev balances : List ℤ
balances = pos 3 ∷ pos 50 ∷ pos 10 ∷ []

abbrev yes_to : Refill → Bool
yes_to t = true

abbrev two_refills : List Refill
two_refills = record { child = 0; amount = pos 20 } ∷ record { child = 2; amount = pos 20 } ∷ []

all_funded :
    ensure_funding yes_to (yes_to ∷ []) yes_to (pos 10) (pos 20) 2 balances
    ≡ funded two_refills false
unfolding ensure_funding build_refills send_refill
all_funded = refl

ensure_funding-due_example :
    (two_refills ≡ due (pos 10) (pos 20) 0 balances)
    × All
        (λ t.
          (yes_to t ≡ true) × (anyb (λ client. client t) (yes_to ∷ []) ≡ true) × (yes_to t ≡ true))
        two_refills
ensure_funding-due_example =
    ensure_funding-due yes_to (yes_to ∷ []) yes_to (pos 10) (pos 20) 2 balances two_refills
      (omega arith) refl all_funded

abbrev bytes : List ℕ
bytes = 7 ∷ 8 ∷ 9 ∷ []

abbrev encoded : BlobCommitment ℕ
encoded = record {
  blob = encode_blob_data 1 bytes;
  commitment = 5;
  proof = 6;
  versioned_hash = 1 ∷ 4 ∷ [];
}

is_encoded :
    encode_blob 1 32 (λ blob. some 5) (λ blob c. some 6) (λ c. 3 ∷ 4 ∷ []) bytes ≡ inl encoded
unfolding encode_blob
is_encoded = refl

encode_blob-decode_example : (3 ≤ 1 * 31) × (decode 1 encoded.blob ≡ bytes ++ zeros (1 * 31 - 3))
encode_blob-decode_example =
    encode_blob-decode 1 32 (λ blob. some 5) (λ blob c. some 6) (λ c. 3 ∷ 4 ∷ []) bytes encoded refl
      is_encoded
