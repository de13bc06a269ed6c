-- ===== src/Wallet/Account/Balance.antt =====
-- What the transactions on their way cost a wallet (wallet/wallet.go).
use assertoor.Prelude.Int.{pos, ◌+ℤ◌}
use assertoor.Wallet.Account.{
  Tx, Receipt, Wallet, finish_load, build_transaction, get_tx_nonce_chan,
  process_transaction_inclusion, process_transaction_receival,
}
use assertoor.Prelude.{
  ℕ, ◌+◌, ◌≡◌, Bool, true, Option, some, List, [], ◌∷◌, ◌++◌, length, nat_key, string_key,
}

abbrev pub total : List Tx → ℕ
total [] = 0
total (tx ∷ txs) = tx.value + total txs

-- The nonces of the transactions follow each other from a nonce on.
abbrev IsConsecutive : ℕ → List Tx → Type 0
IsConsecutive n [] = Unit
IsConsecutive n (tx ∷ txs) = (tx.nonce ≡ n) × IsConsecutive (n + 1) txs

-- A wallet that is the only user of its account, with the transactions it has built and that are
-- not included yet.
pub data InFlight : Wallet → List Tx → Type 0 where
  synced : (w : Wallet) → (nonce balance : ℕ) → InFlight (finish_load nonce balance w) []
  built :
      {w : Wallet}
      → {txs : List Tx} → (build_fn : ℕ → Option Tx) → (signs : Tx → Bool) → (tx : Tx)
      → build_fn w.pending_nonce ≡ some tx
      → signs tx ≡ true
      → tx.nonce ≡ w.pending_nonce
      → InFlight w txs
      → InFlight (build_transaction build_fn signs w).0 (txs ++ tx ∷ [])
  awaited :
      {w : Wallet}
      → {txs : List Tx} → (nonce : ℕ) → InFlight w txs
      → InFlight (get_tx_nonce_chan nonce w).0 txs
  included :
      {w : Wallet}
      → {txs : List Tx} → (block_number : ℕ) → (tx : Tx) → (r : Receipt) → InFlight w (tx ∷ txs)
      → InFlight (process_transaction_inclusion block_number tx (some r) w) txs
  received :
      {w : Wallet}
      → {txs : List Tx} → (tx : Tx) → InFlight w txs
      → InFlight (process_transaction_receival tx w) txs

abbrev IsEven : Wallet → List Tx → Type 0
IsEven w txs =
    (w.is_ready ≡ true)
    × IsConsecutive w.confirmed_nonce txs
    × (w.pending_nonce ≡ w.confirmed_nonce + length txs)
    × (w.pending_balance +ℤ pos (total txs) ≡ w.confirmed_balance)
