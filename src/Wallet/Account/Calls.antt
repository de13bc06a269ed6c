-- ===== src/Wallet/Account/Calls.antt =====
-- Sequences of calls on a wallet (wallet/wallet.go).
use assertoor.Wallet.Account.{
  Tx, Receipt, Wallet, load_state, finish_load, use_next_nonce, build_transaction,
  get_tx_nonce_chan, process_transaction_inclusion, process_stale_confirmations,
  process_transaction_receival,
}
use assertoor.Prelude.{ℕ, Bool, Option, List, [], ◌∷◌, if◌then◌else◌, nat_key, string_key}

-- What is done to a wallet: `resyncs` starts a synchronisation, and `loads` is the end of the one
-- that runs, if any, with the nonce and balance of the account. Each is one step.
pub data Call : Type 0 where
  uses : (increase : Bool) → Call
  builds : (ℕ → Option Tx) → (Tx → Bool) → Call
  awaits : (nonce : ℕ) → Call
  includes : (block_number : ℕ) → Tx → Option Receipt → Call
  receives : Tx → Call
  checks_stale : (block_number : ℕ) → (last_nonce : Option ℕ) → Call
  resyncs : Call
  loads : (nonce balance : ℕ) → Call

unfoldable pub apply_call : Call → Wallet → Wallet
apply_call (uses increase) w = (use_next_nonce increase w).0
apply_call (builds build_fn signs) w = (build_transaction build_fn signs w).0
apply_call (awaits nonce) w = (get_tx_nonce_chan nonce w).0
apply_call (includes number tx receipt) w = process_transaction_inclusion number tx receipt w
apply_call (receives tx) w = process_transaction_receival tx w
apply_call (checks_stale number last) w = process_stale_confirmations number last w
apply_call resyncs w = load_state w
apply_call (loads nonce balance) w = if w.is_syncing then finish_load nonce balance w else w

unfoldable pub apply_calls : List Call → Wallet → Wallet
apply_calls [] w = w
apply_calls (c ∷ cs) w = apply_calls cs (apply_call c w)
