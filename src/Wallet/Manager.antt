-- ===== src/Wallet/Manager.antt =====
-- The manager of the wallets and what it does with each block (wallet/manager.go). A wallet is
-- changed in place: the list of wallets is the map of the manager, with addresses as numbers.
pub mod Settled
pub mod Blocks
use assertoor.Wallet.Account.{
  Tx, Receipt, Wallet, new_wallet, load_state, finish_load, process_transaction_inclusion,
  process_stale_confirmations, process_transaction_receival,
}
use assertoor.Prelude.{
  ℕ, ◌+◌, Option, none, some, List, [], ◌∷◌, arith, ◌==◌, if◌then◌else◌, get_elem?, nat_key,
  string_key, lookup, insert,
}

-- A transaction of a block: its sender and its authorities, where they can be decoded.
pub record BlockTx : Type 0 where
  pub tx : Tx
  pub sender : Option ℕ
  pub to : Option ℕ
  pub authorities : List (Option ℕ)

unfoldable get_wallet_by_address : ℕ → List (ℕ × Wallet) → List (ℕ × Wallet) × Wallet
get_wallet_by_address address wallets = elim (lookup address wallets) [
  | some w ↦ (wallets, w)
  | none ↦ (insert address new_wallet wallets, new_wallet)
]

-- A call of an operation of the wallet of an address, if the manager has it.
unfoldable pub on_wallet : ℕ → (Wallet → Wallet) → List (ℕ × Wallet) → List (ℕ × Wallet)
on_wallet address call [] = []
on_wallet address call ((a, w) ∷ wallets) =
    let rest = on_wallet address call wallets in
    if a == address then (a, call w) ∷ wallets else (a, w) ∷ rest

-- The receipt of the transaction at an index, `none` where the receipts were not loaded.
unfoldable pub receipt_at : Option (List Receipt) → ℕ → Option Receipt
receipt_at none idx = none
receipt_at (some receipts) idx = get_elem? receipts idx

abbrev on_receiver : BlockTx → List (ℕ × Wallet) → List (ℕ × Wallet)
on_receiver t wallets = elim t.to [
  | none ↦ wallets
  | some a ↦ on_wallet a (process_transaction_receival t.tx) wallets
]

-- A synchronisation is started for the wallets of the authorities of a set-code transaction. Its
-- end, which the goroutine brings about later and without a lock, is one of `finish_loads`.
unfoldable pub resync_authorities : List (Option ℕ) → List (ℕ × Wallet) → List (ℕ × Wallet)
resync_authorities [] wallets = wallets
resync_authorities (none ∷ as_left) wallets = resync_authorities as_left wallets
resync_authorities (some a ∷ as_left) wallets =
    resync_authorities as_left (on_wallet a load_state wallets)

-- One round of the loop: a sender that cannot be decoded skips the rest of it.
unfoldable pub process_transaction :
    (block_number : ℕ) → Option Receipt → BlockTx → List (ℕ × Wallet) → List (ℕ × Wallet)
unfolding resync_authorities on_wallet
process_transaction number receipt t wallets = elim t.sender [
  | none ↦ wallets
  | some a ↦
      resync_authorities t.authorities
        (on_receiver t (on_wallet a (process_transaction_inclusion number t.tx receipt) wallets))
]

-- The ends of synchronisations: each an address with the nonce and balance of its account.
abbrev pub Loads : Type 0
Loads = List (ℕ × ℕ × ℕ)

abbrev end_load : (nonce balance : ℕ) → Wallet → Wallet
end_load nonce balance w = if w.is_syncing then finish_load nonce balance w else w

unfoldable pub finish_loads : Loads → List (ℕ × Wallet) → List (ℕ × Wallet)
unfolding on_wallet
finish_loads [] wallets = wallets
finish_loads ((a, nonce, balance) ∷ loads) wallets =
    finish_loads loads (on_wallet a (end_load nonce balance) wallets)

-- `loads` says which synchronisations end before the transaction at an index, or after the last one.
unfoldable pub process_transactions :
    (block_number : ℕ)
    → Option (List Receipt)
    → (loads : ℕ → Loads) → (idx : ℕ) → List BlockTx
    → List (ℕ × Wallet)
    → List (ℕ × Wallet)
unfolding process_transaction receipt_at finish_loads
process_transactions number receipts loads idx [] wallets = finish_loads (loads idx) wallets
process_transactions number receipts loads idx (t ∷ txs) wallets =
    process_transactions number receipts loads (idx + 1) txs
      (process_transaction number (receipt_at receipts idx) t (finish_loads (loads idx) wallets))

-- `last_nonce` is what a client answers for the nonce of an address.
unfoldable pub check_stale :
    (block_number : ℕ) → (last_nonce : ℕ → Option ℕ) → List (ℕ × Wallet) → List (ℕ × Wallet)
check_stale number last_nonce [] = []
check_stale number last_nonce ((a, w) ∷ wallets) =
    (a, process_stale_confirmations number (last_nonce a) w) ∷ check_stale number last_nonce wallets

-- `body` is what the block's body was loaded as, if it was in time.
unfoldable pub process_block_transactions :
    (block_number : ℕ)
    → (body : Option (List BlockTx)) → Option (List Receipt)
    → (loads : ℕ → Loads) → (last_nonce : ℕ → Option ℕ) → List (ℕ × Wallet)
    → List (ℕ × Wallet)
unfolding process_transactions check_stale
process_block_transactions number none receipts loads last_nonce wallets = wallets
process_block_transactions number (some txs) receipts loads last_nonce wallets =
    check_stale number last_nonce (process_transactions number receipts loads 0 txs wallets)
