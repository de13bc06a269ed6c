-- ===== src/Wallet/Manager/Blocks.antt =====
-- What a block costs the wallets (wallet/manager.go, processBlockTransactions).
use assertoor.Prelude.Int.{ℤ, pos, ◌+ℤ◌, +ℤ-parts, ℤ-parts_eq}
use assertoor.Wallet.Account.{Receipt, Wallet, process_stale_confirmations}
use assertoor.Wallet.Manager.{
  BlockTx, receipt_at, process_transaction, Loads, finish_loads, process_transactions, check_stale,
  process_block_transactions,
}
use assertoor.Wallet.Manager.Settled.{worth, process_transaction-worth}
use assertoor.Prelude.{
  ℕ, ◌+◌, ◌*◌, ◌≤◌, ◌≡◌, refl, ap, ◌∙◌, true, Option, none, some, List, [], ◌∷◌, arith, nat_key,
  string_key, lookup,
}

-- A transaction with its receipt from one ready wallet to another, or to itself, that confirms its
-- nonce and names no set-code authority.
abbrev IsTransfer : Option Receipt → BlockTx → List (ℕ × Wallet) → Type 0
IsTransfer receipt t wallets =
    (r : Receipt) × (a : ℕ) × (b : ℕ) × (v : Wallet) × (w : Wallet) × (receipt ≡ some r)
    × (t.authorities ≡ [])
    × (t.sender ≡ some a)
    × (t.to ≡ some b)
    × (lookup a wallets ≡ some w)
    × (lookup b wallets ≡ some v)
    × (w.is_ready ≡ true)
    × (v.is_ready ≡ true)
    × (w.confirmed_nonce ≤ t.tx.nonce)

-- Each transaction of a block is one at its turn.
abbrev pub AreTransfers :
    (block_number : ℕ)
    → Option (List Receipt)
    → (idx : ℕ) → List BlockTx
    → List (ℕ × Wallet)
    → Type 0
AreTransfers number receipts idx [] wallets = Unit
AreTransfers number receipts idx (t ∷ txs) wallets =
    IsTransfer (receipt_at receipts idx) t wallets
    × AreTransfers number receipts (idx + 1) txs
        (process_transaction number (receipt_at receipts idx) t wallets)

-- The gas price paid for each unit of gas used.
abbrev fee_of : Option Receipt → ℕ
fee_of none = 0
fee_of (some r) = r.effective_gas_price * r.gas_used

abbrev pub fees : Option (List Receipt) → (idx : ℕ) → List BlockTx → ℕ
fees receipts idx [] = 0
fees receipts idx (t ∷ txs) = fee_of (receipt_at receipts idx) + fees receipts (idx + 1) txs

stale-same :
    (number : ℕ) (last : Option ℕ) (w : Wallet)
    → (process_stale_confirmations number last w).confirmed_balance ≡ w.confirmed_balance
unfolding process_stale_confirmations
stale-same number none w = ground arith
stale-same number (some n) w = ground arith

check_stale-worth :
    (number : ℕ) (last_nonce : ℕ → Option ℕ) (wallets : List (ℕ × Wallet))
    → worth (check_stale number last_nonce wallets) ≡ worth wallets
unfolding check_stale
check_stale-worth number last_nonce [] = refl
check_stale-worth number last_nonce ((a, w) ∷ wallets) =
    ap (λ x. x +ℤ worth (check_stale number last_nonce wallets))
      (stale-same number (last_nonce a) w)
    ∙ ap (λ x. w.confirmed_balance +ℤ x) (check_stale-worth number last_nonce wallets)

add_fee : (s s1 s2 : ℤ) (f g : ℕ) → s1 +ℤ pos f ≡ s → s2 +ℤ pos g ≡ s1 → s2 +ℤ pos (f + g) ≡ s
add_fee s s1 s2 f g one rest =
    ℤ-parts_eq _ s
      (ground (arith, +ℤ-parts s1 (pos f), +ℤ-parts s2 (pos g), +ℤ-parts s2 (pos (f + g))))

no_fee : (s : ℤ) → s +ℤ pos 0 ≡ s
no_fee s = ℤ-parts_eq _ s (omega (arith, +ℤ-parts s (pos 0)))

process_transactions-worth :
    (number : ℕ) (receipts : Option (List Receipt)) (loads : ℕ → Loads) (idx : ℕ)
    (txs : List BlockTx) (wallets : List (ℕ × Wallet))
    → ((k : ℕ) → loads k ≡ [])
    → AreTransfers number receipts idx txs wallets
    → worth (process_transactions number receipts loads idx txs wallets)
        +ℤ pos (fees receipts idx txs)
      ≡ worth wallets
unfolding process_transactions finish_loads
process_transactions-worth number receipts loads idx [] wallets quiet h =
    rw (quiet idx, finish_loads) (no_fee (worth wallets))
process_transactions-worth number receipts loads idx (t ∷ txs) wallets quiet (here, rest) =
    let (
      r, a, b, v, w, known, no_authority, sender, to, from_here, to_here, ready_w, ready_v, wanted,
    ) =
      here in
    let next = process_transaction number (receipt_at receipts idx) t wallets in
    let one : worth next +ℤ pos (fee_of (receipt_at receipts idx)) ≡ worth wallets = rw known (
      process_transaction-worth number r t wallets a b v w sender to from_here to_here ready_w
        ready_v wanted) in
    rw (quiet idx, finish_loads)
      (add_fee (worth wallets) (worth next) _ (fee_of (receipt_at receipts idx))
        (fees receipts (idx + 1) txs) one
        (process_transactions-worth number receipts loads (idx + 1) txs next quiet rest))

-- A block whose transactions are all, at their turn, from one ready wallet of the manager to another
-- or to itself, with a nonce that is not confirmed yet, a known receipt and no set-code authority,
-- and during which no synchronisation of a wallet ends: the confirmed balances
-- of all wallets together fall by the fees of the block, which are the effective gas price times
-- the gas used of each transaction, and by nothing else.
pub process_block_transactions-worth :
    (number : ℕ) (txs : List BlockTx) (receipts : Option (List Receipt)) (loads : ℕ → Loads)
    (last_nonce : ℕ → Option ℕ) (wallets : List (ℕ × Wallet))
    → ((k : ℕ) → loads k ≡ [])
    → AreTransfers number receipts 0 txs wallets
    → worth (process_block_transactions number (some txs) receipts loads last_nonce wallets)
        +ℤ pos (fees receipts 0 txs)
      ≡ worth wallets
unfolding process_block_transactions
process_block_transactions-worth number txs receipts loads last_nonce wallets quiet h =
    ap (λ x. x +ℤ pos (fees receipts 0 txs))
      (check_stale-worth number last_nonce
        (process_transactions number receipts loads 0 txs wallets))
    ∙ process_transactions-worth number receipts loads 0 txs wallets quiet h
