-- ===== src/Wallet/Pool.antt =====
-- The child wallets of a root wallet (wallet/walletpool.go). All wallets are ready; whether the root
-- wallet can build a transaction, a client takes it and `AwaitTransaction` returns no error for it (its
-- receipt is dropped, and may be nil) are parameters.
pub mod Turns
pub mod Funding
use assertoor.Prelude.Int.{ℤ, ◌-ℤ◌, ltb_ℤ}
use assertoor.Prelude.{
  ℕ, ◌+◌, Bool, true, false, not, ◌||◌, Option, none, some, List, [], ◌∷◌, arith, leb, ◌==◌,
  if◌then◌else◌, length, get_elem?, nat_key, string_key,
}

pub record WalletPool {ℓ} (W : Type ℓ) : Type ℓ where
  pub wallets : List W
  pub next_idx : ℕ

-- A refill of the child wallet with an index.
pub record Refill : Type 0 where
  pub child : ℕ
  pub amount : ℤ

-- How funding ends: `blocks` waits until it is cancelled.
pub data FundingEnd : Type 0 where
  funded : (sent : List Refill) → (failed : Bool) → FundingEnd
  blocks : FundingEnd

module _ {ℓ} {W : Type ℓ} where
  unfoldable get_child_wallet : ℕ → WalletPool W → Option W
  get_child_wallet index p =
      if leb (length p.wallets) index then none else get_elem? p.wallets index

  -- `none` is a panic: there is no wallet.
  unfoldable pub get_next_child_wallet : WalletPool W → Option (W × WalletPool W)
  get_next_child_wallet p = elim (get_elem? p.wallets p.next_idx) [
    | none ↦ none
    | some w ↦ some (
      w,
      record p { next_idx = if leb (length p.wallets) (p.next_idx + 1) then 0 else p.next_idx + 1 },
    )
  ]

-- Whether a child is refilled, with what, and the minimum for the children after it: where the refill
-- is below the minimum, `minBalance.Sub` writes the difference to the minimum itself.
unfoldable pub refill_for : (min_balance refill_amount pending : ℤ) → Option ℤ × ℤ
refill_for min_balance refill_amount pending =
    let diff_amount = min_balance -ℤ pending in
    if ltb_ℤ min_balance pending
    then (none, min_balance)
    else (if ltb_ℤ refill_amount min_balance
        then (
          some (if ltb_ℤ refill_amount diff_amount then diff_amount else refill_amount),
          diff_amount,
        )
        else (some refill_amount, min_balance))

-- A refill that is built stands before those of the later children.
abbrev pub add_refill :
    (builds : Refill → Bool) → (idx : ℕ) → Option ℤ → List Refill × Bool → List Refill × Bool
add_refill builds idx none (txs, failed) = (txs, failed)
add_refill builds idx (some amount) (txs, failed) =
    if builds (record { child = idx; amount = amount })
    then (record { child = idx; amount = amount } ∷ txs, failed)
    else (txs, true)

-- The refills that the root wallet builds, and whether building one failed. The children have the
-- pending balances of the list, the first of them the index `idx`.
unfoldable pub build_refills :
    (builds : Refill → Bool)
    → (min_balance refill_amount : ℤ) → (idx : ℕ) → List ℤ
    → List Refill × Bool
unfolding refill_for
build_refills builds min_balance refill_amount idx [] = ([], false)
build_refills builds min_balance refill_amount idx (pending ∷ rest) =
    let (amount, next) = refill_for min_balance refill_amount pending in
    add_refill builds idx amount (build_refills builds next refill_amount (idx + 1) rest)

-- Whether `SendTransaction` leaves no error: the clients are asked in their order until one takes
-- the transaction. With no client nothing is sent, and there is no error.
unfoldable pub send_refill : List (Refill → Bool) → Refill → Bool
send_refill [] tx = true
send_refill (client ∷ []) tx = client tx
send_refill (client ∷ other ∷ clients) tx = client tx || send_refill (other ∷ clients) tx

-- The first one that cannot be sent ends the loop.
unfoldable pub send_refills :
    List (Refill → Bool) → (awaited : Refill → Bool) → List Refill → List Refill × Bool
unfolding send_refill
send_refills clients awaited [] = ([], false)
send_refills clients awaited (tx ∷ txs) =
    let (sent, failed) = send_refills clients awaited txs in
    if send_refill clients tx then (tx ∷ sent, failed || not (awaited tx)) else ([], true)

-- The slots of the channel are freed only by those that were sent: with no slot the first one waits.
unfoldable pub ensure_funding :
    (builds : Refill → Bool)
    → List (Refill → Bool)
    → (awaited : Refill → Bool) → (min_balance refill_amount : ℤ) → (pending_limit : ℕ) → List ℤ
    → FundingEnd
unfolding build_refills send_refills
ensure_funding builds clients awaited min_balance refill_amount pending_limit balances =
    let (txs, failed) = build_refills builds min_balance refill_amount 0 balances in
    let (sent, unsent) = send_refills clients awaited txs in
    if length txs == 0
    then funded [] failed
    else (if pending_limit == 0 then blocks else funded sent (failed || unsent))
