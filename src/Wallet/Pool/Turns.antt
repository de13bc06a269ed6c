-- ===== src/Wallet/Pool/Turns.antt =====
-- The child wallets take turns (wallet/walletpool.go, GetNextChildWallet).
use assertoor.Wallet.Sending.Rotation.{rotate}
use assertoor.Wallet.Pool.{WalletPool, get_next_child_wallet}
use assertoor.Prelude.{
  ℕ, zero, suc, ◌+◌, ◌-◌, ◌<◌, ◌≡◌, refl, sym, ◌∙◌, true, false, Option, none, some, List, [], ◌∷◌,
  ◌++◌, arith, leb, if◌then◌else◌, length, get_elem?, take, drop, drop_all, nat_key, string_key,
}

module _ {ℓ} {W : Type ℓ} where
  -- Some calls one after the other: the wallets they return, and the pool after them.
  unfoldable pub next_child_wallets : ℕ → WalletPool W → Option (List W × WalletPool W)
  unfolding get_next_child_wallet
  next_child_wallets zero p = some ([], p)
  next_child_wallets (suc n) p = elim (get_next_child_wallet p) [
    | none ↦ none
    | some (w, q) ↦ elim (next_child_wallets n q) [ none ↦ none | some (ws, r) ↦ some (w ∷ ws, r) ]
  ]

  abbrev at_turn : List W → ℕ → WalletPool W
  at_turn wallets i = record { wallets = wallets; next_idx = i }

  drop_at :
      (i : ℕ) (xs : List W)
      → i < length xs
      → (x : W) × (get_elem? xs i ≡ some x) × (drop i xs ≡ x ∷ drop (suc i) xs)
  drop_at i [] h = absurd (omega arith)
  drop_at zero (x ∷ xs) h = (x, refl, refl)
  drop_at (suc i) (x ∷ xs) h = drop_at i xs (omega arith)

  turn :
      (wallets : List W) (i : ℕ) (w : W)
      → get_elem? wallets i ≡ some w
      → get_next_child_wallet (at_turn wallets i)
        ≡ some (w, at_turn wallets (if leb (length wallets) (i + 1) then 0 else i + 1))
  unfolding get_next_child_wallet
  turn wallets i w here = ground arith

  turn_then :
      (n : ℕ) (p q r : WalletPool W) (w : W) (ws : List W)
      → get_next_child_wallet p ≡ some (w, q)
      → next_child_wallets n q ≡ some (ws, r)
      → next_child_wallets (suc n) p ≡ some (w ∷ ws, r)
  unfolding next_child_wallets
  turn_then n p q r w ws first rest = ground arith

  -- Up to the end of the list the calls return what follows,
  turns_before_end :
      (wallets : List W) (n i : ℕ)
      → i + n < length wallets
      → next_child_wallets n (at_turn wallets i)
        ≡ some (take n (drop i wallets), at_turn wallets (i + n))
  unfolding next_child_wallets
  turns_before_end wallets zero i h = let same : i + zero ≡ i = omega arith in rw same refl
  turns_before_end wallets (suc n) i h =
      let (w, here, next) = drop_at i wallets (omega arith) in
      let step : i + 1 ≡ suc i = omega arith in
      let more : leb (length wallets) (i + 1) ≡ false = ground arith in
      let moved : get_next_child_wallet (at_turn wallets i) ≡ some (w, at_turn wallets (suc i)) =
        turn wallets i w here ∙ rw (more, step) refl in
      let rest = turns_before_end wallets n (suc i) (omega arith) in
      let sum : suc i + n ≡ i + suc n = omega arith in
      rw (next, sym sum)
        (turn_then n (at_turn wallets i) (at_turn wallets (suc i)) (at_turn wallets (suc i + n)) w
          (take n (drop (suc i) wallets)) moved rest)

  -- and at its end they start again.
  turns_round :
      (wallets : List W) (n m i : ℕ) (vs : List W) (r : WalletPool W)
      → i + suc n ≡ length wallets
      → next_child_wallets m (at_turn wallets 0) ≡ some (vs, r)
      → next_child_wallets (suc n + m) (at_turn wallets i) ≡ some (drop i wallets ++ vs, r)
  turns_round wallets zero m i vs r h rest =
      let (w, here, next) = drop_at i wallets (omega arith) in
      let last : leb (length wallets) (i + 1) ≡ true = ground arith in
      let empty = drop_all (suc i) wallets (omega arith) in
      let count : suc zero + m ≡ suc m = omega arith in
      rw (next, empty, count)
        (turn_then m (at_turn wallets i) (at_turn wallets 0) r w vs
          (turn wallets i w here ∙ rw last refl) rest)
  turns_round wallets (suc n) m i vs r h rest =
      let (w, here, next) = drop_at i wallets (omega arith) in
      let step : i + 1 ≡ suc i = omega arith in
      let more : leb (length wallets) (i + 1) ≡ false = ground arith in
      let count : suc (suc n) + m ≡ suc (suc n + m) = omega arith in
      rw (next, count)
        (turn_then (suc n + m) (at_turn wallets i) (at_turn wallets (suc i)) r w
          (drop (suc i) wallets ++ vs) (turn wallets i w here ∙ rw (more, step) refl)
          (turns_round wallets n m (suc i) vs r (omega arith) rest))

  -- As many calls as there are wallets, from any turn on, return each wallet once, in their order
  -- round the end of the list, and leave the turn where it was.
  next_child_wallets-rotate :
      (wallets : List W) (i : ℕ)
      → i < length wallets
      → next_child_wallets (length wallets) (record { wallets = wallets; next_idx = i })
        ≡ some (rotate i wallets, record { wallets = wallets; next_idx = i })
  next_child_wallets-rotate wallets i h =
      let start = turns_before_end wallets i 0 (omega arith) in
      let here : 0 + i ≡ i = omega arith in
      let count : suc (length wallets - i - 1) + i ≡ length wallets = omega arith in
      rw count at (
        turns_round wallets (length wallets - i - 1) i i (take i wallets) (at_turn wallets i)
          (omega arith) (rw here at start))
