-- ===== src/Wallet/Manager/Settled.antt =====
-- What the wallets hold together (wallet/manager.go and wallet/wallet.go).
use assertoor.Prelude.Int.{ℤ, pos, ◌+ℤ◌, ◌-ℤ◌, above, below, +ℤ-parts, -ℤ-parts, ℤ-parts_eq}
use assertoor.Wallet.Account.{
  Tx, Receipt, Wallet, load_state, process_transaction_inclusion, process_transaction_receival,
  confirm_nonce, fee,
}
use assertoor.Wallet.Manager.{BlockTx, on_wallet, resync_authorities, process_transaction}
use assertoor.Prelude.{
  ℕ, ◌≤◌, ◌≡◌, refl, ap, ◌∙◌, inl, inr, true, Option, none, some, List, [], ◌∷◌, arith, ◌==◌,
  Bool-cases, nat_key, string_key, lookup,
}

-- The confirmed balances of all wallets.
abbrev pub worth : List (ℕ × Wallet) → ℤ
worth [] = pos 0
worth ((a, w) ∷ wallets) = w.confirmed_balance +ℤ worth wallets

swap_sum : (x r s : ℤ) → x +ℤ r +ℤ s ≡ s +ℤ r +ℤ x
swap_sum x r s =
    ℤ-parts_eq _ _
      (ground (arith, +ℤ-parts x r, +ℤ-parts s r, +ℤ-parts (x +ℤ r) s, +ℤ-parts (s +ℤ r) x))

sum_front : (x p q s t : ℤ) → p +ℤ s ≡ q +ℤ t → x +ℤ p +ℤ s ≡ x +ℤ q +ℤ t
sum_front x p q s t e =
    let parts : (above (p +ℤ s) ≡ above (q +ℤ t)) × (below (p +ℤ s) ≡ below (q +ℤ t)) =
      (ap above e, ap below e) in
    ℤ-parts_eq _ _ (
      omega (
        arith,
        parts.0,
        parts.1,
        +ℤ-parts p s,
        +ℤ-parts q t,
        +ℤ-parts x p,
        +ℤ-parts x q,
        +ℤ-parts (x +ℤ p) s,
        +ℤ-parts (x +ℤ q) t,
      ))

one_wallet : (v w : Wallet) → some v ≡ some w → v ≡ w
one_wallet v w e = cc

-- A call changes what the wallets hold by what it changes in its own wallet.
worth-on_wallet :
    (a : ℕ) (call : Wallet → Wallet) (wallets : List (ℕ × Wallet)) (w : Wallet)
    → lookup a wallets ≡ some w
    → worth (on_wallet a call wallets) +ℤ w.confirmed_balance
      ≡ worth wallets +ℤ (call w).confirmed_balance
unfolding on_wallet lookup
worth-on_wallet a call [] w e = cc
worth-on_wallet a call ((b, v) ∷ wallets) w e = elim (Bool-cases (b == a)) [
  | inl here ↦
      let same : v ≡ w = one_wallet v w (rw here at e) in
      rw (here, same) (swap_sum (call w).confirmed_balance (worth wallets) w.confirmed_balance)
  | inr there ↦
      let ih = worth-on_wallet a call wallets w (rw there at e) in
      rw there (
        sum_front v.confirmed_balance (worth (on_wallet a call wallets)) (worth wallets)
          w.confirmed_balance (call w).confirmed_balance ih)
]

-- A call that keeps the balance of its wallet keeps what the wallets hold.
worth-same :
    (a : ℕ) (call : Wallet → Wallet) (wallets : List (ℕ × Wallet))
    → ((w : Wallet) → (call w).confirmed_balance ≡ w.confirmed_balance)
    → worth (on_wallet a call wallets) ≡ worth wallets
unfolding on_wallet
worth-same a call [] keeps = refl
worth-same a call ((b, v) ∷ wallets) keeps = elim (Bool-cases (b == a)) [
  | inl here ↦ rw here (ap (λ x. x +ℤ worth wallets) (keeps v))
  | inr there ↦ rw there (ap (λ x. v.confirmed_balance +ℤ x) (worth-same a call wallets keeps))
]

load_state-same : (w : Wallet) → (load_state w).confirmed_balance ≡ w.confirmed_balance
unfolding load_state
load_state-same w = ground arith

resync_authorities-worth :
    (authorities : List (Option ℕ)) (wallets : List (ℕ × Wallet))
    → worth (resync_authorities authorities wallets) ≡ worth wallets
unfolding resync_authorities
resync_authorities-worth [] wallets = refl
resync_authorities-worth (none ∷ rest) wallets = resync_authorities-worth rest wallets
resync_authorities-worth (some a ∷ rest) wallets =
    resync_authorities-worth rest (on_wallet a load_state wallets)
    ∙ worth-same a load_state wallets load_state-same

inclusion-confirmed :
    (number : ℕ) (tx : Tx) (r : Receipt) (w : Wallet)
    → w.is_ready ≡ true
    → w.confirmed_nonce ≤ tx.nonce
    → (process_transaction_inclusion number tx (some r) w).confirmed_balance
      ≡ w.confirmed_balance -ℤ pos tx.value -ℤ pos (fee r)
unfolding process_transaction_inclusion confirm_nonce
inclusion-confirmed number tx r w ready wanted = ground arith

inclusion-ready :
    (number : ℕ) (tx : Tx) (r : Receipt) (w : Wallet)
    → (process_transaction_inclusion number tx (some r) w).is_ready ≡ w.is_ready
unfolding process_transaction_inclusion confirm_nonce
inclusion-ready number tx r w = ground arith

receival-confirmed :
    (tx : Tx) (w : Wallet)
    → w.is_ready ≡ true
    → (process_transaction_receival tx w).confirmed_balance ≡ w.confirmed_balance +ℤ pos tx.value
unfolding process_transaction_receival
receival-confirmed tx w ready = ground arith

-- After a call that keeps whether a wallet is ready, the wallets that were ready are.
ready-on_wallet :
    (a b : ℕ) (call : Wallet → Wallet) (wallets : List (ℕ × Wallet)) (v : Wallet)
    → ((w : Wallet) → (call w).is_ready ≡ w.is_ready)
    → lookup b wallets ≡ some v
    → v.is_ready ≡ true
    → (u : Wallet) × (lookup b (on_wallet a call wallets) ≡ some u) × (u.is_ready ≡ true)
unfolding on_wallet lookup
ready-on_wallet a b call [] v keeps e ready = cc
ready-on_wallet a b call ((c, x) ∷ wallets) v keeps e ready = elim (Bool-cases (c == b)) [
  | inl here ↦
      let same : x ≡ v = one_wallet x v (rw here at e) in
      elim (Bool-cases (c == a)) [
        | inl called ↦
            (call x, rw (called, here) refl, keeps x ∙ ap (λ (w : Wallet). w.is_ready) same ∙ ready)
        | inr other ↦ (x, rw (other, here) refl, ap (λ (w : Wallet). w.is_ready) same ∙ ready)
      ]
  | inr there ↦
      let (u, found, still) = ready-on_wallet a b call wallets v keeps (rw there at e) ready in
      elim (Bool-cases (c == a)) [
        | inl called ↦ (v, rw (called, there) (rw there at e), ready)
        | inr other ↦ (u, rw (other, there) found, still)
      ]
]

settle_sum :
    (s s1 s2 c d : ℤ) (x f : ℕ)
    → s1 +ℤ c ≡ s +ℤ (c -ℤ pos x -ℤ pos f)
    → s2 +ℤ d ≡ s1 +ℤ (d +ℤ pos x)
    → s2 +ℤ pos f ≡ s
settle_sum s s1 s2 c d x f sent got =
    let (sent_up, sent_down) : (above (s1 +ℤ c) ≡ above (s +ℤ (c -ℤ pos x -ℤ pos f)))
        × (below (s1 +ℤ c) ≡ below (s +ℤ (c -ℤ pos x -ℤ pos f))) =
      (ap above sent, ap below sent) in
    let (got_up, got_down) : (above (s2 +ℤ d) ≡ above (s1 +ℤ (d +ℤ pos x)))
        × (below (s2 +ℤ d) ≡ below (s1 +ℤ (d +ℤ pos x))) =
      (ap above got, ap below got) in
    ℤ-parts_eq _ s (
      omega (
        arith,
        +ℤ-parts s1 c,
        -ℤ-parts c (pos x),
        -ℤ-parts (c -ℤ pos x) (pos f),
        +ℤ-parts s (c -ℤ pos x -ℤ pos f),
        +ℤ-parts s2 d,
        +ℤ-parts d (pos x),
        +ℤ-parts s1 (d +ℤ pos x),
        +ℤ-parts s2 (pos f),
      ))

-- A transaction of a block from one ready wallet of the manager to another, or to itself, whose
-- nonce was not confirmed before and whose receipt is known: the confirmed balances of all wallets
-- together fall by its fee and by nothing else, whatever wallets it makes the manager synchronise.
pub process_transaction-worth :
    (number : ℕ) (r : Receipt) (t : BlockTx) (wallets : List (ℕ × Wallet)) (a b : ℕ) (v w : Wallet)
    → t.sender ≡ some a
    → t.to ≡ some b
    → lookup a wallets ≡ some w
    → lookup b wallets ≡ some v
    → w.is_ready ≡ true
    → v.is_ready ≡ true
    → w.confirmed_nonce ≤ t.tx.nonce
    → worth (process_transaction number (some r) t wallets) +ℤ pos (fee r) ≡ worth wallets
unfolding process_transaction
process_transaction-worth number r t wallets a b v w sender to from_here to_here ready_w ready_v
      wanted =
    let include = process_transaction_inclusion number t.tx (some r) in
    let sent = on_wallet a include wallets in
    let (u, found, ready_u) =
      ready-on_wallet a b include wallets v (inclusion-ready number t.tx r) to_here ready_v in
    let got = on_wallet b (process_transaction_receival t.tx) sent in
    rw (sender, to)
      (ap (λ x. x +ℤ pos (fee r)) (resync_authorities-worth t.authorities got)
        ∙ settle_sum (worth wallets) (worth sent) (worth got) w.confirmed_balance
            u.confirmed_balance t.tx.value (fee r)
            (worth-on_wallet a include wallets w from_here
              ∙ ap (λ x. worth wallets +ℤ x) (inclusion-confirmed number t.tx r w ready_w wanted))
            (worth-on_wallet b (process_transaction_receival t.tx) sent u found
              ∙ ap (λ x. worth sent +ℤ x) (receival-confirmed t.tx u ready_u)))
