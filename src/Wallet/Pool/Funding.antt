-- ===== src/Wallet/Pool/Funding.antt =====
-- Which child wallets are refilled (wallet/walletpool.go, EnsureFunding).
use mathlib.Core.Path.{subst}
use assertoor.Prelude.Int.{ℤ, ◌-ℤ◌, ltb_ℤ}
use assertoor.Wallet.Pool.{
  Refill, funded, refill_for, build_refills, add_refill, send_refill, send_refills, ensure_funding,
}
use assertoor.Prelude.{
  ℕ, ◌+◌, ◌<◌, ◌≡◌, refl, sym, ap, ◌∙◌, ◌⊎◌, inl, inr, Bool, true, false, Option, none, some, List,
  [], ◌∷◌, arith, if◌then◌else◌, Bool-cases, length, anyb, All, nat_key, string_key,
}

-- The refills that are due: of the children that have the minimum or less, with the amount asked for.
abbrev pub due : (min_balance refill_amount : ℤ) → (idx : ℕ) → List ℤ → List Refill
due min_balance refill_amount idx [] = []
due min_balance refill_amount idx (pending ∷ rest) =
    if ltb_ℤ min_balance pending
    then due min_balance refill_amount (idx + 1) rest
    else record { child = idx; amount = refill_amount }
      ∷ due min_balance refill_amount (idx + 1) rest

-- One round of the loop with what it computes for its child.
build_refills-step :
    (builds : Refill → Bool) (min_balance refill_amount pending : ℤ) (idx : ℕ) (rest : List ℤ)
    (one : Option ℤ × ℤ)
    → refill_for min_balance refill_amount pending ≡ one
    → build_refills builds min_balance refill_amount idx (pending ∷ rest)
      ≡ add_refill builds idx one.0 (build_refills builds one.1 refill_amount (idx + 1) rest)
unfolding build_refills
build_refills-step builds min_balance refill_amount pending idx rest one e =
    ap
      (λ (o : Option ℤ × ℤ).
        add_refill builds idx o.0 (build_refills builds o.1 refill_amount (idx + 1) rest))
      e

-- What a refill that fails leaves is a failure.
add_refill-result :
    (builds : Refill → Bool) (idx : ℕ) (amount : ℤ) (after : List Refill × Bool)
    → (add_refill builds idx (some amount) after).1 ≡ false
    → (builds (record { child = idx; amount = amount }) ≡ true)
      × (after.1 ≡ false)
      × ((add_refill builds idx (some amount) after).0
          ≡ record { child = idx; amount = amount } ∷ after.0)
add_refill-result builds idx amount (txs, failed) e = ground arith

-- With a refill of the minimum at least, the loop gives what is due when no transaction fails.
build_refills-due :
    (builds : Refill → Bool) (min_balance refill_amount : ℤ) (idx : ℕ) (balances : List ℤ)
    → ltb_ℤ refill_amount min_balance ≡ false
    → (build_refills builds min_balance refill_amount idx balances).1 ≡ false
    → ((build_refills builds min_balance refill_amount idx balances).0
        ≡ due min_balance refill_amount idx balances)
      × All (λ t. builds t ≡ true) (due min_balance refill_amount idx balances)
unfolding refill_for build_refills
build_refills-due builds min_balance refill_amount idx [] enough built = (refl, tt)
build_refills-due builds min_balance refill_amount idx (pending ∷ rest) enough built =
    elim (Bool-cases (ltb_ℤ min_balance pending)) [
      | inl rich ↦
          let step =
            build_refills-step builds min_balance refill_amount pending idx rest (none, min_balance)
              (ground arith) in
          let (same, all) =
            build_refills-due builds min_balance refill_amount (idx + 1) rest enough
              (rw step at built) in
          rw (step, rich) (same, all)
      | inr poor ↦
          let step =
            build_refills-step builds min_balance refill_amount pending idx rest
              (some refill_amount, min_balance) (ground arith) in
          let after = build_refills builds min_balance refill_amount (idx + 1) rest in
          let (can, still, whole) =
            add_refill-result builds idx refill_amount after (rw step at built) in
          let (same, all) =
            build_refills-due builds min_balance refill_amount (idx + 1) rest enough still in
          rw (step, poor)
            (whole ∙ ap (◌∷◌ (record { child = idx; amount = refill_amount })) same, (can, all))
    ]

send_refills-All :
    (clients : List (Refill → Bool)) (awaited : Refill → Bool) (txs : List Refill)
    → (send_refills clients awaited txs).1 ≡ false
    → ((send_refills clients awaited txs).0 ≡ txs)
      × All (λ t. (send_refill clients t ≡ true) × (awaited t ≡ true)) txs
unfolding send_refills
send_refills-All clients awaited [] e = (refl, tt)
send_refills-All clients awaited (t ∷ txs) e =
    let (sends, agrees, rest) : (send_refill clients t ≡ true)
        × (awaited t ≡ true)
        × ((send_refills clients awaited txs).1 ≡ false) =
      ground arith in
    let (same, all) = send_refills-All clients awaited txs rest in
    let first : (send_refills clients awaited (t ∷ txs)).0
        ≡ t ∷ (send_refills clients awaited txs).0 =
      rw sends refl in
    (first ∙ ap (◌∷◌ t) same, ((sends, agrees), all))

All-and :
    (builds sends : Refill → Bool) (awaited : Refill → Bool) (txs : List Refill)
    → All (λ t. builds t ≡ true) txs
    → All (λ t. (sends t ≡ true) × (awaited t ≡ true)) txs
    → All (λ t. (builds t ≡ true) × (sends t ≡ true) × (awaited t ≡ true)) txs
All-and builds sends awaited [] all both = tt
All-and builds sends awaited (t ∷ txs) (here, all) ((sent, confirmed), both) =
    ((here, sent, confirmed), All-and builds sends awaited txs all both)

-- With a client, no error means that one of them took the transaction.
send_refill-takes :
    (clients : List (Refill → Bool)) (t : Refill)
    → 0 < length clients
    → send_refill clients t ≡ true
    → anyb (λ client. client t) clients ≡ true
unfolding send_refill
send_refill-takes [] t some_client e = absurd (omega arith)
send_refill-takes (client ∷ []) t some_client e = ground arith
send_refill-takes (client ∷ other ∷ clients) t some_client e =
    ground (arith, send_refill-takes (other ∷ clients) t (omega arith))

All-map :
    (P Q : Refill → Type 0) (ts : List Refill) → ((t : Refill) → P t → Q t) → All P ts → All Q ts
All-map P Q [] f h = tt
All-map P Q (t ∷ ts) f (here, rest) = (f t here, All-map P Q ts f rest)

funded_lem :
    (builds : Refill → Bool) (clients : List (Refill → Bool)) (awaited : Refill → Bool)
    (min_balance refill_amount : ℤ) (pending_limit : ℕ) (balances : List ℤ) (sent : List Refill)
    → ensure_funding builds clients awaited min_balance refill_amount pending_limit balances
      ≡ funded sent false
    → let txs = build_refills builds min_balance refill_amount 0 balances in
      (txs.1 ≡ false)
      × (((txs.0 ≡ []) × (sent ≡ []))
          ⊎ ((sent ≡ (send_refills clients awaited txs.0).0)
              × ((send_refills clients awaited txs.0).1 ≡ false)))
unfolding ensure_funding
funded_lem builds clients awaited min_balance refill_amount pending_limit balances sent e =
    ground arith

-- With a client at least, and a refill that is not below the minimum, funding that ends with no error
-- has built one refill of that amount for each child that had the minimum or less, and no other; some
-- client took each of them, and `AwaitTransaction` returned no error for it (which does not mean that
-- there is a receipt).
pub ensure_funding-due :
    (builds : Refill → Bool) (clients : List (Refill → Bool)) (awaited : Refill → Bool)
    (min_balance refill_amount : ℤ) (pending_limit : ℕ) (balances : List ℤ) (sent : List Refill)
    → 0 < length clients
    → ltb_ℤ refill_amount min_balance ≡ false
    → ensure_funding builds clients awaited min_balance refill_amount pending_limit balances
      ≡ funded sent false
    → (sent ≡ due min_balance refill_amount 0 balances)
      × All
          (λ t. (builds t ≡ true) × (anyb (λ client. client t) clients ≡ true) × (awaited t ≡ true))
          sent
ensure_funding-due builds clients awaited min_balance refill_amount pending_limit balances sent
      some_client enough e =
    let (built, ends) =
      funded_lem builds clients awaited min_balance refill_amount pending_limit balances sent e in
    let (same, all) = build_refills-due builds min_balance refill_amount 0 balances enough built in
    let d = due min_balance refill_amount 0 balances in
    elim ends [
      | inl (nothing, empty) ↦ (empty ∙ sym nothing ∙ same, rw empty tt)
      | inr (send, whole) ↦
          let txs = (build_refills builds min_balance refill_amount 0 balances).0 in
          let (every, both) = send_refills-All clients awaited txs whole in
          let result : sent ≡ d = send ∙ every ∙ same in
          let taken =
            All-map (λ t. (send_refill clients t ≡ true) × (awaited t ≡ true))
              (λ t. (anyb (λ client. client t) clients ≡ true) × (awaited t ≡ true)) txs
              (λ t h. (send_refill-takes clients t some_client h.0, h.1)) both in
          let kept =
            subst
              (λ l. All (λ t. (anyb (λ client. client t) clients ≡ true) × (awaited t ≡ true)) l)
              same taken in
          (
            result,
            subst
                (λ l.
                  All
                    (λ t.
                      (builds t ≡ true)
                      × (anyb (λ client. client t) clients ≡ true)
                      × (awaited t ≡ true))
                    l)
                (sym result)
                (All-and builds (λ t. anyb (λ client. client t) clients) awaited d all kept),
          )
    ]

-- The minimum is lost with the first child that is refilled while the refill is below it: a second
-- child that has the minimum or less gets nothing, if it has more than the first one lacked.
build_refills-skips :
    (builds : Refill → Bool) (min_balance refill_amount pending other : ℤ) (idx : ℕ)
    → ltb_ℤ refill_amount min_balance ≡ true
    → ltb_ℤ min_balance pending ≡ false
    → ltb_ℤ min_balance other ≡ false
    → ltb_ℤ (min_balance -ℤ pending) other ≡ true
    → All
        (λ t. t.child ≡ idx)
        (build_refills builds min_balance refill_amount idx (pending ∷ other ∷ [])).0
unfolding build_refills refill_for
build_refills-skips builds min_balance refill_amount pending other idx short poor lacks more =
    rw (poor, short, more) (ground arith)
