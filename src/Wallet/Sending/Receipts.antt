-- ===== src/Wallet/Sending/Receipts.antt =====
-- Loading a receipt ends after six attempts (wallet/wallet.go, loadTransactionReceipt).
use native.Mathlib.Nat.{mod-lt}
use assertoor.Wallet.Sending.{
  Loading, loaded, panics, fuel_out, clients_for, attempt, load_transaction_receipt,
}
use assertoor.Prelude.{
  ℕ, zero, suc, ◌+◌, ◌-◌, ◌%◌, ◌≤◌, ◌<◌, ◌≡◌, refl, ap, inl, inr, Option, none, some, List, [], ◌∷◌,
  arith, ltb, ◌==◌, if◌then◌else◌, Bool-cases, length, get_elem?, nat_key, string_key,
}

get_elem?_inside {ℓ} :
    {A : Type ℓ} (i : ℕ) (xs : List A) → i < length xs → (x : A) × (get_elem? xs i ≡ some x)
get_elem?_inside i [] h = absurd (omega arith)
get_elem?_inside zero (x ∷ xs) h = (x, refl)
get_elem?_inside (suc i) (x ∷ xs) h = get_elem?_inside i xs (omega arith)

clients_for-length {ℓ} :
    {C : Type ℓ} (seen ready : List C) → 0 < length ready → 0 < length (clients_for seen ready)
clients_for-length [] ready h = h
clients_for-length (c ∷ seen) ready h = ground arith

module _ {ℓ} {C : Type ℓ} {R : Type 0} where
  -- What loading from the attempt `retry` on should end with: the first receipt, or none when all
  -- attempts up to the sixth fail.
  abbrev pub IsLoaded :
      (seen : ℕ → List C)
      → (ready : List C) → (fetch : ℕ → C → Option R) → (retry : ℕ) → Loading R
      → Type 0
  IsLoaded seen ready fetch retry (loaded (some r) attempts) =
      (attempts ≤ 6)
      × (attempt seen ready fetch (attempts - 1) ≡ some (some r))
      × ((i : ℕ) → retry ≤ i → i < attempts - 1 → attempt seen ready fetch i ≡ some none)
  IsLoaded seen ready fetch retry (loaded none attempts) =
      (attempts ≡ 6) × ((i : ℕ) → retry ≤ i → i < 6 → attempt seen ready fetch i ≡ some none)
  IsLoaded seen ready fetch retry panics = ⊥
  IsLoaded seen ready fetch retry fuel_out = ⊥

  -- One of the clients can be asked in every attempt.
  attempt-some :
      (seen : ℕ → List C) (ready : List C) (fetch : ℕ → C → Option R) (retry : ℕ)
      → 0 < length ready
      → (o : Option R) × (attempt seen ready fetch retry ≡ some o)
  unfolding attempt
  attempt-some seen ready fetch retry h =
      let clients = clients_for (seen retry) ready in
      let (c, here) =
        get_elem?_inside (retry % length clients) clients
          (mod-lt retry (clients_for-length (seen retry) ready h)) in
      (
        fetch retry c,
        ap (λ (o : Option C). elim o [ none ↦ none | some x ↦ some (fetch retry x) ]) here,
      )

  earlier :
      (seen : ℕ → List C) (ready : List C) (fetch : ℕ → C → Option R) (retry : ℕ) (l : Loading R)
      → attempt seen ready fetch retry ≡ some none
      → IsLoaded seen ready fetch (retry + 1) l
      → IsLoaded seen ready fetch retry l
  earlier seen ready fetch retry (loaded (some r) n) now (most, here, before) = (
    most,
    here,
    λ i from to. elim (Bool-cases (i == retry)) [
      | inl same ↦ ground arith
      | inr later ↦ before i (ground arith) to
    ],
  )
  earlier seen ready fetch retry (loaded none n) now (most, before) = (
    most,
    λ i from to. elim (Bool-cases (i == retry)) [
      | inl same ↦ ground arith
      | inr later ↦ before i (ground arith) to
    ],
  )
  earlier seen ready fetch retry panics now h = h
  earlier seen ready fetch retry fuel_out now h = h

  loaded-now :
      (seen : ℕ → List C) (ready : List C) (fetch : ℕ → C → Option R) (retry : ℕ) (o : Option R)
      (l : Loading R)
      → retry ≤ 5
      → attempt seen ready fetch retry ≡ some o
      → (retry + 1 ≤ 5 → IsLoaded seen ready fetch (retry + 1) l)
      → IsLoaded seen ready fetch retry (elim o [
        | some r ↦ loaded (some r) (retry + 1)
        | none ↦ if ltb retry 5 then l else loaded none (retry + 1)
      ])
  loaded-now seen ready fetch retry (some r) l low now rest =
      let same : retry + 1 - 1 ≡ retry = omega arith in
      (omega arith, rw same now, λ i from to. absurd (omega arith))
  loaded-now seen ready fetch retry none l low now rest = elim (Bool-cases (ltb retry 5)) [
    | inl again ↦ rw again (earlier seen ready fetch retry l now (rest (ground arith)))
    | inr last ↦
        let six : retry ≡ 5 = ground arith in
        rw last (omega arith, λ i from to. let only : retry ≡ i = omega arith in rw only at now)
  ]

  load_step :
      (seen : ℕ → List C) (ready : List C) (fetch : ℕ → C → Option R) (fuel retry : ℕ)
      (o : Option R)
      → attempt seen ready fetch retry ≡ some o
      → load_transaction_receipt seen ready fetch (suc fuel) retry ≡ (elim o [
        | some r ↦ loaded (some r) (retry + 1)
        | none ↦
            if ltb retry 5
            then load_transaction_receipt seen ready fetch fuel (retry + 1)
            else loaded none (retry + 1)
      ])
  unfolding load_transaction_receipt
  load_step seen ready fetch fuel retry (some r) now = ground arith
  load_step seen ready fetch fuel retry none now = ground arith

  load_from :
      (seen : ℕ → List C) (ready : List C) (fetch : ℕ → C → Option R) (fuel retry : ℕ)
      → 0 < length ready
      → retry ≤ 5
      → 6 ≤ fuel + retry
      → IsLoaded seen ready fetch retry (load_transaction_receipt seen ready fetch fuel retry)
  load_from seen ready fetch zero retry h low enough = absurd (omega arith)
  load_from seen ready fetch (suc fuel) retry h low enough =
      let (o, now) = attempt-some seen ready fetch retry h in
      let rest = load_from seen ready fetch fuel (retry + 1) h in
      rw (load_step seen ready fetch fuel retry o now)
        (loaded-now seen ready fetch retry o _ low now (λ again. rest again (omega arith)))

  -- With one ready client to fall back to, loading a receipt never panics and ends within six
  -- attempts: with the receipt of the first attempt that finds one, or with none when all six failed.
  pub load_transaction_receipt-IsLoaded :
      (seen : ℕ → List C) (ready : List C) (fetch : ℕ → C → Option R) (fuel : ℕ)
      → 0 < length ready
      → 6 ≤ fuel
      → IsLoaded seen ready fetch 0 (load_transaction_receipt seen ready fetch fuel 0)
  load_transaction_receipt-IsLoaded seen ready fetch fuel h enough =
      load_from seen ready fetch fuel 0 h (omega arith) (omega arith)
