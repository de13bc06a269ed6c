-- ===== src/Wallet/Sending/Rotation.antt =====
-- The order in which the clients are asked to send (wallet/wallet.go, SendTransaction).
use native.Mathlib.Nat.{mod-eq_of_lt, mod-lt, add-mod-mod, mod-eq-sub-mod}
use assertoor.Wallet.Sending.{Sent, ask, client_at, send_loop, send_transaction, rebroadcast}
use assertoor.Prelude.{
  ℕ, zero, suc, ◌+◌, ◌-◌, ◌%◌, ◌^◌, ◌≤◌, ◌<◌, ◌≡◌, refl, sym, ap, ◌∙◌, inl, inr, Bool, false,
  Option, none, some, List, [], ◌∷◌, ◌++◌, arith, ltb, ltb→lt, Bool-cases, Option-cases, length,
  get_elem?, take, drop, length-append, length-take, length-drop, drop_all, nat_key, string_key,
}

module _ {ℓ} {C : Type ℓ} where
  -- A list that starts at its `k`-th entry, with the entries before that at its end.
  abbrev pub rotate : ℕ → List C → List C
  rotate k xs = drop k xs ++ take k xs

  get_elem?-drop : (k i : ℕ) (xs : List C) → get_elem? (drop k xs) i ≡ get_elem? xs (k + i)
  get_elem?-drop zero i xs = ap (get_elem? xs) (omega arith)
  get_elem?-drop (suc k) i [] = refl
  get_elem?-drop (suc k) i (x ∷ xs) =
      let e : suc k + i ≡ suc (k + i) = omega arith in rw e (get_elem?-drop k i xs)

  get_elem?-take : (k i : ℕ) (xs : List C) → i < k → get_elem? (take k xs) i ≡ get_elem? xs i
  get_elem?-take zero i xs h = absurd (omega arith)
  get_elem?-take (suc k) i [] h = refl
  get_elem?-take (suc k) zero (x ∷ xs) h = refl
  get_elem?-take (suc k) (suc i) (x ∷ xs) h = get_elem?-take k i xs (omega arith)

  get_elem?-append_left :
      (i : ℕ) (xs ys : List C) → i < length xs → get_elem? (xs ++ ys) i ≡ get_elem? xs i
  get_elem?-append_left i [] ys h = absurd (omega arith)
  get_elem?-append_left zero (x ∷ xs) ys h = refl
  get_elem?-append_left (suc i) (x ∷ xs) ys h = get_elem?-append_left i xs ys (omega arith)

  get_elem?-append_right :
      (i : ℕ) (xs ys : List C) → get_elem? (xs ++ ys) (length xs + i) ≡ get_elem? ys i
  get_elem?-append_right i [] ys = ap (get_elem? ys) (omega arith)
  get_elem?-append_right i (x ∷ xs) ys =
      let e : length (x ∷ xs) + i ≡ suc (length xs + i) = omega arith in
      rw e (get_elem?-append_right i xs ys)

  rotate_empty : (k : ℕ) → rotate k [] ≡ []
  rotate_empty zero = refl
  rotate_empty (suc k) = refl

  length-rotate : (k : ℕ) (xs : List C) → length (rotate k xs) ≡ length xs
  length-rotate k xs =
      omega (arith, length-append (drop k xs) (take k xs), length-drop k xs, length-take k xs)

  -- Its entries are those at the indices taken modulo the length.
  get_elem?-rotate :
      (k i : ℕ) (xs : List C)
      → k < length xs
      → i < length xs
      → get_elem? (rotate k xs) i ≡ get_elem? xs ((i + k) % length xs)
  get_elem?-rotate k i xs lower inside = elim (Bool-cases (ltb (i + k) (length xs))) [
    | inl straight ↦
        let same : (i + k) % length xs ≡ k + i =
          mod-eq_of_lt (ltb→lt (i + k) (length xs) straight) ∙ omega arith in
        let front : i < length (drop k xs) = ground (arith, length-drop k xs) in
        rw same (get_elem?-append_left i (drop k xs) (take k xs) front ∙ get_elem?-drop k i xs)
    | inr around ↦
        let j = i + k - length xs in
        let up : length xs ≤ i + k = ground arith in
        let same : (i + k) % length xs ≡ j = mod-eq-sub-mod up ∙ mod-eq_of_lt (omega arith) in
        let split : i ≡ length (drop k xs) + j = omega (arith, length-drop k xs) in
        rw same (
          ap (get_elem? (rotate k xs)) split
          ∙ get_elem?-append_right j (drop k xs) (take k xs)
          ∙ get_elem?-take k j xs (omega arith))
  ]

  drop_at :
      (i : ℕ) (xs : List C)
      → i < length xs
      → (x : C) × (get_elem? xs i ≡ some x) × (drop i xs ≡ x ∷ drop (suc i) xs)
  drop_at i [] h = absurd (omega arith)
  drop_at zero (x ∷ xs) h = (x, refl, refl)
  drop_at (suc i) (x ∷ xs) h = drop_at i xs (omega arith)

  client_at-rotate :
      (clients : List C) (offset i : ℕ)
      → offset + length clients ≤ 2 ^ 64
      → i < length clients
      → client_at clients offset i ≡ get_elem? (rotate (offset % length clients) clients) i
  unfolding client_at
  client_at-rotate clients offset i fits inside =
      let small : (i + offset) % 2 ^ 64 ≡ i + offset = omega arith in
      let size : zero < length clients = omega arith in
      rw small (
        ap (get_elem? clients) (sym (add-mod-mod i offset (length clients)))
        ∙ sym (get_elem?-rotate (offset % length clients) i clients (mod-lt offset size) inside))

module _ {ℓ κ} {C : Type ℓ} {E : Type κ} where
  -- Asking clients in their order until one takes the transaction.
  abbrev pub until_sent : (C → Option E) → List C → Option E → Sent C E
  until_sent send [] err = record { asked = []; error = err }
  until_sent send (c ∷ cs) err = elim (send c) [
    | none ↦ record { asked = c ∷ []; error = none }
    | some e ↦ ask c (until_sent send cs (some e))
  ]

  send_loop-step :
      (clients : List C) (send : C → Option E) (offset left i : ℕ) (err : Option E) (c : C)
      (cs : List C)
      → client_at clients offset i ≡ some c
      → ((e : E)
          → send_loop clients send offset left (i + 1) (some e) ≡ until_sent send cs (some e))
      → send_loop clients send offset (suc left) i err ≡ until_sent send (c ∷ cs) err
  unfolding send_loop
  send_loop-step clients send offset left i err c cs found rest = elim (Option-cases (send c)) [
    | inl sent ↦ ground arith
    | inr (e, failed) ↦ let after = rest e in ground arith
  ]

  send_loop-until_sent :
      (clients : List C) (send : C → Option E) (offset left i : ℕ) (err : Option E)
      → offset + length clients ≤ 2 ^ 64
      → i + left ≡ length clients
      → send_loop clients send offset left i err
        ≡ until_sent send (drop i (rotate (offset % length clients) clients)) err
  unfolding send_loop
  send_loop-until_sent clients send offset zero i err fits sum =
      let size = length-rotate (offset % length clients) clients in
      let none_left = drop_all i (rotate (offset % length clients) clients) (omega (arith, size)) in
      rw none_left refl
  send_loop-until_sent clients send offset (suc left) i err fits sum =
      let size = length-rotate (offset % length clients) clients in
      let (c, here, next) =
        drop_at i (rotate (offset % length clients) clients) (omega (arith, size)) in
      let found = client_at-rotate clients offset i fits (omega arith) ∙ here in
      let one : i + 1 ≡ suc i = omega arith in
      let ih = λ (e : E).
        send_loop-until_sent clients send offset left (i + 1) (some e) fits (omega arith)
        ∙ ap (λ k. until_sent send (drop k (rotate (offset % length clients) clients)) (some e))
            one in
      send_loop-step clients send offset left i err c
        (drop (suc i) (rotate (offset % length clients) clients)) found ih
      ∙ ap (λ cs. until_sent send cs err) (sym next)

  -- The clients are asked one after the other from the given one on, round the end of the list, each
  -- once at most, until one takes the transaction; the error that is left is the last client's.
  pub send_transaction-until_sent :
      (clients : List C) (offset : ℕ) (send : C → Option E)
      → offset + length clients ≤ 2 ^ 64
      → send_transaction clients offset send
        ≡ until_sent send (rotate (offset % length clients) clients) none
  unfolding send_transaction
  send_transaction-until_sent clients offset send fits =
      send_loop-until_sent clients send offset (length clients) 0 none fits (omega arith)

  round-until_sent :
      (clients : List C) (offset i : ℕ) (send : C → Option E)
      → i + offset + 1 + length clients ≤ 2 ^ 64
      → send_loop clients send ((i + offset + 1) % 2 ^ 64) (length clients) 0 none
        ≡ until_sent send (rotate ((i + offset + 1) % length clients) clients) none
  unfolding send_loop
  round-until_sent [] offset i send fits =
      rw (rotate_empty ((i + offset + 1) % length {A = C} [])) refl
  round-until_sent (c ∷ cs) offset i send fits =
      let small : (i + offset + 1) % 2 ^ 64 ≡ i + offset + 1 = omega arith in
      rw small (
        send_loop-until_sent (c ∷ cs) send (i + offset + 1) (length (c ∷ cs)) 0 none fits
          (omega arith))

  -- While the transaction is not confirmed, round `j` of the rebroadcasts asks the clients in the same
  -- way from the next one on, each round starting one client later than the one before.
  rebroadcast-until_sent :
      (clients : List C) (offset : ℕ) (confirmed : ℕ → Bool) (send : ℕ → C → Option E)
      (left i j : ℕ)
      → i + left + offset + 1 + length clients ≤ 2 ^ 64
      → j < left
      → ((k : ℕ) → k ≤ j → confirmed (i + k) ≡ false)
      → get_elem? (rebroadcast clients offset confirmed send left i) j
        ≡ some (
            until_sent (send (i + j)) (rotate ((i + j + offset + 1) % length clients) clients) none)
  unfolding rebroadcast
  rebroadcast-until_sent clients offset confirmed send zero i j fits inside open_still =
      absurd (omega arith)
  rebroadcast-until_sent clients offset confirmed send (suc left) i zero fits inside open_still =
      let here : i + zero ≡ i = omega arith in
      let now : confirmed i ≡ false = rw here at (open_still 0 (omega arith)) in
      rw (here, now) (ap some (round-until_sent clients offset i (send i) (omega arith)))
  rebroadcast-until_sent clients offset confirmed send (suc left) i (suc j) fits inside open_still =
      let here : i + zero ≡ i = omega arith in
      let now : confirmed i ≡ false = rw here at (open_still 0 (omega arith)) in
      let shift : (k : ℕ) → i + suc k ≡ i + 1 + k = λ k. omega arith in
      let ih =
        rebroadcast-until_sent clients offset confirmed send left (i + 1) j (omega arith)
          (omega arith) (λ k low. rw (shift k) at (open_still (suc k) (omega arith))) in
      rw (now, shift j) ih
