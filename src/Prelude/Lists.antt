-- ===== src/Prelude/Lists.antt =====
-- Lists measured and indexed by native numbers, under the library's names.
use Prim.Native.Nat.{ℕ, zero, suc, ◌+◌, ◌-◌, ◌≤◌, min}
use mathlib.Core.Path.{◌≡◌, refl, sym, ap, ◌∙◌}
use mathlib.Core.Bool.{Bool, true, false}
use mathlib.Core.Logic.{◌≢◌}
use mathlib.Core.List.{List, [], ◌∷◌, ◌++◌}
use mathlib.Core.Option.{Option, none, some}
use native.Mathlib.Omega.{arith}
use assertoor.Prelude.Tests.{if◌then◌else◌}

module _ {ℓ} {A : Type ℓ} where
  abbrev pub length : List A → ℕ
  length [] = 0
  length (x ∷ xs) = suc (length xs)

  abbrev pub get_elem? : List A → ℕ → Option A
  get_elem? [] i = none
  get_elem? (x ∷ xs) zero = some x
  get_elem? (x ∷ xs) (suc i) = get_elem? xs i

  -- A write out of bounds changes nothing.
  abbrev pub set : List A → ℕ → A → List A
  set [] i v = []
  set (x ∷ xs) zero v = v ∷ xs
  set (x ∷ xs) (suc i) v = x ∷ set xs i v

  abbrev pub take : ℕ → List A → List A
  take zero xs = []
  take (suc n) [] = []
  take (suc n) (x ∷ xs) = x ∷ take n xs

  abbrev pub drop : ℕ → List A → List A
  drop zero xs = xs
  drop (suc n) [] = []
  drop (suc n) (x ∷ xs) = drop n xs

  -- The elements that pass a Boolean test, in order.
  abbrev pub filterb : (A → Bool) → List A → List A
  filterb p [] = []
  filterb p (x ∷ xs) = let rest = filterb p xs in if p x then x ∷ rest else rest

  -- Some element passes the test.
  abbrev pub anyb : (A → Bool) → List A → Bool
  anyb p [] = false
  anyb p (x ∷ xs) = let rest = anyb p xs in if p x then true else rest

  abbrev pub All {κ} : (A → Type κ) → List A → Type κ
  All P [] = Unit
  All P (x ∷ xs) = P x × All P xs

module _ {ℓ} {A : Type ℓ} where
  pub length-append : (xs ys : List A) → length (xs ++ ys) ≡ length xs + length ys
  length-append [] ys = omega arith
  length-append (x ∷ xs) ys = omega (arith, length-append xs ys)

  pub length-set : (xs : List A) (i : ℕ) (v : A) → length (set xs i v) ≡ length xs
  length-set [] i v = refl
  length-set (x ∷ xs) zero v = refl
  length-set (x ∷ xs) (suc i) v = ap suc (length-set xs i v)

  pub length-take : (n : ℕ) (xs : List A) → length (take n xs) ≡ min n (length xs)
  length-take zero xs = omega arith
  length-take (suc n) [] = omega arith
  length-take (suc n) (x ∷ xs) = omega (arith, length-take n xs)

  pub length-drop : (n : ℕ) (xs : List A) → length (drop n xs) ≡ length xs - n
  length-drop zero xs = omega arith
  length-drop (suc n) [] = omega arith
  length-drop (suc n) (x ∷ xs) = omega (arith, length-drop n xs)

  pub take-append-drop : (n : ℕ) (xs : List A) → take n xs ++ drop n xs ≡ xs
  take-append-drop zero xs = refl
  take-append-drop (suc n) [] = refl
  take-append-drop (suc n) (x ∷ xs) = ap (◌∷◌ x) (take-append-drop n xs)

  pub drop_all : (n : ℕ) (xs : List A) → length xs ≤ n → drop n xs ≡ []
  drop_all zero [] h = refl
  drop_all zero (x ∷ xs) h = absurd (omega arith)
  drop_all (suc n) [] h = refl
  drop_all (suc n) (x ∷ xs) h = drop_all n xs (omega arith)

  pub take_all : (n : ℕ) (xs : List A) → length xs ≤ n → take n xs ≡ xs
  take_all zero [] h = refl
  take_all zero (x ∷ xs) h = absurd (omega arith)
  take_all (suc n) [] h = refl
  take_all (suc n) (x ∷ xs) h = ap (◌∷◌ x) (take_all n xs (omega arith))

  -- `drop` of an append, on either side of the seam.
  pub drop-append_le :
      (n : ℕ) (xs ys : List A) → n ≤ length xs → drop n (xs ++ ys) ≡ drop n xs ++ ys
  drop-append_le zero xs ys h = refl
  drop-append_le (suc n) [] ys h = absurd (omega arith)
  drop-append_le (suc n) (x ∷ xs) ys h = drop-append_le n xs ys (omega arith)

  pub drop-append_ge :
      (n : ℕ) (xs ys : List A) → length xs ≤ n → drop n (xs ++ ys) ≡ drop (n - length xs) ys
  drop-append_ge n [] ys h = ap (λ k. drop k ys) (omega arith)
  drop-append_ge zero (x ∷ xs) ys h = absurd (omega arith)
  drop-append_ge (suc n) (x ∷ xs) ys h =
      let same : n - length xs ≡ suc n - suc (length xs) = omega arith in
      drop-append_ge n xs ys (omega arith) ∙ ap (λ k. drop k ys) same

module _ {ℓ} {A : Type ℓ} where
  pub set-split :
      (i : ℕ) (xs : List A) (v : A)
      → suc i ≤ length xs
      → set xs i v ≡ take i xs ++ v ∷ drop (suc i) xs
  set-split i [] v h = absurd (omega arith)
  set-split zero (x ∷ xs) v h = refl
  set-split (suc i) (x ∷ xs) v h = ap (◌∷◌ x) (set-split i xs v (omega arith))

  pub drop_head :
      (i : ℕ) (xs : List A) → suc i ≤ length xs → (x : A) × (drop i xs ≡ x ∷ drop (suc i) xs)
  drop_head i [] h = absurd (omega arith)
  drop_head zero (x ∷ xs) h = (x, refl)
  drop_head (suc i) (x ∷ xs) h = drop_head i xs (omega arith)

  pub drop-drop : (i j : ℕ) (xs : List A) → drop i (drop j xs) ≡ drop (j + i) xs
  drop-drop i zero xs = ap (λ k. drop k xs) (omega arith)
  drop-drop zero (suc j) [] = sym (drop_all (suc j + zero) [] (omega arith))
  drop-drop (suc i) (suc j) [] = sym (drop_all (suc j + suc i) [] (omega arith))
  drop-drop i (suc j) (x ∷ xs) =
      let e : suc j + i ≡ suc (j + i) = omega arith in rw e (drop-drop i j xs)

  pub take-append : (xs ys : List A) → take (length xs) (xs ++ ys) ≡ xs
  take-append [] ys = refl
  take-append (x ∷ xs) ys = ap (◌∷◌ x) (take-append xs ys)

  pub drop-append : (xs ys : List A) → drop (length xs) (xs ++ ys) ≡ ys
  drop-append [] ys = refl
  drop-append (x ∷ xs) ys = drop-append xs ys

  pub drop-set : (i : ℕ) (xs : List A) (v : A) → drop (suc i) (set xs i v) ≡ drop (suc i) xs
  drop-set zero [] v = refl
  drop-set (suc i) [] v = refl
  drop-set zero (x ∷ xs) v = refl
  drop-set (suc i) (x ∷ xs) v = drop-set i xs v

  pub take-set :
      (i : ℕ) (xs : List A) (v : A)
      → suc i ≤ length xs
      → take (suc i) (set xs i v) ≡ take i xs ++ v ∷ []
  take-set i [] v h = absurd (omega arith)
  take-set zero (x ∷ xs) v h = refl
  take-set (suc i) (x ∷ xs) v h = ap (◌∷◌ x) (take-set i xs v (omega arith))

  pub get_elem?-set_self :
      (xs : List A) (i : ℕ) (v : A) → suc i ≤ length xs → get_elem? (set xs i v) i ≡ some v
  get_elem?-set_self [] i v h = absurd (omega arith)
  get_elem?-set_self (x ∷ xs) zero v h = refl
  get_elem?-set_self (x ∷ xs) (suc i) v h = get_elem?-set_self xs i v (omega arith)

  pub get_elem?-set_ne :
      (xs : List A) (i j : ℕ) (v : A) → i ≢ j → get_elem? (set xs i v) j ≡ get_elem? xs j
  get_elem?-set_ne [] i j v h = refl
  get_elem?-set_ne (x ∷ xs) zero zero v h = absurd (h refl)
  get_elem?-set_ne (x ∷ xs) zero (suc j) v h = refl
  get_elem?-set_ne (x ∷ xs) (suc i) zero v h = refl
  get_elem?-set_ne (x ∷ xs) (suc i) (suc j) v h = get_elem?-set_ne xs i j v (λ e. h (ap suc e))

  pub get_elem?_bound : (xs : List A) (i : ℕ) {v : A} → get_elem? xs i ≡ some v → suc i ≤ length xs
  get_elem?_bound [] i h = cc
  get_elem?_bound (x ∷ xs) zero h = omega arith
  get_elem?_bound (x ∷ xs) (suc i) h = omega (arith, get_elem?_bound xs i h)
