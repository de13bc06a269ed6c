-- ===== src/Wallet/Account/Counting.antt =====
-- Closed channels and those waited for are counted together (wallet/wallet.go).
use mathlib.Core.Path.{subst}
use assertoor.Wallet.Account.{NonceStatus, update_status, close_marked, close_below}
use assertoor.Wallet.Account.Closing.{length-update, one_name}
use assertoor.Prelude.{
  ℕ, zero, suc, ◌+◌, ◌≤◌, ◌<◌, ◌≡◌, refl, sym, ◌∙◌, inl, inr, false, none, some, List, [], ◌∷◌,
  ◌++◌, arith, ltb, ◌==◌, if◌then◌else◌, Bool-cases, length, nat_key, string_key, lookup, insert,
}

some-none : (n : ℕ) → some n ≡ none → ⊥
some-none n e = cc

-- How many nonces wait on a status,
abbrev pub count : ℕ → List (ℕ × ℕ) → ℕ
count id [] = 0
count id ((n, other) ∷ chans) = (if other == id then 1 else 0) + count id chans

-- and how often its channel was closed.
abbrev pub closes_of : ℕ → List NonceStatus → ℕ
closes_of id [] = 0
closes_of zero (st ∷ sts) = st.closes
closes_of (suc id) (st ∷ sts) = closes_of id sts

closes_of-update :
    (id other n : ℕ) (mark : ℕ → NonceStatus → NonceStatus) (sts : List NonceStatus)
    → other < length sts
    → ((m : ℕ) (st : NonceStatus) → (mark m st).closes ≡ st.closes)
    → closes_of id (update_status other (close_marked mark n) sts)
      ≡ (if other == id then 1 else 0) + closes_of id sts
closes_of-update id other n mark [] inside keeps = absurd (omega arith)
closes_of-update zero zero n mark (st ∷ sts) inside keeps = ground (arith, keeps n st)
closes_of-update (suc id) zero n mark (st ∷ sts) inside keeps = ground arith
closes_of-update zero (suc other) n mark (st ∷ sts) inside keeps = ground arith
closes_of-update (suc id) (suc other) n mark (st ∷ sts) inside keeps =
    closes_of-update id other n mark sts (omega arith) keeps ∙ ground arith

pub closes_of-append :
    (id : ℕ) (sts : List NonceStatus)
    → closes_of id (sts ++ record { receipt = none; closes = 0 } ∷ []) ≡ closes_of id sts
closes_of-append zero [] = refl
closes_of-append (suc id) [] = refl
closes_of-append zero (st ∷ sts) = refl
closes_of-append (suc id) (st ∷ sts) = closes_of-append id sts

-- All statuses on which a nonce waits have been made.
abbrev pub IsNamed : ℕ → List (ℕ × ℕ) → Type 0
IsNamed size [] = Unit
IsNamed size ((n, id) ∷ chans) = (id < size) × IsNamed size chans

-- The loop turns each waiting nonce it removes into one close.
pub count-close_below :
    (bound id : ℕ) (mark : ℕ → NonceStatus → NonceStatus) (chans : List (ℕ × ℕ))
    (sts : List NonceStatus)
    → IsNamed (length sts) chans
    → ((m : ℕ) (st : NonceStatus) → (mark m st).closes ≡ st.closes)
    → let closed = close_below bound mark chans sts in
      count id closed.0 + closes_of id closed.1 ≡ count id chans + closes_of id sts
unfolding close_below
count-close_below bound id mark [] sts named keeps = refl
count-close_below bound id mark ((n, other) ∷ chans) sts (inside, named) keeps =
    let size = length-update other (close_marked mark n) sts in
    elim (Bool-cases (ltb n bound)) [
      | inl closed ↦
          let ih =
            count-close_below bound id mark chans (update_status other (close_marked mark n) sts)
              (subst (λ x. IsNamed x chans) (sym size) named) keeps in
          let one = closes_of-update id other n mark sts inside keeps in
          simp closed (omega (arith, ih, one))
      | inr kept ↦
          let ih = count-close_below bound id mark chans sts named keeps in
          simp kept (omega (arith, ih))
    ]

pub IsNamed-close_below :
    (bound size : ℕ) (mark : ℕ → NonceStatus → NonceStatus) (chans : List (ℕ × ℕ))
    (sts : List NonceStatus)
    → IsNamed size chans
    → IsNamed size (close_below bound mark chans sts).0
unfolding close_below
IsNamed-close_below bound size mark [] sts named = named
IsNamed-close_below bound size mark ((n, other) ∷ chans) sts (inside, named) =
    elim (Bool-cases (ltb n bound)) [
      | inl closed ↦ rw closed (
          IsNamed-close_below bound size mark chans (update_status other (close_marked mark n) sts)
            named)
      | inr kept ↦ rw kept (inside, IsNamed-close_below bound size mark chans sts named)
    ]

IsNamed-more : (size : ℕ) (chans : List (ℕ × ℕ)) → IsNamed size chans → IsNamed (suc size) chans
IsNamed-more size [] named = named
IsNamed-more size ((n, id) ∷ chans) (inside, named) = (omega arith, IsNamed-more size chans named)

pub IsNamed-insert :
    (n size : ℕ) (chans : List (ℕ × ℕ))
    → IsNamed size chans
    → IsNamed (suc size) (insert n size chans)
unfolding insert
IsNamed-insert n size [] named = (omega arith, named)
IsNamed-insert n size ((m, id) ∷ chans) (inside, named) = elim (Bool-cases (m == n)) [
  | inl here ↦ rw here (omega arith, IsNamed-more size chans named)
  | inr there ↦ rw there (omega arith, IsNamed-insert n size chans named)
]

pub count-insert :
    (n id size : ℕ) (chans : List (ℕ × ℕ))
    → lookup n chans ≡ none
    → count id (insert n size chans) ≡ (if size == id then 1 else 0) + count id chans
unfolding insert lookup
count-insert n id size [] missing = refl
count-insert n id size ((m, other) ∷ chans) missing = elim (Bool-cases (m == n)) [
  | inl here ↦ absurd (some-none other (rw here at missing))
  | inr there ↦
      let ih = count-insert n id size chans (rw there at missing) in rw there (omega (arith, ih))
]

pub count-outside :
    (id size : ℕ) (chans : List (ℕ × ℕ)) → IsNamed size chans → size ≤ id → count id chans ≡ 0
count-outside id size [] named out = refl
count-outside id size ((n, other) ∷ chans) (inside, named) out =
    let other_id : (other == id) ≡ false = ground arith in
    let ih = count-outside id size chans named out in rw other_id (omega (arith, ih))

pub closes_of-outside : (id : ℕ) (sts : List NonceStatus) → length sts ≤ id → closes_of id sts ≡ 0
closes_of-outside id [] out = refl
closes_of-outside zero (st ∷ sts) out = absurd (omega arith)
closes_of-outside (suc id) (st ∷ sts) out = closes_of-outside id sts (omega arith)

pub lookup-IsNamed :
    (n id size : ℕ) (chans : List (ℕ × ℕ))
    → IsNamed size chans
    → lookup n chans ≡ some id
    → id < size
unfolding lookup
lookup-IsNamed n id size [] named e = absurd (some-none id (sym e))
lookup-IsNamed n id size ((m, other) ∷ chans) (inside, named) e = elim (Bool-cases (m == n)) [
  | inl here ↦ subst (λ x. x < size) (one_name other id (rw here at e)) inside
  | inr there ↦ lookup-IsNamed n id size chans named (rw there at e)
]
