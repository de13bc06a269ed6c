-- ===== src/Wallet/Account/Closing.antt =====
-- The loop that closes the channels below a nonce (wallet/wallet.go).
use mathlib.Core.Path.{subst}
use assertoor.Wallet.Account.{NonceStatus, update_status, close_marked, close_below}
use assertoor.Prelude.{
  ℕ, zero, suc, ◌≤◌, ◌<◌, ◌≡◌, refl, sym, ap, inl, inr, Bool, true, false, none, some, List, [],
  ◌∷◌, ◌++◌, arith, ltb, ◌==◌, if◌then◌else◌, Bool-cases, length, get_elem?, nat_key, string_key,
  lookup,
}

-- The channel of a status has been closed.
abbrev pub closed_at : ℕ → List NonceStatus → Bool
closed_at id statuses = elim (get_elem? statuses id) [ none ↦ false | some st ↦ ltb 0 st.closes ]

closed_at-update_self :
    (id n : ℕ) (mark : ℕ → NonceStatus → NonceStatus) (sts : List NonceStatus)
    → id < length sts
    → closed_at id (update_status id (close_marked mark n) sts) ≡ true
closed_at-update_self id n mark [] inside = absurd (omega arith)
closed_at-update_self zero n mark (st ∷ sts) inside = ground arith
closed_at-update_self (suc id) n mark (st ∷ sts) inside =
    closed_at-update_self id n mark sts (omega arith)

closed_at-update :
    (id other n : ℕ) (mark : ℕ → NonceStatus → NonceStatus) (sts : List NonceStatus)
    → closed_at id sts ≡ true
    → closed_at id (update_status other (close_marked mark n) sts) ≡ true
closed_at-update id other n mark [] h = h
closed_at-update zero zero n mark (st ∷ sts) h = ground arith
closed_at-update (suc id) zero n mark (st ∷ sts) h = h
closed_at-update zero (suc other) n mark (st ∷ sts) h = h
closed_at-update (suc id) (suc other) n mark (st ∷ sts) h = closed_at-update id other n mark sts h

pub length-update :
    (id : ℕ) (f : NonceStatus → NonceStatus) (sts : List NonceStatus)
    → length (update_status id f sts) ≡ length sts
length-update id f [] = refl
length-update zero f (st ∷ sts) = refl
length-update (suc id) f (st ∷ sts) = ap suc (length-update id f sts)

pub closed_at-append :
    (id : ℕ) (sts new : List NonceStatus)
    → closed_at id sts ≡ true
    → closed_at id (sts ++ new) ≡ true
closed_at-append id [] new h = cc
closed_at-append zero (st ∷ sts) new h = h
closed_at-append (suc id) (st ∷ sts) new h = closed_at-append id sts new h

-- The loop keeps what is closed,
pub closed_at-close_below :
    (bound id : ℕ) (mark : ℕ → NonceStatus → NonceStatus) (chans : List (ℕ × ℕ))
    (sts : List NonceStatus)
    → closed_at id sts ≡ true
    → closed_at id (close_below bound mark chans sts).1 ≡ true
unfolding close_below
closed_at-close_below bound id mark [] sts h = h
closed_at-close_below bound id mark ((n, other) ∷ chans) sts h = elim (Bool-cases (ltb n bound)) [
  | inl closed ↦
      rw closed
        (closed_at-close_below bound id mark chans _ (closed_at-update id other n mark sts h))
  | inr kept ↦ rw kept (closed_at-close_below bound id mark chans sts h)
]

-- keeps the entries from the bound on,
pub lookup-close_below :
    (bound n : ℕ) (mark : ℕ → NonceStatus → NonceStatus) (chans : List (ℕ × ℕ))
    (sts : List NonceStatus)
    → bound ≤ n
    → lookup n (close_below bound mark chans sts).0 ≡ lookup n chans
unfolding close_below lookup
lookup-close_below bound n mark [] sts h = refl
lookup-close_below bound n mark ((m, id) ∷ chans) sts h = elim (Bool-cases (ltb m bound)) [
  | inl closed ↦
      let other : (m == n) ≡ false = ground arith in
      rw (closed, other) (lookup-close_below bound n mark chans _ h)
  | inr kept ↦
      rw kept
        (ap (λ o. if m == n then some id else o) (lookup-close_below bound n mark chans sts h))
]

pub one_name : (a b : ℕ) → some a ≡ some b → a ≡ b
one_name a b e = cc

-- and closes those below it.
pub close_below-closed_at :
    (bound n id : ℕ) (mark : ℕ → NonceStatus → NonceStatus) (chans : List (ℕ × ℕ))
    (sts : List NonceStatus)
    → n < bound
    → lookup n chans ≡ some id
    → id < length sts
    → closed_at id (close_below bound mark chans sts).1 ≡ true
unfolding close_below lookup
close_below-closed_at bound n id mark [] sts lt e inside = cc
close_below-closed_at bound n id mark ((m, other) ∷ chans) sts lt e inside =
    elim (Bool-cases (m == n)) [
      | inl here ↦
          let found : other ≡ id = one_name other id (rw here at e) in
          let low : ltb m bound ≡ true = ground arith in
          rw low (
            closed_at-close_below bound id mark chans _ (
              subst (λ x. closed_at id (update_status x (close_marked mark m) sts) ≡ true)
                (sym found) (closed_at-update_self id m mark sts inside)))
      | inr there ↦ elim (Bool-cases (ltb m bound)) [
        | inl closed ↦ rw closed (
            close_below-closed_at bound n id mark chans _ lt (rw there at e)
              (omega (arith, length-update other (close_marked mark m) sts)))
        | inr kept ↦
            rw kept (close_below-closed_at bound n id mark chans sts lt (rw there at e) inside)
      ]
    ]

pub length-close_below :
    (bound : ℕ) (mark : ℕ → NonceStatus → NonceStatus) (chans : List (ℕ × ℕ))
    (sts : List NonceStatus)
    → length (close_below bound mark chans sts).1 ≡ length sts
unfolding close_below
length-close_below bound mark [] sts = refl
length-close_below bound mark ((n, id) ∷ chans) sts = ground (
  arith,
  length-update id (close_marked mark n) sts,
  length-close_below bound mark chans (update_status id (close_marked mark n) sts),
  length-close_below bound mark chans sts,
)
