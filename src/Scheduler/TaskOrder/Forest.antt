-- ===== src/Scheduler/TaskOrder/Forest.antt =====
-- Tasks are listed in the order of the forest that they form (scheduler/scheduler.go).
use assertoor.Scheduler.State.{TaskState}
use assertoor.Scheduler.Tasks.{Tasks}
use assertoor.Scheduler.TaskOrder.{same_parent}
use assertoor.Prelude.{
  ℕ, suc, ◌+◌, ◌≤◌, ◌<◌, ◌≡◌, refl, sym, ap, ◌∙◌, ◌≢◌, ◌⊎◌, inl, inr, Bool, true, false, Option,
  none, some, List, [], ◌∷◌, ◌++◌, arith, ltb, ◌==◌, if◌then◌else◌, ==_iff, Bool-cases, length,
  drop, length-append, nat_key, string_key, lookup,
}

-- The indices of the tasks above a task, from its root on.
pub data IsBelow (m : Tasks) : TaskState → List ℕ → Type 0 where
  root : (t : TaskState) → t.parent_state ≡ none → t.task_depth ≡ 0 → IsBelow m t []
  child :
      (t p : TaskState)
      → (above : List ℕ) → t.parent_state ≡ some p.index
      → lookup p.index m ≡ some p
      → t.task_depth ≡ p.task_depth + 1
      → IsBelow m p above
      → IsBelow m t (above ++ p.index ∷ [])

-- The lexicographic order, in which a list stands behind its prefixes.
abbrev pub lex : List ℕ → List ℕ → Bool
lex xs [] = false
lex [] (y ∷ ys) = true
lex (x ∷ xs) (y ∷ ys) = if x == y then lex xs ys else ltb x y

head_or : ℕ → List ℕ → ℕ
head_or x [] = x
head_or x (y ∷ ys) = y

pub lex_self : (xs : List ℕ) → lex xs xs ≡ false
lex_self [] = refl
lex_self (x ∷ xs) = ground (arith, lex_self xs)

pub lex-siblings : (xs : List ℕ) (a b : ℕ) → lex (xs ++ a ∷ []) (xs ++ b ∷ []) ≡ ltb a b
lex-siblings [] a b = ground arith
lex-siblings (x ∷ xs) a b = ground (arith, lex-siblings xs a b)

pub lex-parent : (xs : List ℕ) (b : ℕ) → lex xs (xs ++ b ∷ []) ≡ true
lex-parent [] b = refl
lex-parent (x ∷ xs) b = ground (arith, lex-parent xs b)

-- A list that is not shorter keeps its place when it grows,
pub lex-left : (xs ys : List ℕ) (a : ℕ) → length ys ≤ length xs → lex (xs ++ a ∷ []) ys ≡ lex xs ys
lex-left xs [] a h = refl
lex-left [] (y ∷ ys) a h = absurd (omega arith)
lex-left (x ∷ xs) (y ∷ ys) a h = let rest = lex-left xs ys a (omega arith) in ground arith

-- and so does the other one, if it is no prefix.
pub lex-right :
    (xs ys : List ℕ) (b : ℕ) → length xs ≤ length ys → xs ≢ ys → lex xs (ys ++ b ∷ []) ≡ lex xs ys
lex-right [] [] b h other = absurd (other refl)
lex-right [] (y ∷ ys) b h other = refl
lex-right (x ∷ xs) [] b h other = absurd (omega arith)
lex-right (x ∷ xs) (y ∷ ys) b h other = elim (Bool-cases (x == y)) [
  | inl same ↦
      let e : x ≡ y = (==_iff x y).0 same in
      let rest = lex-right xs ys b (omega arith) (λ p. other (rw (e, p) refl)) in ground arith
  | inr differs ↦ ground arith
]

-- Lists of one length that differ decide before their ends.
pub lex-level :
    (xs ys : List ℕ) (a b : ℕ)
    → length xs ≡ length ys
    → xs ≢ ys
    → lex (xs ++ a ∷ []) (ys ++ b ∷ []) ≡ lex xs ys
lex-level [] [] a b h other = absurd (other refl)
lex-level [] (y ∷ ys) a b h other = absurd (omega (arith, h))
lex-level (x ∷ xs) [] a b h other = absurd (omega (arith, h))
lex-level (x ∷ xs) (y ∷ ys) a b h other = elim (Bool-cases (x == y)) [
  | inl same ↦
      let e : x ≡ y = (==_iff x y).0 same in
      let rest = lex-level xs ys a b (omega (arith, h)) (λ p. other (rw (e, p) refl)) in
      ground arith
  | inr differs ↦ ground arith
]

pub snoc_inj : (xs ys : List ℕ) (a b : ℕ) → xs ++ a ∷ [] ≡ ys ++ b ∷ [] → (xs ≡ ys) × (a ≡ b)
unfolding head_or
snoc_inj [] [] a b e = (refl, ap (head_or 0) e)
snoc_inj [] (y ∷ ys) a b e =
    let l : 1 ≡ suc (length (ys ++ b ∷ [])) = ap length e in
    absurd (omega (arith, l, length-append ys (b ∷ [])))
snoc_inj (x ∷ xs) [] a b e =
    let l : suc (length (xs ++ a ∷ [])) ≡ 1 = ap length e in
    absurd (omega (arith, l, length-append xs (a ∷ [])))
snoc_inj (x ∷ xs) (y ∷ ys) a b e =
    let h : x ≡ y = ap (head_or 0) e in
    let (r, l) = snoc_inj xs ys a b (ap (drop 1) e) in (rw (h, r) refl, l)

pub IsBelow-depth :
    {m : Tasks} {t : TaskState} {above : List ℕ} → IsBelow m t above → t.task_depth ≡ length above
IsBelow-depth (root t e d) = d
IsBelow-depth (child t p over e here d h) =
    omega (arith, d, IsBelow-depth h, length-append over (p.index ∷ []))

-- A task is a root, or its parent is listed and one task less deep.
IsBelow-cases :
    {m : Tasks} {t : TaskState} {above : List ℕ}
    → IsBelow m t above
    → ((t.parent_state ≡ none) × (above ≡ []))
      ⊎ ((p : TaskState) × (over : List ℕ) × (t.parent_state ≡ some p.index)
          × (lookup p.index m ≡ some p)
          × (above ≡ over ++ p.index ∷ [])
          × IsBelow m p over)
IsBelow-cases (root t e d) = inl (e, refl)
IsBelow-cases (child t p over e here d h) = inr (p, over, e, here, refl, h)

pub some_inj {ℓ} : {A : Type ℓ} {a b : A} → some a ≡ some b → a ≡ b
some_inj {a} e = ap (λ o. elim o [ none ↦ a | some x ↦ x ]) e

-- Tasks with one parent stand at one place.
pub IsBelow-parent :
    {m : Tasks} {a b : TaskState} {xs ys : List ℕ}
    → IsBelow m a xs
    → IsBelow m b ys
    → a.parent_state ≡ b.parent_state
    → xs ≡ ys
IsBelow-parent (root a e d) k same = elim (IsBelow-cases k) [
  | inl (e', empty) ↦ sym empty
  | inr (q, over', e', here', whole, above') ↦ absurd (cc (e, e', same))
]
IsBelow-parent {m} (child a p over e here d above) k same = elim (IsBelow-cases k) [
  | inl (e', empty) ↦ absurd (cc (e, e', same))
  | inr (q, over', e', here', whole, above') ↦
      let i : p.index ≡ q.index = some_inj (sym e ∙ same ∙ e') in
      let p_q : p ≡ q = some_inj (sym here ∙ ap (λ k. lookup k m) i ∙ here') in
      let r : over ≡ over' = IsBelow-parent above above' (ap (λ t. t.parent_state) p_q) in
      rw (whole, r, i) refl
]

-- The task itself after those above it.
abbrev pub place : List ℕ → TaskState → List ℕ
place above t = above ++ t.index ∷ []

pub same_parent-eq : (a b : Option ℕ) → same_parent a b ≡ true → a ≡ b
same_parent-eq none none h = refl
same_parent-eq none (some b) h = absurd (cc h)
same_parent-eq (some a) none h = absurd (cc h)
same_parent-eq (some a) (some b) h = ap some ((==_iff a b).0 h)

pub same_parent_self : (a : Option ℕ) → same_parent a a ≡ true
same_parent_self none = refl
same_parent_self (some a) = (==_iff a a).1 refl

-- The parent's place is what stands above the task.
pub IsBelow-place :
    {m : Tasks} {a b : TaskState} {xs ys : List ℕ}
    → IsBelow m a xs
    → IsBelow m b ys
    → lookup b.index m ≡ some b
    → a.parent_state ≡ some b.index
    → xs ≡ place ys b
IsBelow-place {m} {b} {ys} h k here e = elim (IsBelow-cases h) [
  | inl (e', empty) ↦ absurd (cc (e, e'))
  | inr (p, over, e', here', whole, above) ↦
      let i : p.index ≡ b.index = some_inj (sym e' ∙ e) in
      let p_b : p ≡ b = some_inj (sym here' ∙ ap (λ k. lookup k m) i ∙ here) in
      let r : over ≡ ys = IsBelow-parent above k (ap (λ t. t.parent_state) p_b) in
      rw (whole, r, i) refl
]

-- A task that is not at the top has a listed parent, whose place is what stands above it.
pub IsBelow-up :
    {m : Tasks} {a : TaskState} {xs : List ℕ}
    → IsBelow m a xs
    → 0 < a.task_depth
    → (p : TaskState) × (over : List ℕ) × (a.parent_state ≡ some p.index)
      × (lookup p.index m ≡ some p)
      × (xs ≡ place over p)
      × IsBelow m p over
IsBelow-up (root a e d) h = absurd (omega (arith, d, h))
IsBelow-up (child a p over e here d above) h = (p, over, e, here, refl, above)

pub IsBelow-top :
    {m : Tasks} {a : TaskState} {xs : List ℕ}
    → IsBelow m a xs
    → a.task_depth ≡ 0
    → a.parent_state ≡ none
IsBelow-top (root a e d) h = e
IsBelow-top (child a p over e here d above) h = absurd (omega (arith, d, h))
