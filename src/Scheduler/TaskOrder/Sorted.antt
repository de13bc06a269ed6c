-- ===== src/Scheduler/TaskOrder/Sorted.antt =====
-- The comparison function of sortTaskList (scheduler/scheduler.go) against the order of the forest.
use assertoor.Scheduler.State.{TaskState}
use assertoor.Scheduler.Tasks.{Tasks}
use assertoor.Scheduler.TaskOrder.{same_parent, parent_of, sorts_before}
use assertoor.Scheduler.TaskOrder.Forest.{
  IsBelow, lex, lex_self, lex-siblings, lex-parent, lex-left, lex-right, lex-level, snoc_inj,
  IsBelow-depth, IsBelow-parent, place, same_parent-eq, same_parent_self, IsBelow-place, IsBelow-up,
  IsBelow-top,
}
use assertoor.Prelude.{
  ℕ, zero, suc, ◌+◌, ◌≤◌, ◌<◌, ◌≡◌, refl, sym, ap, ◌∙◌, ◌≢◌, inl, inr, false, none, some, List, [],
  ◌∷◌, ◌++◌, arith, ltb, ltb→lt, lt→ltb, Bool-cases, length, length-append, nat_key, string_key,
  lookup,
}

-- What the comparison does with tasks of different parents, neither of which is the other's parent.
record AreApart (a b : TaskState) : Type 0 where
  parents : same_parent a.parent_state b.parent_state ≡ false
  not_under : same_parent a.parent_state (some b.index) ≡ false
  not_over : same_parent b.parent_state (some a.index) ≡ false

module _ (fuel : ℕ) (m : Tasks) (a b : TaskState) where
  go_left :
      AreApart a b
      → (p : TaskState) → a.parent_state ≡ some p.index
      → lookup p.index m ≡ some p
      → b.task_depth < a.task_depth
      → sorts_before (suc fuel) m a b ≡ sorts_before fuel m p b
  unfolding sorts_before
  go_left (apart) p e here deeper =
      let up : parent_of m a ≡ some p = rw (e) here in
      rw (apart.parents, apart.not_under, apart.not_over, lt→ltb _ _ deeper, up) refl

  go_right :
      AreApart a b
      → (q : TaskState) → b.parent_state ≡ some q.index
      → lookup q.index m ≡ some q
      → a.task_depth < b.task_depth
      → sorts_before (suc fuel) m a b ≡ sorts_before fuel m a q
  unfolding sorts_before
  go_right apart q e here deeper =
      let up : parent_of m b ≡ some q = rw (e) here in
      let no : ltb b.task_depth a.task_depth ≡ false = ground arith in
      rw (apart.parents, apart.not_under, apart.not_over, no, lt→ltb _ _ deeper, up) refl

  go_both :
      AreApart a b
      → (p q : TaskState) → a.parent_state ≡ some p.index
      → lookup p.index m ≡ some p
      → b.parent_state ≡ some q.index
      → lookup q.index m ≡ some q
      → a.task_depth ≡ b.task_depth
      → sorts_before (suc fuel) m a b ≡ sorts_before fuel m p q
  unfolding sorts_before
  go_both apart p q e here e' here' level =
      let up : parent_of m a ≡ some p = rw (e) here in
      let up' : parent_of m b ≡ some q = rw (e') here' in
      let no : ltb b.task_depth a.task_depth ≡ false = ground arith in
      let no' : ltb a.task_depth b.task_depth ≡ false = ground arith in
      rw (apart.parents, apart.not_under, apart.not_over, no, no', up, up') refl

-- The comparison decides right for all tasks of which this fuel is enough.
DecidesFor : ℕ → Tasks → Type 0
DecidesFor fuel m =
    (a b : TaskState) (xs ys : List ℕ)
    → IsBelow m a xs
    → IsBelow m b ys
    → lookup a.index m ≡ some a
    → lookup b.index m ≡ some b
    → length xs + length ys < fuel
    → sorts_before fuel m a b ≡ some (lex (place xs a) (place ys b))

module _ (fuel : ℕ) (m : Tasks) (a b : TaskState) (xs ys : List ℕ) (h : IsBelow m a xs)
    (k : IsBelow m b ys) (decides : DecidesFor fuel m) (here_a : lookup a.index m ≡ some a)
    (here_b : lookup b.index m ≡ some b) (apart : AreApart a b)
    (enough : length xs + length ys < suc fuel) where
  left_lex :
      b.task_depth < a.task_depth
      → sorts_before (suc fuel) m a b ≡ some (lex (place xs a) (place ys b))
  unfolding DecidesFor
  left_lex deeper =
      let (p, over, e, here, whole, above) = IsBelow-up h (omega (arith, deeper)) in
      let l : length xs ≡ length over + 1 = ap length whole ∙ (length-append over (p.index ∷ [])) in
      let next = decides p b over ys above k here here_b (omega (arith, l, enough)) in
      let ready : length (place ys b) ≤ length xs =
        omega (arith, deeper, length-append ys (b.index ∷ []), IsBelow-depth h, IsBelow-depth k) in
      let same = lex-left xs (place ys b) a.index ready in
      go_left fuel m a b apart p e here deeper
      ∙ next
      ∙ ap (λ zs. some (lex zs (place ys b))) (sym whole)
      ∙ ap some (sym same)

  right_lex :
      a.task_depth < b.task_depth
      → sorts_before (suc fuel) m a b ≡ some (lex (place xs a) (place ys b))
  unfolding DecidesFor
  right_lex deeper =
      let (q, over, e, here, whole, above) = IsBelow-up k (omega (arith, deeper)) in
      let l : length ys ≡ length over + 1 = ap length whole ∙ (length-append over (q.index ∷ [])) in
      let next = decides a q xs over h above here_a here (omega (arith, l, enough)) in
      let ready : length (place xs a) ≤ length ys =
        omega (arith, deeper, length-append xs (a.index ∷ []), IsBelow-depth h, IsBelow-depth k) in
      let differ : place xs a ≢ ys = λ p.
        let e' : over ++ q.index ∷ [] ≡ place xs a = sym whole ∙ sym p in
        let i : q.index ≡ a.index = (snoc_inj over xs q.index a.index e').1 in
        absurd (cc (apart.not_over, e, i, same_parent_self (some a.index))) in
      let same = lex-right (place xs a) ys b.index ready differ in
      go_right fuel m a b apart q e here deeper
      ∙ next
      ∙ ap (λ zs. some (lex (place xs a) zs)) (sym whole)
      ∙ ap some (sym same)

  level_lex :
      a.task_depth ≡ b.task_depth
      → sorts_before (suc fuel) m a b ≡ some (lex (place xs a) (place ys b))
  unfolding DecidesFor
  level_lex level = elim (Bool-cases (ltb 0 a.task_depth)) [
    | inr top ↦
        let none_a = IsBelow-top h (ground arith) in
        let none_b = IsBelow-top k (ground arith) in
        absurd (cc (apart.parents, none_a, none_b, same_parent_self none))
    | inl deep ↦
        let lower : 0 < a.task_depth = ltb→lt _ _ deep in
        let (p, over, e, here, whole, above) = IsBelow-up h lower in
        let (q, over', e', here', whole', above') = IsBelow-up k (omega (arith, lower, level)) in
        let l : length xs ≡ length over + 1 =
          ap length whole ∙ (length-append over (p.index ∷ [])) in
        let l' : length ys ≡ length over' + 1 =
          ap length whole' ∙ (length-append over' (q.index ∷ [])) in
        let next = decides p q over over' above above' here here' (omega (arith, l, l', enough)) in
        let even : length xs ≡ length ys = sym (IsBelow-depth h) ∙ level ∙ IsBelow-depth k in
        let differ : xs ≢ ys = λ same.
          let i : p.index ≡ q.index =
            (snoc_inj over over' p.index q.index (sym whole ∙ same ∙ whole')).1 in
          absurd (cc (apart.parents, e, e', i, same_parent_self (some p.index))) in
        let same = lex-level xs ys a.index b.index even differ in
        go_both fuel m a b apart p q e here e' here' level
        ∙ next
        ∙ ap (λ zs. some (lex zs (place over' q))) (sym whole)
        ∙ ap (λ zs. some (lex xs zs)) (sym whole')
        ∙ ap some (sym same)
  ]

  apart_lex : sorts_before (suc fuel) m a b ≡ some (lex (place xs a) (place ys b))
  apart_lex = elim (Bool-cases (ltb b.task_depth a.task_depth)) [
    | inl deeper ↦ left_lex (ltb→lt _ _ deeper)
    | inr not_deeper ↦ elim (Bool-cases (ltb a.task_depth b.task_depth)) [
      | inl deeper ↦ right_lex (ltb→lt _ _ deeper)
      | inr not_above ↦ level_lex (ground arith)
    ]
  ]

-- For two listed tasks whose ancestors are all listed, each one less deep than its child, the comparison
-- of sortTaskList ends, on any fuel above the number of their ancestors, and puts the one before the
-- other that comes first in the lexicographic order of the indices from their roots down to them.
pub sorts_before-lex :
    (fuel : ℕ) (m : Tasks) (a b : TaskState) (xs ys : List ℕ)
    → IsBelow m a xs
    → IsBelow m b ys
    → lookup a.index m ≡ some a
    → lookup b.index m ≡ some b
    → length xs + length ys < fuel
    → sorts_before fuel m a b ≡ some (lex (place xs a) (place ys b))
unfolding sorts_before DecidesFor
sorts_before-lex zero m a b xs ys h k here_a here_b enough = absurd (omega (arith, enough))
sorts_before-lex (suc fuel) m a b xs ys h k here_a here_b enough =
    elim (Bool-cases (same_parent a.parent_state b.parent_state)) [
      | inl same ↦
          let e : xs ≡ ys = IsBelow-parent h k (same_parent-eq _ _ same) in
          rw (same, e, lex-siblings ys a.index b.index) refl
      | inr other ↦ elim (Bool-cases (same_parent a.parent_state (some b.index))) [
        | inl under ↦
            let e : xs ≡ place ys b = IsBelow-place h k here_b (same_parent-eq _ _ under) in
            rw
              (
                other,
                under,
                e,
                lex-left (place ys b) (place ys b) a.index (omega arith),
                lex_self (place ys b),
              )
              refl
        | inr not_under ↦ elim (Bool-cases (same_parent b.parent_state (some a.index))) [
          | inl over ↦
              let e : ys ≡ place xs a = IsBelow-place k h here_a (same_parent-eq _ _ over) in
              rw (other, not_under, over, e, lex-parent (place xs a) b.index) refl
          | inr not_over ↦
              let apart : AreApart a b = record {
                parents = other;
                not_under = not_under;
                not_over = not_over;
              } in
              apart_lex fuel m a b xs ys h k (sorts_before-lex fuel m) here_a here_b apart enough
        ]
      ]
    ]
