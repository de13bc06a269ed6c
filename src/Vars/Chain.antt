-- ===== src/Vars/Chain.antt =====
-- What a lookup finds along the parents of a scope (vars/variables.go, LookupVar).
use assertoor.Prelude.{
  ℕ, zero, suc, ◌<◌, String, ◌≡◌, refl, ◌≢◌, inl, inr, false, Option, none, some, List, [], ◌∷◌,
  arith, Option-cases, get_elem?, nat_key, string_key, lookup,
}
use assertoor.Vars.{
  Value, object, end, Scope, Object, variables, scope_filter, Heap, get_vars_map, lookup_var,
}

-- A parent and the target of a filter are made before what refers to them.
abbrev pub IsOlder : ℕ → Object → Type 0
IsOlder v (variables s) = (p : ℕ) → s.parent_scope ≡ some p → p < v
IsOlder v (scope_filter w) = w < v

abbrev pub IsWellFounded : Heap → Type 0
IsWellFounded h = (v : ℕ) (o : Object) → get_elem? h v ≡ some o → IsOlder v o

-- The scopes from one scope up to its root.
pub data Chain (h : Heap) : ℕ → List Scope → Type 0 where
  root :
      {v : ℕ} {s : Scope}
      → get_elem? h v ≡ some (variables s)
      → s.parent_scope ≡ none
      → Chain h v (s ∷ [])
  up :
      {v p : ℕ} {s : Scope} {ss : List Scope}
      → get_elem? h v ≡ some (variables s)
      → s.parent_scope ≡ some p
      → Chain h p ss
      → Chain h v (s ∷ ss)
  through :
      {v w : ℕ} {ss : List Scope}
      → get_elem? h v ≡ some (scope_filter w)
      → Chain h w ss
      → Chain h v ss

-- The value of a name in the innermost scope that has it; the defaults of the root come last.
pub nearest : ℕ → Heap → String → List Scope → Option Value
nearest depth h name [] = none
nearest depth h name (s ∷ ss) = elim (lookup name s.sub_scopes) [
  | some sub ↦ some (object (get_vars_map depth h sub end false))
  | none ↦ elim (lookup name s.vars_map) [
    | some value ↦ some value
    | none ↦ elim ss [ [] ↦ lookup name s.defaults_map | _ ∷ _ ↦ nearest depth h name ss ]
  ]
]

Chain-ne_nil : {h : Heap} {v : ℕ} {ss : List Scope} → Chain h v ss → ss ≢ []
Chain-ne_nil (root e top) = λ n. cc
Chain-ne_nil (up e above c) = λ n. cc
Chain-ne_nil (through e c) = Chain-ne_nil c

-- Along any chain of scopes, with fuel above the address of the scope, a lookup is the nearest
-- definition.
pub lookup_var-nearest :
    (depth f : ℕ) (h : Heap) (name : String) {v : ℕ} {ss : List Scope}
    → IsWellFounded h
    → Chain h v ss
    → v < f
    → lookup_var depth f h v name ≡ nearest depth h name ss
unfolding lookup_var nearest
lookup_var-nearest depth zero h name wf c enough = absurd (omega arith)
lookup_var-nearest depth (suc f) h name {v = v} wf (root {s = s} e top) enough =
    rw (e, lookup_var) (ground arith)
lookup_var-nearest depth (suc f) h name {v = v} wf (up {p = p} {s = s} {ss = ss} e above c) enough =
    let below = wf v (variables s) e p above in
    rw (e, lookup_var)
      (ground (arith, Chain-ne_nil c, lookup_var-nearest depth f h name wf c (omega arith)))
lookup_var-nearest depth (suc f) h name {v = v} wf (through {w = w} e c) enough =
    let below = wf v (scope_filter w) e in
    rw (e, lookup_var) (lookup_var-nearest depth f h name wf c (omega arith))

-- No scope of the heap has a sub scope of this name, which would hide variables.
abbrev pub IsPlain : Heap → String → Type 0
IsPlain h name =
    (v : ℕ) (s : Scope) → get_elem? h v ≡ some (variables s) → lookup name s.sub_scopes ≡ none

-- Only the objects up to an address bear on a lookup from there.
pub lookup_var-below :
    (depth f : ℕ) (h h' : Heap) (name : String) (u v : ℕ)
    → IsWellFounded h
    → IsPlain h name
    → ((w : ℕ) → w < v → get_elem? h' w ≡ get_elem? h w)
    → u < v
    → lookup_var depth f h' u name ≡ lookup_var depth f h u name
unfolding lookup_var
lookup_var-below depth zero h h' name u v wf plain same lt = refl
lookup_var-below depth (suc f) h h' name u v wf plain same lt =
    elim (Option-cases (get_elem? h u)) [
      | inl e ↦ rw (same u lt, e, lookup_var)
      | inr (variables s, e) ↦
          rw (same u lt, e, lookup_var)
            (rw (plain u s e) (elim (Option-cases s.parent_scope) [
              | inl top ↦ ground (arith, top)
              | inr (p, above) ↦
                  let older = wf u (variables s) e p above in
                  ground (
                    arith,
                    above,
                    lookup_var-below depth f h h' name p v wf plain same (omega arith),
                  )
            ]))
      | inr (scope_filter w, e) ↦
          rw (same u lt, e, lookup_var)
            (let older = wf u (scope_filter w) e in
              lookup_var-below depth f h h' name w v wf plain same (omega arith))
    ]
