-- ===== src/Vars/Writes.antt =====
-- What writing a variable or a default changes (vars/variables.go).
use assertoor.Prelude.{
  ℕ, suc, ◌<◌, String, ◌≡◌, ◌≢◌, inl, inr, Bool, true, some, List, [], ◌∷◌, arith, Bool-cases,
  Option-cases, length, get_elem?, set, get_elem?-set_self, get_elem?-set_ne, get_elem?_bound,
  nat_key, string_key, lookup, insert, lookup-insert,
}
use assertoor.Vars.{
  Value, Fields, end, field, has_field, add_field, Scope, Object, variables, Heap, update_scope,
  set_var, set_default_var, get_vars_map, lookup_var, add_vars,
}
use assertoor.Vars.Chain.{IsWellFounded, IsPlain, lookup_var-below}

-- An update of a plain scope writes that one object.
update_scope-variables :
    (change : Scope → Scope) (h : Heap) (v : ℕ) (s : Scope)
    → get_elem? h v ≡ some (variables s)
    → update_scope (length h) change v h ≡ set h v (variables (change s))
unfolding update_scope
update_scope-variables change [] v s e = cc
update_scope-variables change (o ∷ os) v s e = rw (e, update_scope)

has_field-add_field :
    (name n : String) (v : Value) (fs : Fields)
    → has_field name fs ≡ true
    → has_field name (add_field n v fs) ≡ true
unfolding has_field add_field
has_field-add_field name n v end h = cc
has_field-add_field name n v (field k w fs) h = ground (arith, has_field-add_field name n v fs)

has_field-add_field_self :
    (name : String) (v : Value) (fs : Fields) → has_field name (add_field name v fs) ≡ true
unfolding has_field add_field
has_field-add_field_self name v end = ground (arith, string_key.beq_iff name name)
has_field-add_field_self name v (field k w fs) = ground (arith, has_field-add_field_self name v fs)

has_field-add_vars :
    (name : String) (vs : List (String × Value)) (acc : Fields)
    → has_field name acc ≡ true
    → has_field name (add_vars vs acc) ≡ true
unfolding add_vars
has_field-add_vars name [] acc h = h
has_field-add_vars name ((n, v) ∷ vs) acc h =
    has_field-add_vars name vs (add_field n v acc) (has_field-add_field name n v acc h)

-- What is added to a map from a list that has the name is there.
has_field-add_vars_mem :
    (name : String) (vs : List (String × Value)) (acc : Fields) {v : Value}
    → lookup name vs ≡ some v
    → has_field name (add_vars vs acc) ≡ true
unfolding add_vars lookup
has_field-add_vars_mem name [] acc h = cc
has_field-add_vars_mem name ((n, w) ∷ vs) acc h = elim (Bool-cases (string_key.beq n name)) [
  | inl e ↦
      has_field-add_vars name vs (add_field n w acc)
        (rw ((string_key.beq_iff n name).0 e) (has_field-add_field_self name w acc))
  | inr ne ↦ has_field-add_vars_mem name vs (add_field n w acc) (rw ne at h)
]

module _ (depth f : ℕ) (h : Heap) (name : String) (value : Value) (v : ℕ) (s : Scope)
    (wf : IsWellFounded h) (here : get_elem? h v ≡ some (variables s)) where
  untouched : (o : Object) (w : ℕ) → w < v → get_elem? (set h v o) w ≡ get_elem? h w
  untouched o w lt = get_elem?-set_ne h v w o (λ e. omega (arith, e))

  replaced : (o : Object) → get_elem? (set h v o) v ≡ some o
  replaced o = get_elem?-set_self h v o (get_elem?_bound h v here)

  abbrev with_var : Scope
  with_var = record s { vars_map = insert name value s.vars_map }

  abbrev with_default : Scope
  with_default = record s { defaults_map = insert name value s.defaults_map }

  found_here :
      IsPlain h name → lookup_var depth (suc f) (set h v (variables with_var)) v name ≡ some value
  unfolding lookup_var
  found_here plain =
      rw (replaced (variables with_var), lookup_var)
        (rw (plain v s here, lookup-insert name name value s.vars_map)
          (ground (arith, string_key.beq_iff name name)))

  others_here :
      (other : String)
      → IsPlain h other
      → other ≢ name
      → lookup_var depth (suc f) (set h v (variables with_var)) v other
        ≡ lookup_var depth (suc f) h v other
  unfolding lookup_var
  others_here other plain ne =
      rw (replaced (variables with_var), here, lookup_var)
        (rw (plain v s here, lookup-insert name other value s.vars_map)
          (elim (Option-cases s.parent_scope) [
            | inl top ↦ ground (arith, top, string_key.beq_iff name other)
            | inr (p, above) ↦
                let same =
                  lookup_var-below depth f h (set h v (variables with_var)) other p v wf plain
                    (untouched (variables with_var)) (wf v (variables s) here p above) in
                ground (arith, above, string_key.beq_iff name other, same)
          ]))

  -- After `SetVar` on a scope, a lookup there (of a name that is no sub scope anywhere) finds the
  -- value, a lookup of any other name there finds what it found before, and so does a lookup of
  -- either name from an older scope, such as a parent or a sibling made before.
  pub set_var-lookup_var :
      (other : String) (u : ℕ)
      → IsPlain h name
      → IsPlain h other
      → other ≢ name
      → u < v
      → let h' = set_var v name value h in
        (lookup_var depth (suc f) h' v name ≡ some value)
        × (lookup_var depth (suc f) h' v other ≡ lookup_var depth (suc f) h v other)
        × (lookup_var depth (suc f) h' u name ≡ lookup_var depth (suc f) h u name)
        × (lookup_var depth (suc f) h' u other ≡ lookup_var depth (suc f) h u other)
  unfolding set_var
  set_var-lookup_var other u plain plain' ne lt =
      rw
        (update_scope-variables (λ t. record t { vars_map = insert name value t.vars_map }) h v s
          here)
        (
          found_here plain,
          others_here other plain' ne,
          lookup_var-below depth (suc f) h (set h v (variables with_var)) name u v wf plain
              (untouched (variables with_var)) lt,
          lookup_var-below depth (suc f) h (set h v (variables with_var)) other u v wf plain'
              (untouched (variables with_var)) lt,
        )

  -- A default that is set on a scope with a parent is never found by `LookupVar`, while
  -- `GetVarsMap` has an entry for it: lookups read the defaults of the root only.
  pub set_default_var-lookup_var :
      (p : ℕ) (skip : Bool)
      → IsPlain h name
      → s.parent_scope ≡ some p
      → let h' = set_default_var v name value h in
        (lookup_var depth (suc f) h' v name ≡ lookup_var depth (suc f) h v name)
        × (has_field name (get_vars_map (suc f) h' v end skip) ≡ true)
  unfolding set_default_var lookup_var get_vars_map
  set_default_var-lookup_var p skip plain above =
      rw
        (update_scope-variables (λ t. record t { defaults_map = insert name value t.defaults_map })
          h v s here)
        (
          rw (replaced (variables with_default), here, lookup_var)
              (rw (plain v s here) (ground (arith, above, same))),
          rw (replaced (variables with_default), get_vars_map)
              (has_field-add_vars_mem name (insert name value s.defaults_map) _ stored),
        )
    where
      same :
          lookup_var depth f (set h v (variables with_default)) p name ≡ lookup_var depth f h p name
      same =
          lookup_var-below depth f h (set h v (variables with_default)) name p v wf plain
            (untouched (variables with_default)) (wf v (variables s) here p above)

      stored : lookup name (insert name value s.defaults_map) ≡ some value
      stored =
          rw (lookup-insert name name value s.defaults_map)
            (ground (arith, string_key.beq_iff name name))
