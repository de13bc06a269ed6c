-- ===== src/Vars/Examples.antt =====
-- Lookups in a root scope, its child and a filter in front of the child (vars/variables.go).
use mathlib.Core.Path.{subst}
use assertoor.Vars.{num, text, Scope, Object, variables, scope_filter, Heap, set_var, lookup_var}
use assertoor.Vars.Chain.{
  IsOlder, IsWellFounded, root, up, through, nearest, IsPlain, lookup_var-nearest,
}
use assertoor.Vars.Writes.{set_var-lookup_var}
use assertoor.Prelude.{
  ℕ, zero, suc, String, ◌≡◌, refl, sym, ◌≢◌, none, some, [], ◌∷◌, arith, nat_key, string_key,
  lookup,
}

abbrev root_scope : Scope
root_scope = record {
  parent_scope = none;
  vars_map = ("slot", num 32) ∷ [];
  defaults_map = ("name", text "net") ∷ [];
  sub_scopes = [];
}

abbrev child_scope : Scope
child_scope = record {
  parent_scope = some 0;
  vars_map = ("epoch", num 1) ∷ [];
  defaults_map = [];
  sub_scopes = [];
}

abbrev heap : Heap
heap = variables root_scope ∷ variables child_scope ∷ scope_filter 1 ∷ []

found : {o p : Object} → some p ≡ some o → p ≡ o
found e = cc

found_scope : {s t : Scope} → some (variables s) ≡ some (variables t) → s ≡ t
found_scope e = cc

no_scope : {s : Scope} {v : ℕ} → some (scope_filter v) ≡ some (variables s) → ⊥
no_scope e = cc

nothing : {o : Object} → none ≡ some o → ⊥
nothing e = cc

heap-IsWellFounded : IsWellFounded heap
heap-IsWellFounded zero o e = subst (IsOlder 0) (found e) (λ p q. cc)
heap-IsWellFounded (suc zero) o e = subst (IsOlder 1) (found e) (λ p q. ground arith)
heap-IsWellFounded (suc (suc zero)) o e = subst (IsOlder 2) (found e) (omega arith)
heap-IsWellFounded (suc (suc (suc v))) o e = absurd (nothing e)

heap-IsPlain : (name : String) → IsPlain heap name
unfolding lookup
heap-IsPlain name zero s e = rw (sym (found_scope e)) refl
heap-IsPlain name (suc zero) s e = rw (sym (found_scope e)) refl
heap-IsPlain name (suc (suc zero)) s e = absurd (no_scope e)
heap-IsPlain name (suc (suc (suc v))) s e = absurd (nothing e)

lookup_var-nearest_example :
    lookup_var 4 3 heap 2 "slot" ≡ nearest 4 heap "slot" (child_scope ∷ root_scope ∷ [])
lookup_var-nearest_example =
    lookup_var-nearest 4 3 heap "slot" heap-IsWellFounded
      (through refl (up refl refl (root refl refl))) (omega arith)

slot_found : lookup_var 4 3 heap 2 "slot" ≡ some (num 32)
unfolding lookup_var lookup
slot_found = refl

abbrev epoch : String
epoch = "epoch"

other_name : epoch ≢ "slot"
other_name e = grind (arith, string_key.beq_iff epoch "slot", e)

set_var-lookup_var_example :
    let h' = set_var 1 "slot" (num 33) heap in
    (lookup_var 4 3 h' 1 "slot" ≡ some (num 33))
    × (lookup_var 4 3 h' 1 "epoch" ≡ lookup_var 4 3 heap 1 "epoch")
    × (lookup_var 4 3 h' 0 "slot" ≡ lookup_var 4 3 heap 0 "slot")
    × (lookup_var 4 3 h' 0 "epoch" ≡ lookup_var 4 3 heap 0 "epoch")
set_var-lookup_var_example =
    set_var-lookup_var 4 2 heap "slot" (num 33) 1 child_scope heap-IsWellFounded refl "epoch" 0
      (heap-IsPlain "slot") (heap-IsPlain "epoch") other_name (omega arith)
