-- ===== src/Vars.antt =====
-- Variable scopes: pkg/coordinator/vars/variables.go and scope_filter.go. The scopes live on a heap
-- and refer to one another by their addresses, as the Go objects do by pointers. The parts that run
-- a regular expression, a jq query or a YAML encoder are not modelled.
pub mod Chain
pub mod Writes
mod Examples
use assertoor.Prelude.{
  ℕ, zero, suc, String, Bool, true, false, Option, none, some, List, [], ◌∷◌, ◌++◌, arith,
  if◌then◌else◌, length, get_elem?, set, nat_key, string_key, lookup, insert,
}

-- `interface{}`: a value that the scopes only pass on, or the map that a sub scope is read as.
mutual
  pub data Value : Type 0 where
    bool : Bool → Value
    num : ℕ → Value
    text : String → Value
    object : Fields → Value

  pub data Fields : Type 0 where
    end : Fields
    field : String → Value → Fields → Fields

-- `_, exists := m[name]`.
pub has_field : String → Fields → Bool
has_field name end = false
has_field name (field k v rest) = if string_key.beq k name then true else has_field name rest

-- `if !exists { m[name] = v }`.
unfoldable pub add_field : String → Value → Fields → Fields
add_field name v end = field name v end
add_field name v (field k w rest) =
    if string_key.beq k name then field k w rest else field k w (add_field name v rest)

-- A variable is defined exactly when its map has an entry, so `isDefined` is no field of its own.
pub record Scope : Type 0 where
  pub parent_scope : Option ℕ
  pub vars_map : List (String × Value)
  pub defaults_map : List (String × Value)
  pub sub_scopes : List (String × ℕ)

pub data Object : Type 0 where
  variables : Scope → Object
  scope_filter : ℕ → Object

abbrev pub Heap : Type 0
Heap = List Object

abbrev pub empty_scope : Option ℕ → Scope
empty_scope parent = record {
  parent_scope = parent;
  vars_map = [];
  defaults_map = [];
  sub_scopes = [];
}

-- The new heap and the address of the new object.
unfoldable pub alloc : Object → Heap → Heap × ℕ
alloc o h = (h ++ o ∷ [], length h)

unfoldable pub new_variables : Option ℕ → Heap → Heap × ℕ
unfolding alloc
new_variables parent h = alloc (variables (empty_scope parent)) h

unfoldable pub new_scope : ℕ → Heap → Heap × ℕ
unfolding new_variables
new_scope v h = new_variables (some v) h

unfoldable pub new_scope_filter : ℕ → Heap → Heap × ℕ
unfolding alloc
new_scope_filter v h = alloc (scope_filter v) h

-- An update of a scope goes through the filters in front of it: `f` is the depth followed.
unfoldable pub update_scope : ℕ → (Scope → Scope) → ℕ → Heap → Heap
update_scope zero change v h = h
update_scope (suc f) change v h = elim (get_elem? h v) [
  | none ↦ h
  | some (variables s) ↦ set h v (variables (change s))
  | some (scope_filter w) ↦ update_scope f change w h
]

-- A chain of filters or of parents is never longer than the heap.
unfoldable pub set_var : ℕ → String → Value → Heap → Heap
unfolding update_scope
set_var v name value h =
    update_scope (length h) (λ s. record s { vars_map = insert name value s.vars_map }) v h

unfoldable pub set_default_var : ℕ → String → Value → Heap → Heap
unfolding update_scope
set_default_var v name value h =
    update_scope (length h) (λ s. record s { defaults_map = insert name value s.defaults_map }) v h

unfoldable pub set_sub_scope : ℕ → String → ℕ → Heap → Heap
unfolding update_scope
set_sub_scope v name sub h =
    update_scope (length h) (λ s. record s { sub_scopes = insert name sub s.sub_scopes }) v h

-- The sub scope `name` of the scope at `v`, made with the given parent if it is missing.
unfoldable pub own_sub_scope : ℕ → String → Option ℕ → Heap → Heap × ℕ
unfolding new_variables
own_sub_scope v name parent h = elim (get_elem? h v) [
  | some (variables s) ↦ elim (lookup name s.sub_scopes) [
    | some sub ↦ (h, sub)
    | none ↦
        let (h', sub) = new_variables parent h in
        (set h' v (variables (record s { sub_scopes = insert name sub s.sub_scopes })), sub)
  ]
  | other ↦ (h, v)
]

-- `GetSubScope`: the parent's sub scope is made first, and becomes the parent of the new one.
unfoldable pub get_sub_scope : ℕ → ℕ → String → Heap → Heap × ℕ
get_sub_scope zero v name h = (h, v)
get_sub_scope (suc f) v name h = elim (get_elem? h v) [
  | none ↦ (h, v)
  | some (scope_filter w) ↦ get_sub_scope f w name h
  | some (variables s) ↦ elim s.parent_scope [
    | none ↦ own_sub_scope v name none h
    | some p ↦ let (h', sub) = get_sub_scope f p name h in own_sub_scope v name (some sub) h'
  ]
]

-- `GetVarsMap`: `acc` keeps what it has. `rec` reads another scope.
add_sub_scopes : (ℕ → Fields) → List (String × ℕ) → Fields → Fields
add_sub_scopes rec [] acc = acc
add_sub_scopes rec ((name, sub) ∷ subs) acc =
    add_sub_scopes rec subs
      (if has_field name acc then acc else add_field name (object (rec sub)) acc)

add_vars : List (String × Value) → Fields → Fields
add_vars [] acc = acc
add_vars ((name, value) ∷ vs) acc = add_vars vs (add_field name value acc)

-- A scope map can be cyclic, and the source then does not return: the fuel is a bound on the depth.
unfoldable pub get_vars_map : ℕ → Heap → ℕ → Fields → Bool → Fields
unfolding add_sub_scopes add_vars
get_vars_map zero h v acc skip_parent = acc
get_vars_map (suc f) h v acc skip_parent = elim (get_elem? h v) [
  | none ↦ acc
  | some (scope_filter w) ↦ get_vars_map f h w acc true
  | some (variables s) ↦
      let own =
        add_vars s.vars_map
          (add_sub_scopes (λ sub. get_vars_map f h sub end skip_parent) s.sub_scopes acc) in
      add_vars s.defaults_map (elim s.parent_scope [
        | none ↦ own
        | some p ↦ let above = get_vars_map f h p own false in if skip_parent then own else above
      ])
]

-- `LookupVar`: `none` is a variable that is not found. `depth` bounds the maps of sub scopes.
unfoldable pub lookup_var : ℕ → ℕ → Heap → ℕ → String → Option Value
unfolding get_vars_map
lookup_var depth zero h v name = none
lookup_var depth (suc f) h v name = elim (get_elem? h v) [
  | none ↦ none
  | some (scope_filter w) ↦ lookup_var depth f h w name
  | some (variables s) ↦ elim (lookup name s.sub_scopes) [
    | some sub ↦ some (object (get_vars_map depth h sub end false))
    | none ↦ elim (lookup name s.vars_map) [
      | some value ↦ some value
      | none ↦ elim s.parent_scope [
        | some p ↦ lookup_var depth f h p name
        | none ↦ lookup name s.defaults_map
      ]
    ]
  ]
]
