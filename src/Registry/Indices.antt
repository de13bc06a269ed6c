-- ===== src/Registry/Indices.antt =====
-- Each registered test has an index of its own (pkg/coordinator/testregistry.go).
use assertoor.Registry.{Descriptor, TestDescriptorEntry, TestRegistry}
use assertoor.Prelude.{
  ℕ, ◌+◌, ◌%◌, ◌^◌, ◌≤◌, ◌<◌, String, ◌≡◌, refl, sym, ap, ◌∙◌, ◌⊎◌, inl, inr, none, some, List,
  arith, Bool-cases, nat_key, string_key, lookup, insert, delete, lookup-insert, lookup-delete,
}

abbrev Entries : Type 0
Entries = List (String × TestDescriptorEntry)

-- The indices are positive, not above the counter, and no two tests have the same.
pub record IsIndexed (counter : ℕ) (m : List (String × TestDescriptorEntry)) : Type 0 where
  pub positive : (id : String) (e : TestDescriptorEntry) → lookup id m ≡ some e → 0 < e.index
  pub counted : (id : String) (e : TestDescriptorEntry) → lookup id m ≡ some e → e.index ≤ counter
  pub apart :
      (a b : String) (e f : TestDescriptorEntry)
      → lookup a m ≡ some e
      → lookup b m ≡ some f
      → e.index ≡ f.index
      → a ≡ b

some_inj {ℓ} : {A : Type ℓ} {a b : A} → some a ≡ some b → a ≡ b
some_inj {a} e = ap (λ o. elim o [ none ↦ a | some x ↦ x ]) e

-- An entry is the one that was just written, or it was there.
insert-cases :
    (k id : String) (v e : TestDescriptorEntry) (m : Entries)
    → lookup id (insert k v m) ≡ some e
    → ((k ≡ id) × (v ≡ e)) ⊎ (lookup id m ≡ some e)
insert-cases k id v e m here = elim (Bool-cases (string_key.beq k id)) [
  | inl same ↦
      let chosen : lookup id (insert k v m) ≡ some v = lookup-insert k id v m ∙ rw (same) refl in
      inl ((string_key.beq_iff k id).0 same, some_inj (sym chosen ∙ here))
  | inr other ↦
      let kept : lookup id (insert k v m) ≡ lookup id m =
        lookup-insert k id v m ∙ rw (other) refl in
      inr (sym kept ∙ here)
]

-- A write is right if the index is one of the test's own.
pub insert-IsIndexed :
    (k : String) (v : TestDescriptorEntry) (n n' : ℕ) (m : Entries)
    → 0 < v.index
    → v.index ≤ n'
    → n ≤ n'
    → ((id : String) (e : TestDescriptorEntry) → lookup id m ≡ some e → e.index ≡ v.index → k ≡ id)
    → IsIndexed n m
    → IsIndexed n' (insert k v m)
insert-IsIndexed k v n n' m above below grows own ok = record {
  positive = λ id e here. elim (insert-cases k id v e m here) [
    | inl (same, is) ↦ omega (arith, above, ap (λ (x : TestDescriptorEntry). x.index) is)
    | inr old ↦ ok.positive id e old
  ];
  counted = λ id e here. elim (insert-cases k id v e m here) [
    | inl (same, is) ↦ omega (arith, below, ap (λ (x : TestDescriptorEntry). x.index) is)
    | inr old ↦ omega (arith, ok.counted id e old, grows)
  ];
  apart = λ a b e f here_a here_b level. elim (insert-cases k a v e m here_a) [
    | inl (same, is) ↦ elim (insert-cases k b v f m here_b) [
      | inl (same', is') ↦ sym same ∙ same'
      | inr old ↦
          sym same ∙ own b f old (sym level ∙ sym (ap (λ (x : TestDescriptorEntry). x.index) is))
    ]
    | inr old ↦ elim (insert-cases k b v f m here_b) [
      | inl (same', is') ↦
          sym (own a e old (level ∙ sym (ap (λ (x : TestDescriptorEntry). x.index) is'))) ∙ same'
      | inr old' ↦ ok.apart a b e f old old' level
    ]
  ];
}

-- The registry as a whole.
unfoldable pub Indexed : TestRegistry → Type 0
Indexed r = IsIndexed r.test_descriptor_index r.test_descriptors

pub fresh-IsIndexed :
    (d : Descriptor) (n : ℕ) (m : Entries)
    → n + 1 < 2 ^ 64
    → IsIndexed n m
    → IsIndexed
        ((n + 1) % 2 ^ 64)
        (insert d.id (record { descriptor = d; index = (n + 1) % 2 ^ 64 }) m)
fresh-IsIndexed d n m fits ok =
    insert-IsIndexed d.id (record { descriptor = d; index = (n + 1) % 2 ^ 64 }) n ((n + 1) % 2 ^ 64)
      m (omega (arith, fits)) (omega arith) (omega (arith, fits))
      (λ id e here level.
        let small = ok.counted id e here in absurd (omega (arith, fits, small, level)))
      ok

pub delete-IsIndexed : (k : String) (n : ℕ) (m : Entries) → IsIndexed n m → IsIndexed n (delete k m)
delete-IsIndexed k n m ok = record {
  positive = λ id e here. ok.positive id e (old id e here);
  counted = λ id e here. ok.counted id e (old id e here);
  apart = λ a b e f here_a here_b level. ok.apart a b e f (old a e here_a) (old b f here_b) level;
}
  where
    old :
        (id : String) (e : TestDescriptorEntry)
        → lookup id (delete k m) ≡ some e
        → lookup id m ≡ some e
    old id e here = ground (arith, here, lookup-delete k id m)
