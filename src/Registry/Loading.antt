-- ===== src/Registry/Loading.antt =====
-- What LoadTests keeps (pkg/coordinator/testregistry.go).
use assertoor.Registry.{
  TestConfig, Descriptor, ExternalTestConfig, TestRegistry, Loader, add_external_test, register_all,
  add_configured, load_tests, is_known, load_local, load_external, load_test_descriptors,
}
use assertoor.Registry.Indices.{IsIndexed, Indexed, fresh-IsIndexed}
use assertoor.Registry.Requests.{
  add_external_test-Steps, Request, apply_requests, apply_requests-Indexed,
}
use assertoor.Prelude.{
  ℕ, suc, ◌+◌, ◌*◌, ◌%◌, ◌^◌, ◌≤◌, ◌<◌, ◌≡◌, refl, ap, inl, inr, Bool, Option, none, some, List, [],
  ◌∷◌, ◌++◌, arith, Bool-cases, length, length-append, nat_key, string_key, lookup, insert,
}

added_length :
    (o : Option Descriptor) (ds : List Descriptor) (n : ℕ)
    → length ds ≤ n
    → length (elim o as (λ x. List Descriptor) [ none ↦ ds | some d ↦ d ∷ ds ]) ≤ suc n
added_length none ds n h = omega arith
added_length (some d) ds n h = omega arith

register_all-Indexed :
    (ds : List Descriptor) (r : TestRegistry)
    → Indexed r
    → r.test_descriptor_index + length ds < 2 ^ 64
    → Indexed (register_all ds r)
      × ((register_all ds r).test_descriptor_index ≡ r.test_descriptor_index + length ds)
unfolding register_all Indexed
register_all-Indexed [] r ok fits = (ok, omega arith)
register_all-Indexed (d ∷ ds) r ok fits =
    let n = (r.test_descriptor_index + 1) % 2 ^ 64 in
    let next : TestRegistry = record r {
      test_descriptor_index = n;
      test_descriptors = insert d.id (record { descriptor = d; index = n }) r.test_descriptors;
    } in
    let small : n ≡ r.test_descriptor_index + 1 = omega arith in
    let (all, count) =
      register_all-Indexed ds next
        (fresh-IsIndexed d r.test_descriptor_index r.test_descriptors (omega arith) ok)
        (omega (arith, small, fits)) in
    (all, omega (arith, count, small))

add_configured-Steps :
    (l : Loader) (works : Bool) (stored exts : List ExternalTestConfig) (r : TestRegistry)
    → r.test_descriptor_index + length exts < 2 ^ 64
    → Indexed r
    → ((add_configured l works stored exts r).0.test_descriptor_index
        ≤ r.test_descriptor_index + length exts)
      × (length (add_configured l works stored exts r).1 ≤ length exts)
unfolding add_configured
add_configured-Steps l works stored [] r fits ok = (omega arith, omega arith)
add_configured-Steps l works stored (ext ∷ exts) r fits ok =
    let skipped = add_configured-Steps l works stored exts r (omega arith) ok in
    let s = add_external_test-Steps l works ext r (omega arith) ok in
    let added = add_external_test l works ext r in
    let rest =
      add_configured-Steps l works stored exts added.0 (omega (arith, s.counted, fits)) s.indexed in
    elim (Bool-cases (is_known stored ext)) [
      | inl known ↦ rw (known) (omega (arith, skipped.0), omega (arith, skipped.1))
      | inr new ↦
          rw (new) (omega (arith, rest.0, s.counted), added_length added.1 _ (length exts) rest.1)
    ]

length-load_local :
    (l : Loader) (idx : ℕ) (cfgs : List TestConfig) → length (load_local l idx cfgs) ≡ length cfgs
unfolding load_local
length-load_local l idx [] = refl
length-load_local l idx (cfg ∷ cfgs) = ap suc (length-load_local l (idx + 1) cfgs)

length-load_external :
    (l : Loader) (idx : ℕ) (exts : List ExternalTestConfig)
    → length (load_external l idx exts) ≡ length exts
unfolding load_external
length-load_external l idx [] = refl
length-load_external l idx (ext ∷ exts) = ap suc (length-load_external l (idx + 1) exts)

pub empty-IsIndexed : (n : ℕ) → IsIndexed n []
unfolding lookup
empty-IsIndexed n = record {
  positive = λ id e here. absurd (cc here);
  counted = λ id e here. absurd (cc here);
  apart = λ a b e f here_a here_b level. absurd (cc here_a);
}

module _ (l : Loader) (works : Bool) (local : List TestConfig)
    (stored configured : List ExternalTestConfig) (r : TestRegistry) (ok : Indexed r) where
  -- How many tests the loading may count.
  abbrev loads : ℕ
  loads = length local + length stored + 2 * length configured

  load_tests-Indexed :
      r.test_descriptor_index + loads < 2 ^ 64
      → Indexed (load_tests l works local stored configured r)
        × ((load_tests l works local stored configured r).test_descriptor_index
            ≤ r.test_descriptor_index + loads)
  unfolding load_tests load_test_descriptors Indexed
  load_tests-Indexed fits =
      let added = add_configured l works stored configured r in
      let (count, size) = add_configured-Steps l works stored configured r (omega arith) ok in
      let ds = load_local l 0 local ++ load_external l 0 stored in
      let total : length (ds ++ added.1) ≡ length local + length stored + length added.1 = omega (
        arith,
        length-append ds added.1,
        length-append (load_local l 0 local) (load_external l 0 stored),
        length-load_local l 0 local,
        length-load_external l 0 stored,
      ) in
      let start : TestRegistry = record added.0 { test_descriptors = [] } in
      let (all, counted) =
        register_all-Indexed (ds ++ added.1) start (empty-IsIndexed added.0.test_descriptor_index)
          (omega (arith, total, count, size, fits)) in
      (all, omega (arith, counted, total, count, size))

  -- On a registry in which it was so, as in an empty one, and as long as the indices do not overflow,
  -- each test has a positive index of its own, not above the counter, after the tests are loaded and
  -- whatever tests are then added and deleted.
  pub load_tests-apply_requests :
      (qs : List Request)
      → r.test_descriptor_index + loads + length qs < 2 ^ 64
      → Indexed (apply_requests l qs (load_tests l works local stored configured r))
  load_tests-apply_requests qs fits =
      let (all, counted) = load_tests-Indexed (omega arith) in
      apply_requests-Indexed l qs (load_tests l works local stored configured r) all
        (omega (arith, counted, fits))
