-- ===== src/Registry/Requests.antt =====
-- What the requests to the registry keep (pkg/coordinator/testregistry.go).
use assertoor.Registry.{
  TestConfig, Descriptor, ExternalTestConfig, TestDescriptorEntry, TestRegistry, Loader, is_empty,
  index_of, store_descriptor, add_local_test, insert_test_config, add_loaded_test,
  add_external_test, delete_test,
}
use assertoor.Registry.Indices.{Indexed, insert-IsIndexed, fresh-IsIndexed, delete-IsIndexed}
use assertoor.Prelude.{
  ◌+◌, ◌^◌, ◌≤◌, ◌<◌, String, ◌≡◌, sym, ap, inl, inr, Bool, true, false, ◌||◌, Option, none, some,
  List, [], ◌∷◌, arith, ◌==◌, if◌then◌else◌, Option-cases, length, nat_key, string_key, lookup,
  insert, delete,
}

-- The registry keeps its indices apart and has counted at most one test more.
pub record Steps (r next : TestRegistry) : Type 0 where
  pub indexed : Indexed next
  pub counted : next.test_descriptor_index ≤ r.test_descriptor_index + 1

stays : (r : TestRegistry) → Indexed r → Steps r r
stays r ok = record { indexed = ok; counted = omega arith }

Steps-either :
    (b : Bool) (r : TestRegistry) (p q : TestRegistry × Option Descriptor)
    → Steps r p.0
    → Steps r q.0
    → (let c : TestRegistry × Option Descriptor = if b then p else q in Steps r c.0)
Steps-either true r p q ok ok' = ok
Steps-either false r p q ok ok' = ok'

store_descriptor-Steps :
    (d : Descriptor) (r : TestRegistry)
    → r.test_descriptor_index + 1 < 2 ^ 64
    → Indexed r
    → Steps r (store_descriptor d r)
unfolding store_descriptor Indexed
store_descriptor-Steps d r fits ok = elim (Option-cases (lookup d.id r.test_descriptors)) [
  | inl missing ↦
      let absent : index_of d.id r ≡ 0 = ap (λ o. elim o [ none ↦ 0 | some e ↦ e.index ]) missing in
      rw (absent) (record {
        indexed = fresh-IsIndexed d r.test_descriptor_index r.test_descriptors fits ok;
        counted = omega (arith, fits);
      })
  | inr (e, here) ↦
      let known : index_of d.id r ≡ e.index =
        ap (λ o. elim o [ none ↦ 0 | some e ↦ e.index ]) here in
      let positive = ok.positive d.id e here in
      let no : (e.index == 0) ≡ false = ground arith in
      let v : TestDescriptorEntry = record { descriptor = d; index = e.index } in
      rw (known, no)
        (record {
          indexed =
              insert-IsIndexed d.id v r.test_descriptor_index r.test_descriptor_index
                r.test_descriptors positive (ok.counted d.id e here) (omega arith)
                (λ id f there level. ok.apart d.id id e f here there (sym level)) ok;
          counted = omega arith;
        })
]

add_local_test-Steps :
    (l : Loader) (cfg : TestConfig) (r : TestRegistry)
    → r.test_descriptor_index + 1 < 2 ^ 64
    → Indexed r
    → Steps r (add_local_test l cfg r).0
unfolding add_local_test
add_local_test-Steps l cfg r fits ok =
    let d : Descriptor = record {
      id = cfg.id;
      source = "api-call";
      config = some cfg;
      has_error = false;
    } in
    Steps-either (is_empty cfg.id) r (r, none) _ (stays r ok)
      (Steps-either (l.copies_vars cfg) r (store_descriptor d r, some d) (r, none)
        (store_descriptor-Steps d r fits ok) (stays r ok))

add_loaded_test-Steps :
    (l : Loader) (works : Bool) (ext : ExternalTestConfig) (o : Option TestConfig)
    (r : TestRegistry)
    → r.test_descriptor_index + 1 < 2 ^ 64
    → Indexed r
    → Steps r (add_loaded_test l works ext o r).0
unfolding add_loaded_test Indexed
add_loaded_test-Steps l works ext none r fits ok = stays r ok
add_loaded_test-Steps l works ext (some cfg) r fits ok =
    let d : Descriptor = record {
      id = cfg.id;
      source = l.external_source ext.file;
      config = some cfg;
      has_error = false;
    } in
    let stored : ExternalTestConfig = record ext { id = cfg.id; name = cfg.name } in
    Steps-either (is_empty cfg.id || is_empty cfg.name || (cfg.tasks == 0)) r (r, none)
      (store_descriptor d (insert_test_config works stored r), some d) (stays r ok)
      (with_row works stored d)
  where
    with_row :
        (works : Bool) (stored : ExternalTestConfig) (d : Descriptor)
        → Steps r (store_descriptor d (insert_test_config works stored r))
    with_row true stored d =
        let r' : TestRegistry = record r {
          test_configs = insert stored.id stored r.test_configs;
        } in
        let s = store_descriptor-Steps d r' fits ok in
        record { indexed = s.indexed; counted = s.counted }
    with_row false stored d = store_descriptor-Steps d r fits ok

delete_test-Steps :
    (works : Bool) (id : String) (r : TestRegistry) → Indexed r → Steps r (delete_test works id r).0
unfolding delete_test Indexed
delete_test-Steps works id r ok =
    elim (lookup id r.test_descriptors)
      as (λ o.
        let p : TestRegistry × Bool = elim o [
          | none ↦ (r, true)
          | some e ↦ (
            record r {
              test_descriptors = delete id r.test_descriptors;
              test_configs = if works then delete id r.test_configs else r.test_configs;
            },
            works,
          )
        ] in
        Steps r p.0) [
          | none ↦ stays r ok
          | some e ↦ record {
            indexed = delete-IsIndexed id r.test_descriptor_index r.test_descriptors ok;
            counted = omega arith;
          }
        ]

-- A request to the registry, with whether the database works.
pub data Request : Type 0 where
  adds_local : TestConfig → Request
  adds_external : (works : Bool) → ExternalTestConfig → Request
  deletes : (works : Bool) → String → Request

unfoldable pub apply_request : Loader → Request → TestRegistry → TestRegistry
apply_request l (adds_local cfg) r = (add_local_test l cfg r).0
apply_request l (adds_external works ext) r = (add_external_test l works ext r).0
apply_request l (deletes works id) r = (delete_test works id r).0

unfoldable pub apply_requests : Loader → List Request → TestRegistry → TestRegistry
apply_requests l [] r = r
apply_requests l (q ∷ qs) r = apply_requests l qs (apply_request l q r)

pub add_external_test-Steps :
    (l : Loader) (works : Bool) (ext : ExternalTestConfig) (r : TestRegistry)
    → r.test_descriptor_index + 1 < 2 ^ 64
    → Indexed r
    → Steps r (add_external_test l works ext r).0
unfolding add_external_test
add_external_test-Steps l works ext r fits ok =
    add_loaded_test-Steps l works ext (l.load_external_test_config ext) r fits ok

apply_request-Steps :
    (l : Loader) (q : Request) (r : TestRegistry)
    → r.test_descriptor_index + 1 < 2 ^ 64
    → Indexed r
    → Steps r (apply_request l q r)
unfolding apply_request
apply_request-Steps l (adds_local cfg) r fits ok = add_local_test-Steps l cfg r fits ok
apply_request-Steps l (adds_external works ext) r fits ok =
    add_external_test-Steps l works ext r fits ok
apply_request-Steps l (deletes works id) r fits ok = delete_test-Steps works id r ok

-- The indices stay apart, whatever is requested.
pub apply_requests-Indexed :
    (l : Loader) (qs : List Request) (r : TestRegistry)
    → Indexed r
    → r.test_descriptor_index + length qs < 2 ^ 64
    → Indexed (apply_requests l qs r)
unfolding apply_requests
apply_requests-Indexed l [] r ok fits = ok
apply_requests-Indexed l (q ∷ qs) r ok fits =
    let s = apply_request-Steps l q r (omega arith) ok in
    apply_requests-Indexed l qs (apply_request l q r) s.indexed (omega (arith, s.counted, fits))
