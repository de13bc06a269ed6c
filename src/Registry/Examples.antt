-- ===== src/Registry/Examples.antt =====
-- A registry that loads one test, which is then added again with another
-- (pkg/coordinator/testregistry.go).
use assertoor.Registry.{
  TestConfig, Descriptor, TestRegistry, Loader, new_test_registry, load_tests, get_test_descriptors,
  load_test_descriptors, load_local, load_external, add_configured, register_all, add_local_test,
  store_descriptor, sort_entries,
}
use assertoor.Registry.Indices.{Indexed}
use assertoor.Registry.Requests.{Request, adds_local, apply_requests, apply_request}
use assertoor.Registry.Loading.{empty-IsIndexed, load_tests-apply_requests}
use assertoor.Prelude.{
  String, ◌≡◌, refl, true, none, List, [], ◌∷◌, map, arith, nat_key, string_key, lookup, insert,
}

abbrev loader : Loader
loader = record {
  local_source = λ idx. "local";
  external_source = λ file. file;
  external_id = λ idx. "external";
  load_external_test_config = λ ext. none;
  copies_vars = λ cfg. true;
}

abbrev test_called : String → String → TestConfig
test_called id name = record { id = id; name = name; tasks = 1 }

abbrev requests : List Request
requests = adds_local (test_called "b" "new") ∷ adds_local (test_called "a" "again") ∷ []

abbrev loaded : TestRegistry
loaded = load_tests loader true (test_called "a" "old" ∷ []) [] [] (new_test_registry [])

load_tests-apply_requests_example : Indexed (apply_requests loader requests loaded)
unfolding Indexed
load_tests-apply_requests_example =
    load_tests-apply_requests loader true (test_called "a" "old" ∷ []) [] [] (new_test_registry [])
      (empty-IsIndexed 0) requests (omega arith)

-- The test that is added again keeps its place before the other one.
still_first :
    map (λ (d : Descriptor). d.id) (get_test_descriptors (apply_requests loader requests loaded))
    ≡ "a" ∷ "b" ∷ []
unfolding get_test_descriptors apply_requests apply_request add_local_test store_descriptor
    load_tests load_test_descriptors load_local load_external add_configured register_all
    sort_entries insert lookup
still_first = refl
