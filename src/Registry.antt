-- ===== src/Registry.antt =====
-- The registry of tests (pkg/coordinator/testregistry.go) and the loading of its descriptors
-- (pkg/coordinator/test/descriptor.go). Variables, schedules and the texts of configurations are left
-- out; whether variables can be copied, what a file holds, and whether the database works are
-- arguments.
pub mod Indices
pub mod Requests
pub mod Loading
pub mod Examples
use assertoor.Prelude.{
  ℕ, ◌+◌, ◌%◌, ◌^◌, String, Bool, true, false, not, ◌||◌, Option, none, some, List, [], ◌∷◌, ◌++◌,
  map, arith, ltb, ◌==◌, if◌then◌else◌, anyb, nat_key, string_key, lookup, insert, delete,
}

-- A test's configuration, with the number of its tasks.
pub record TestConfig : Type 0 where
  pub id : String
  pub name : String
  pub tasks : ℕ

pub record Descriptor : Type 0 where
  pub id : String
  pub source : String
  pub config : Option TestConfig
  pub has_error : Bool

pub record ExternalTestConfig : Type 0 where
  pub id : String
  pub file : String
  pub name : String

pub record TestDescriptorEntry : Type 0 where
  pub descriptor : Descriptor
  pub index : ℕ

-- The registry and the rows of the table `test_configs`, one for each test.
pub record TestRegistry : Type 0 where
  pub test_descriptors : List (String × TestDescriptorEntry)
  pub test_descriptor_index : ℕ
  pub test_configs : List (String × ExternalTestConfig)

abbrev pub new_test_registry : List (String × ExternalTestConfig) → TestRegistry
new_test_registry rows = record {
  test_descriptors = [];
  test_descriptor_index = 0;
  test_configs = rows;
}

-- `fmt.Sprintf` of the sources and of the names that are made up for tests without one, what a file
-- holds, and whether the variables of a local test can be copied.
pub record Loader : Type 0 where
  pub local_source : ℕ → String
  pub external_source : String → String
  pub external_id : ℕ → String
  pub load_external_test_config : ExternalTestConfig → Option TestConfig
  pub copies_vars : TestConfig → Bool

abbrev pub is_empty : String → Bool
is_empty s = string_key.beq s ""

module _ (l : Loader) where
  -- `LoadTestDescriptors` from the `idx`th test on.
  unfoldable pub load_local : (idx : ℕ) → List TestConfig → List Descriptor
  load_local idx [] = []
  load_local idx (cfg ∷ cfgs) =
      record {
        id = if is_empty cfg.id then l.local_source (idx + 1) else cfg.id;
        source = l.local_source (idx + 1);
        config = some cfg;
        has_error = not (l.copies_vars cfg);
      }
      ∷ load_local (idx + 1) cfgs

  abbrev id_of : ℕ → Option TestConfig → String
  id_of idx none = l.external_id idx
  id_of idx (some cfg) = if is_empty cfg.id then l.external_id idx else cfg.id

  unfoldable pub load_external : (idx : ℕ) → List ExternalTestConfig → List Descriptor
  load_external idx [] = []
  load_external idx (ext ∷ exts) =
      let loaded = l.load_external_test_config ext in
      record {
        id = id_of idx loaded;
        source = l.external_source ext.file;
        config = loaded;
        has_error = elim loaded [ none ↦ true | some cfg ↦ false ];
      }
      ∷ load_external (idx + 1) exts

  unfoldable pub load_test_descriptors : List TestConfig → List ExternalTestConfig → List Descriptor
  load_test_descriptors local external = load_local 0 local ++ load_external 0 external

-- The index of a test that is there, 0 for one that is not.
abbrev pub index_of : String → TestRegistry → ℕ
index_of id r = elim (lookup id r.test_descriptors) [ none ↦ 0 | some e ↦ e.index ]

-- The locked part of `AddLocalTest` and `AddExternalTest`: a test that is there keeps its index.
unfoldable pub store_descriptor : Descriptor → TestRegistry → TestRegistry
store_descriptor d r =
    let fresh = (r.test_descriptor_index + 1) % 2 ^ 64 in
    if index_of d.id r == 0
    then record r {
      test_descriptor_index = fresh;
      test_descriptors = insert d.id (record { descriptor = d; index = fresh }) r.test_descriptors;
    }
    else record r {
      test_descriptors =
          insert d.id (record { descriptor = d; index = index_of d.id r }) r.test_descriptors;
    }

-- The new test, or an error.
unfoldable pub add_local_test :
    Loader → TestConfig → TestRegistry → TestRegistry × Option Descriptor
add_local_test l cfg r =
    let d : Descriptor = record {
      id = cfg.id;
      source = "api-call";
      config = some cfg;
      has_error = false;
    } in
    if is_empty cfg.id
    then (r, none)
    else (if l.copies_vars cfg then (store_descriptor d r, some d) else (r, none))

abbrev pub insert_test_config : (works : Bool) → ExternalTestConfig → TestRegistry → TestRegistry
insert_test_config works ext r =
    if works then record r { test_configs = insert ext.id ext r.test_configs } else r

-- `AddExternalTest` with the configuration that is loaded, if it can be. That the database fails is
-- only logged.
unfoldable pub add_loaded_test :
    Loader
    → (works : Bool) → ExternalTestConfig
    → Option TestConfig
    → TestRegistry
    → TestRegistry × Option Descriptor
add_loaded_test l works ext none r = (r, none)
add_loaded_test l works ext (some cfg) r =
    let d : Descriptor = record {
      id = cfg.id;
      source = l.external_source ext.file;
      config = some cfg;
      has_error = false;
    } in
    let stored : ExternalTestConfig = record ext { id = cfg.id; name = cfg.name } in
    if is_empty cfg.id || is_empty cfg.name || (cfg.tasks == 0)
    then (r, none)
    else (store_descriptor d (insert_test_config works stored r), some d)

unfoldable pub add_external_test :
    Loader → (works : Bool) → ExternalTestConfig → TestRegistry → TestRegistry × Option Descriptor
add_external_test l works ext r = add_loaded_test l works ext (l.load_external_test_config ext) r

-- Also whether the row could be deleted.
unfoldable pub delete_test : (works : Bool) → String → TestRegistry → TestRegistry × Bool
delete_test works id r = elim (lookup id r.test_descriptors) [
  | none ↦ (r, true)
  | some e ↦ (
    record r {
      test_descriptors = delete id r.test_descriptors;
      test_configs = if works then delete id r.test_configs else r.test_configs;
    },
    works,
  )
]

-- The loop at the end of `LoadTests`: every descriptor has a new index.
unfoldable pub register_all : List Descriptor → TestRegistry → TestRegistry
register_all [] r = r
register_all (d ∷ ds) r =
    let fresh = (r.test_descriptor_index + 1) % 2 ^ 64 in
    register_all ds (record r {
      test_descriptor_index = fresh;
      test_descriptors = insert d.id (record { descriptor = d; index = fresh }) r.test_descriptors;
    })

-- A test that the database has, by its name or its file.
abbrev pub is_known : List ExternalTestConfig → ExternalTestConfig → Bool
is_known stored ext =
    anyb (λ (s : ExternalTestConfig). string_key.beq s.id ext.id || string_key.beq s.file ext.file)
      stored

-- The loop over the configured external tests: those that are not known are added.
unfoldable pub add_configured :
    Loader
    → (works : Bool) → (stored configured : List ExternalTestConfig) → TestRegistry
    → TestRegistry × List Descriptor
add_configured l works stored [] r = (r, [])
add_configured l works stored (ext ∷ exts) r =
    let skipped = add_configured l works stored exts r in
    let added = add_external_test l works ext r in
    let rest = add_configured l works stored exts added.0 in
    if is_known stored ext
    then skipped
    else (rest.0, elim added.1 [ none ↦ rest.1 | some d ↦ d ∷ rest.1 ])

-- `LoadTests` with the tests of the database that could be decoded. The rows of the new tests, which
-- are there already, are written once more.
unfoldable pub load_tests :
    Loader
    → (works : Bool) → List TestConfig
    → (stored configured : List ExternalTestConfig) → TestRegistry
    → TestRegistry
load_tests l works local stored configured r =
    let descriptors = load_test_descriptors l local stored in
    let added = add_configured l works stored configured r in
    register_all (descriptors ++ added.1) (record added.0 { test_descriptors = [] })

-- A place for an entry among those of lower and of higher index.
abbrev insert_entry : TestDescriptorEntry → List TestDescriptorEntry → List TestDescriptorEntry
insert_entry e [] = e ∷ []
insert_entry e (f ∷ fs) =
    let rest = insert_entry e fs in if ltb e.index f.index then e ∷ f ∷ fs else f ∷ rest

unfoldable pub sort_entries : List (String × TestDescriptorEntry) → List TestDescriptorEntry
sort_entries [] = []
sort_entries ((id, e) ∷ es) = insert_entry e (sort_entries es)

unfoldable pub get_test_descriptors : TestRegistry → List Descriptor
get_test_descriptors r =
    map (λ (e : TestDescriptorEntry). e.descriptor) (sort_entries r.test_descriptors)
