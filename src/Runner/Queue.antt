-- ===== src/Runner/Queue.antt =====
-- The queue of test runs (testrunner.go): ScheduleTest, createTestRun, RemoveTestFromQueue, and the
-- queue's side of RunTestExecutionLoop. Making a test (CreateTest) may fail, which the caller says.
pub mod Calls
pub mod Rising
pub mod Order
pub mod Places
use assertoor.Prelude.{
  ℕ, ◌+◌, ◌%◌, ◌^◌, String, ◌⊎◌, inl, inr, Bool, true, false, not, ◌&&◌, Option, none, some, List,
  [], ◌∷◌, ◌++◌, arith, ltb, ◌==◌, if◌then◌else◌, length, filterb, anyb, nat_key, string_key,
  insert, delete,
}
use assertoor.Runner.TestRun.{TestStatus, pending, running, success, failure, skipped, aborted}

pub record TestRef : Type 0 where
  pub run_id : ℕ
  pub test_id : String
  pub status : TestStatus

pub data Error : Type 0 where
  bad_descriptor already_queued : Error
  create_failed : String → Error

pub record Descriptor : Type 0 where
  pub id : String
  pub err : Option String

-- `queue_notification` is the buffered flag that wakes the loop; `off_queue` are the runs handed to
-- the loop that starts tests at once; `active` are the runs that the queue's loop has started, which
-- hold a place of the semaphore.
pub record TestRunner : Type 0 where
  pub run_id_counter : ℕ
  pub test_run_map : List (ℕ × TestRef)
  pub test_queue : List TestRef
  pub queue_notification : Bool
  pub off_queue : List TestRef
  pub taken : Option TestRef
  pub active : List TestRef

unfoldable pub new_test_runner : ℕ → TestRunner
new_test_runner last_run_id = record {
  run_id_counter = last_run_id;
  test_run_map = [];
  test_queue = [];
  queue_notification = false;
  off_queue = [];
  taken = none;
  active = [];
}

abbrev pub in_queue : String → List TestRef → Bool
in_queue id = anyb (λ t. string_key.beq t.test_id id)

-- The run id is used up even if making the test fails.
unfoldable pub create_test_run :
    Descriptor
    → Option String
    → (allow_duplicate skip_queue : Bool) → TestRunner
    → TestRunner × (Error ⊎ TestRef)
create_test_run d create_error allow_duplicate skip_queue c =
    let id = (c.run_id_counter + 1) % 2 ^ 64 in
    let t : TestRef = record { run_id = id; test_id = d.id; status = pending } in
    let counted = record c { run_id_counter = id } in
    if not allow_duplicate && in_queue d.id c.test_queue
    then (c, inl already_queued)
    else (elim create_error [
      | some e ↦ (counted, inl (create_failed e))
      | none ↦ (
        record counted {
          test_queue = if skip_queue then c.test_queue else c.test_queue ++ t ∷ [];
          test_run_map = insert id t c.test_run_map;
        },
        inr t,
      )
    ])

abbrev notify : Bool → TestRunner × (Error ⊎ TestRef) → TestRunner × (Error ⊎ TestRef)
notify skip_queue (c, inl e) = (c, inl e)
notify true (c, inr t) = (record c { off_queue = c.off_queue ++ t ∷ [] }, inr t)
notify false (c, inr t) = (record c { queue_notification = true }, inr t)

unfoldable pub schedule_test :
    Descriptor
    → Option String
    → (allow_duplicate skip_queue : Bool) → TestRunner
    → TestRunner × (Error ⊎ TestRef)
unfolding create_test_run
schedule_test d create_error allow_duplicate skip_queue c = elim d.err [
  | some e ↦ (c, inl bad_descriptor)
  | none ↦ notify skip_queue (create_test_run d create_error allow_duplicate skip_queue c)
]

abbrev is_running : TestStatus → Bool
is_running running = true
is_running _ = false

-- The queue without the first run of this id; `none` if that run is running or there is none.
unfoldable pub remove_run : ℕ → List TestRef → Option (List TestRef)
remove_run id [] = none
remove_run id (t ∷ ts) =
    let rest = remove_run id ts in
    if t.run_id == id
    then (if is_running t.status then none else some ts)
    else (elim rest [ none ↦ none | some ts' ↦ some (t ∷ ts') ])

unfoldable pub remove_test_from_queue : ℕ → TestRunner → TestRunner × Bool
unfolding remove_run
remove_test_from_queue id c = elim (remove_run id c.test_queue) [
  | none ↦ (c, false)
  | some q ↦ (record c { test_queue = q; test_run_map = delete id c.test_run_map }, true)
]

-- The execution loop takes the next run out of the queue; if there is none it goes to sleep, and the
-- notification wakes it.
unfoldable pub take_next : TestRunner → TestRunner
take_next c = elim c.taken [
  | some t ↦ c
  | none ↦ elim c.test_queue [
    | [] ↦ record c { queue_notification = false }
    | t ∷ ts ↦ record c { test_queue = ts; taken = some t }
  ]
]

-- The run that was taken starts once the semaphore has a place.
unfoldable pub start_taken : (limit : ℕ) → TestRunner → TestRunner
start_taken limit c = elim c.taken [
  | none ↦ c
  | some t ↦
      if ltb (length c.active) (if limit == 0 then 1 else limit)
      then record c { taken = none; active = c.active ++ t ∷ [] }
      else c
]

abbrev pub drop_run : ℕ → List TestRef → List TestRef
drop_run id = filterb (λ t. not (t.run_id == id))

unfoldable pub finish_run : ℕ → TestRunner → TestRunner
finish_run id c = record c { active = drop_run id c.active }
