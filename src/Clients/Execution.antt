-- ===== src/Clients/Execution.antt =====
-- An execution client: clients/execution/clientlogic.go, with the blocks' lists of those that have
-- seen them (clients/execution/block.go). The answers of the node, which is another program, are
-- arguments. A panic ends the client's loop for good. Times and versions are left out.
use assertoor.Clients.BlockCache.{Block, BlockCache, add_block, ensure_block, load_block}
use assertoor.Prelude.{
  ℕ, ◌+◌, ◌%◌, ◌^◌, Bool, true, false, Option, none, some, List, [], ◌∷◌, ◌++◌, arith, ltb, ◌==◌,
  if◌then◌else◌, take, nat_key, string_key, lookup, insert,
}
pub mod Seen
pub mod Head

-- `seenMap`, in which a client stands under its index and is named by it, and `seenChan` with whether it is closed.
pub record SeenBy : Type 0 where
  pub seen_map : List (ℕ × ℕ)
  pub seen_chan : Option Bool

abbrev pub unseen : SeenBy
unseen = record { seen_map = []; seen_chan = none }

-- `none` is a panic: the channel is closed a second time.
unfoldable pub set_seen_by : ℕ → SeenBy → Option SeenBy
set_seen_by client s = elim s.seen_chan [
  | none ↦ some (record s { seen_map = insert client client s.seen_map })
  | some closed ↦
      if closed
      then none
      else some (record { seen_map = insert client client s.seen_map; seen_chan = some true })
]

abbrev pub has_seen : ℕ → SeenBy → Bool
has_seen client s = elim (lookup client s.seen_map) [ none ↦ false | some u ↦ true ]

-- One that has to wait makes the channel.
unfoldable pub check_seen_by : ℕ → SeenBy → Bool × SeenBy
check_seen_by client s = elim (lookup client s.seen_map) [
  | some u ↦ (true, s)
  | none ↦ (false, elim s.seen_chan [ none ↦ record s { seen_chan = some false } | some c ↦ s ])
]

-- A client with the pool's cache, the blocks' lists by hash, the blocks of which the pool has told
-- that they are ready, and how often it has dropped its forks.
pub record ExecutionClient : Type 0 where
  pub index : ℕ
  pub cache : BlockCache
  pub seen : List (ℕ × SeenBy)
  pub head_hash : ℕ
  pub head_number : ℕ
  pub ready_blocks : List ℕ
  pub fork_resets : ℕ
  pub is_online : Bool
  pub retry_counter : ℕ

pub data Processed : Type 0 where
  processed failed panicked : Processed

abbrev pub seen_of : ℕ → ExecutionClient → SeenBy
seen_of hash c = elim (lookup hash c.seen) [ none ↦ unseen | some s ↦ s ]

-- The end of `processBlock`: the head moves, unless it is there already.
unfoldable pub move_head : ℕ → ℕ → ExecutionClient → ExecutionClient
move_head hash number c =
    if c.head_hash == hash
    then c
    else record c { head_hash = hash; head_number = number; fork_resets = c.fork_resets + 1 }

-- `processBlock` with what `EnsureBlock` makes of the cached block: an error leaves it unloaded.
unfoldable pub process_loaded :
    (hash number : ℕ)
    → (loaded : Option ℕ) → (ensured : Option ℕ) → (fresh : Bool) → ExecutionClient
    → ExecutionClient × Processed
process_loaded hash number loaded none fresh c = (c, failed)
process_loaded hash number loaded (some parent) fresh c = (
  move_head hash number (record c {
    cache = load_block hash loaded c.cache;
    ready_blocks = if fresh then c.ready_blocks ++ hash ∷ [] else c.ready_blocks;
  }),
  processed,
)

-- `processBlock` with what `SetSeenBy` gives.
unfoldable pub process_seen :
    (hash number : ℕ)
    → (loaded : Option ℕ) → Block
    → Option SeenBy
    → ExecutionClient
    → ExecutionClient × Processed
process_seen hash number loaded block none c = (c, panicked)
process_seen hash number loaded block (some s) c =
    let ensured = ensure_block loaded block in
    process_loaded hash number loaded ensured.0.parent ensured.1
      (record c { seen = insert hash s c.seen })

-- `processBlock` with what `AddBlock` gives.
unfoldable pub process_found :
    (hash number : ℕ)
    → (loaded : Option ℕ) → Option Block
    → ExecutionClient
    → ExecutionClient × Processed
process_found hash number loaded none c = (c, failed)
process_found hash number loaded (some block) c =
    process_seen hash number loaded block (set_seen_by c.index (seen_of hash c)) c

unfoldable pub process_block :
    (hash number : ℕ) → (loaded : Option ℕ) → ExecutionClient → ExecutionClient × Processed
process_block hash number loaded c =
    let added = add_block hash number c.cache in
    process_found hash number loaded added.1.0 (record c { cache = added.0 })

-- The tries of `processBlock` for a notified block, at most three, with what each try loads.
unfoldable process_update :
    (hash number : ℕ) → List (Option ℕ) → ExecutionClient → ExecutionClient × Processed
process_update hash number [] c = (c, failed)
process_update hash number (loaded ∷ tries) c =
    let (next, outcome) = process_block hash number loaded c in
    let again = process_update hash number tries next in
    elim outcome [ processed ↦ (next, processed) | failed ↦ again | panicked ↦ (next, panicked) ]

-- `pollClientHead` with the latest block, if the node gives one, and its parent. An error of
-- `processBlock` is only logged.
unfoldable poll_client_head : Option (ℕ × (ℕ × ℕ)) → ExecutionClient → ExecutionClient × Processed
poll_client_head none c = (c, failed)
poll_client_head (some (hash, (number, parent))) c =
    let (next, outcome) = process_block hash number (some parent) c in
    (next, elim outcome [ processed ↦ processed | failed ↦ processed | panicked ↦ panicked ])

-- What wakes the loop of `runClientLogic`.
pub data ClientEvent : Type 0 where
  update : (hash number : ℕ) → (tries : List (Option ℕ)) → ClientEvent
  timeout : (latest : Option (ℕ × (ℕ × ℕ))) → ClientEvent

-- One round of the loop: an update that fails is only logged, a poll that fails ends the loop.
unfoldable client_step : ClientEvent → ExecutionClient → ExecutionClient × Processed
client_step (update hash number tries) c =
    let (next, outcome) = process_update hash number (take 3 tries) c in
    (next, elim outcome [ processed ↦ processed | failed ↦ processed | panicked ↦ panicked ])
client_step (timeout latest) c =
    let (next, outcome) = poll_client_head latest c in
    elim outcome [
      | processed ↦ (next, processed)
      | failed ↦ (record next { is_online = false }, failed)
      | panicked ↦ (next, panicked)
    ]

-- Until the context is done, which is when the events end.
unfoldable run_client_events : List ClientEvent → ExecutionClient → ExecutionClient × Processed
run_client_events [] c = (c, processed)
run_client_events (e ∷ es) c =
    let (next, outcome) = client_step e c in
    let rest = run_client_events es next in
    elim outcome [ processed ↦ rest | failed ↦ (next, failed) | panicked ↦ (next, panicked) ]

-- `runClientLogic`: the first poll, the test of the synchronisation, and the loop.
unfoldable run_client_logic :
    (latest : Option (ℕ × (ℕ × ℕ)))
    → (is_syncing : Bool) → List ClientEvent
    → ExecutionClient
    → ExecutionClient × Processed
run_client_logic latest is_syncing events c =
    let (next, outcome) = poll_client_head latest c in
    elim outcome [
      | processed ↦
          if is_syncing
          then (next, failed)
          else run_client_events events (record next { is_online = true })
      | failed ↦ (next, failed)
      | panicked ↦ (next, panicked)
    ]

-- The seconds that `runClientLoop` waits after its `retry_counter`th error in a row.
unfoldable wait_time : (retry_counter : ℕ) → ℕ
wait_time retry_counter =
    if ltb 10 retry_counter then 300 else (if ltb 5 retry_counter then 60 else 10)

-- What `runClientLoop` does after `checkClient` or `runClientLogic`: it ends if there is no error, and
-- waits before it starts again if there is one.
unfoldable note_failure : (has_error : Bool) → ExecutionClient → ExecutionClient × Option ℕ
note_failure has_error c =
    let retries = (c.retry_counter + 1) % 2 ^ 64 in
    if has_error
    then (record c { is_online = false; retry_counter = retries }, some (wait_time retries))
    else (record c { retry_counter = 0 }, none)
