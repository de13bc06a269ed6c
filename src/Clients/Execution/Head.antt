-- ===== src/Clients/Execution/Head.antt =====
-- The head of a client is a block that it has seen and that is loaded (clients/execution/clientlogic.go).
use mathlib.Core.Path.{subst}
use assertoor.Clients.BlockCache.{Block, BlockCache, add_block, ensure_block, load_block}
use assertoor.Clients.Execution.{
  SeenBy, set_seen_by, has_seen, ExecutionClient, Processed, processed, seen_of, move_head,
  process_loaded, process_seen, process_found, process_block,
}
use assertoor.Prelude.{
  ℕ, ◌+◌, ◌≡◌, refl, sym, ap, ◌∙◌, inl, inr, Bool, true, Option, none, some, [], ◌∷◌, ◌++◌, arith,
  ◌==◌, if◌then◌else◌, ==_iff, Bool-cases, Option-cases, set, nat_key, string_key, lookup, insert,
  lookup-insert,
}

-- A client's head is a block of the cache that is loaded and that it has seen.
pub record HasHead (hash : ℕ) (c : ExecutionClient) : Type 0 where
  pub at_head : c.head_hash ≡ hash
  pub block : Block
  pub is_cached : lookup hash c.cache.hash_map ≡ some block
  pub parent : ℕ
  pub is_loaded : block.parent ≡ some parent
  pub seen_by : SeenBy
  pub is_seen : lookup hash c.seen ≡ some seen_by
  pub by_client : has_seen c.index seen_by ≡ true

-- What `processBlock` does: it moves the head to the block, and has the forks dropped if the head
-- changes, or it leaves the head and the forks alone.
abbrev Processes : ℕ → ExecutionClient → ExecutionClient × Processed → Type 0
Processes hash c (next, processed) =
    HasHead hash next
    × (next.fork_resets ≡ (if c.head_hash == hash then c.fork_resets else c.fork_resets + 1))
Processes hash c (next, _) =
    (next.head_hash ≡ c.head_hash)
    × (next.head_number ≡ c.head_number)
    × (next.fork_resets ≡ c.fork_resets)

-- The block that AddBlock gives is in the cache.
add_block-found :
    (hash number : ℕ) (cache : BlockCache) (block : Block)
    → (add_block hash number cache).1.0 ≡ some block
    → lookup hash (add_block hash number cache).0.hash_map ≡ some block
unfolding add_block
add_block-found hash number cache block found =
    let new : Block = record { hash = hash; number = number; parent = none } in
    ground (arith, found, lookup-insert hash hash new cache.hash_map)

set_seen_by-has_seen :
    (client : ℕ) (s t : SeenBy) → set_seen_by client s ≡ some t → has_seen client t ≡ true
unfolding set_seen_by
set_seen_by-has_seen client s t set = elim (Option-cases s.seen_chan) [
  | inl quiet ↦ ground (arith, set, quiet, lookup-insert client client client s.seen_map)
  | inr (closed, here) ↦ ground (arith, set, here, lookup-insert client client client s.seen_map)
]

load_block-cached :
    (hash : ℕ) (loaded : Option ℕ) (block : Block) (cache : BlockCache)
    → lookup hash cache.hash_map ≡ some block
    → lookup hash (load_block hash loaded cache).hash_map ≡ some (ensure_block loaded block).0
unfolding load_block
load_block-cached hash loaded block cache here =
    ground (arith, here, lookup-insert hash hash (ensure_block loaded block).0 cache.hash_map)

-- A client that has the block, but not yet as its head.
module _ (hash number : ℕ) (c : ExecutionClient) (block : Block) (parent : ℕ) (s : SeenBy)
    (is_cached : lookup hash c.cache.hash_map ≡ some block) (is_loaded : block.parent ≡ some parent)
    (is_seen : lookup hash c.seen ≡ some s) (by_client : has_seen c.index s ≡ true) where
  move_head-Processes :
      HasHead hash (move_head hash number c)
      × ((move_head hash number c).fork_resets
          ≡ (if c.head_hash == hash then c.fork_resets else c.fork_resets + 1))
  unfolding move_head
  move_head-Processes = elim (Bool-cases (c.head_hash == hash)) [
    | inl there ↦
        let same : move_head hash number c ≡ c = rw (there, move_head) refl in
        let ok : HasHead hash c = record {
          at_head = (==_iff c.head_hash hash).0 there;
          block = block;
          is_cached = is_cached;
          parent = parent;
          is_loaded = is_loaded;
          seen_by = s;
          is_seen = is_seen;
          by_client = by_client;
        } in
        (
          subst (HasHead hash) (sym same) ok,
          ap (λ (d : ExecutionClient). d.fork_resets) same
              ∙ ap (λ b. if b then c.fork_resets else c.fork_resets + 1) (sym there),
        )
    | inr elsewhere ↦
        let moved : ExecutionClient = record c {
          head_hash = hash;
          head_number = number;
          fork_resets = c.fork_resets + 1;
        } in
        let same : move_head hash number c ≡ moved = rw (elsewhere, move_head) refl in
        let ok : HasHead hash moved = record {
          at_head = refl;
          block = block;
          is_cached = is_cached;
          parent = parent;
          is_loaded = is_loaded;
          seen_by = s;
          is_seen = is_seen;
          by_client = by_client;
        } in
        (
          subst (HasHead hash) (sym same) ok,
          ap (λ (d : ExecutionClient). d.fork_resets) same
              ∙ ap (λ b. if b then c.fork_resets else c.fork_resets + 1) (sym elsewhere),
        )
  ]

process_loaded-Processes :
    (hash number : ℕ) (loaded ensured : Option ℕ) (fresh : Bool) (c : ExecutionClient)
    (block : Block) (s : SeenBy)
    → lookup hash c.cache.hash_map ≡ some block
    → (ensure_block loaded block).0.parent ≡ ensured
    → lookup hash c.seen ≡ some s
    → has_seen c.index s ≡ true
    → Processes hash c (process_loaded hash number loaded ensured fresh c)
unfolding process_loaded
process_loaded-Processes hash number loaded none fresh c block s here is_loaded seen by =
    (refl, refl, refl)
process_loaded-Processes hash number loaded (some parent) fresh c block s here is_loaded seen by =
    move_head-Processes hash number
      (record c {
        cache = load_block hash loaded c.cache;
        ready_blocks = if fresh then c.ready_blocks ++ hash ∷ [] else c.ready_blocks;
      })
      (ensure_block loaded block).0 parent s (load_block-cached hash loaded block c.cache here)
      is_loaded seen by

process_seen-Processes :
    (hash number : ℕ) (loaded : Option ℕ) (block : Block) (o : Option SeenBy) (c : ExecutionClient)
    → lookup hash c.cache.hash_map ≡ some block
    → set_seen_by c.index (seen_of hash c) ≡ o
    → Processes hash c (process_seen hash number loaded block o c)
unfolding process_seen
process_seen-Processes hash number loaded block none c here set = (refl, refl, refl)
process_seen-Processes hash number loaded block (some s) c here set =
    process_loaded-Processes hash number loaded (ensure_block loaded block).0.parent
      (ensure_block loaded block).1 (record c { seen = insert hash s c.seen }) block s here refl
      (lookup-insert hash hash s c.seen ∙ ground arith)
      (set_seen_by-has_seen c.index (seen_of hash c) s set)

process_found-Processes :
    (hash number : ℕ) (loaded : Option ℕ) (o : Option Block) (c : ExecutionClient)
    → ((block : Block) → o ≡ some block → lookup hash c.cache.hash_map ≡ some block)
    → Processes hash c (process_found hash number loaded o c)
unfolding process_found
process_found-Processes hash number loaded none c here = (refl, refl, refl)
process_found-Processes hash number loaded (some block) c here =
    process_seen-Processes hash number loaded block _ c (here block refl) refl

-- If processBlock returns no error, the client's head is the block, which is in the cache, loaded, and
-- seen by the client, and the forks are dropped exactly if the head was another one; if it returns an
-- error or panics, the head and the forks are as before.
pub process_block-Processes :
    (hash number : ℕ) (loaded : Option ℕ) (c : ExecutionClient)
    → Processes hash c (process_block hash number loaded c)
unfolding process_block
process_block-Processes hash number loaded c =
    process_found-Processes hash number loaded (add_block hash number c.cache).1.0
      (record c { cache = (add_block hash number c.cache).0 })
      (λ block found. add_block-found hash number c.cache block found)
