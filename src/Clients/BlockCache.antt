-- ===== src/Clients/BlockCache.antt =====
-- The block cache of the execution clients: clients/execution/blockcache.go and block.go. A block is
-- shared between the two maps and has one entry per hash, so `number_map` holds hashes. The body of
-- a block is known by the hash of its parent; a hash is a number. Slots are below 2 ^ 63, where
-- int64 and uint64 agree.
use assertoor.Prelude.{
  ℕ, zero, suc, ◌+◌, ◌-◌, Bool, true, false, Option, none, some, List, [], ◌∷◌, ◌++◌, arith, ltb,
  leb, ◌==◌, if◌then◌else◌, nat_key, string_key, lookup, insert, delete,
}
pub mod Distance

pub record Block : Type 0 where
  pub hash : ℕ
  pub number : ℕ
  pub parent : Option ℕ

pub record BlockCache : Type 0 where
  pub follow_distance : ℕ
  pub number_map : List (ℕ × List ℕ)
  pub hash_map : List (ℕ × Block)
  pub max_slot_idx : ℕ

unfoldable pub new_block_cache : ℕ → Option BlockCache
new_block_cache follow_distance =
    if follow_distance == 0
    then none
    else some (record {
      follow_distance = follow_distance;
      number_map = [];
      hash_map = [];
      max_slot_idx = 0;
    })

unfoldable pub set_min_follow_distance : ℕ → BlockCache → BlockCache
set_min_follow_distance follow_distance cache =
    let wanted = if ltb 10000 follow_distance then 10000 else follow_distance in
    if ltb cache.follow_distance wanted then record cache { follow_distance = wanted } else cache

unfoldable pub get_cached_block_by_root : ℕ → BlockCache → Option Block
get_cached_block_by_root hash cache = lookup hash cache.hash_map

-- The hashes at a number, none when the map has no entry.
abbrev pub at_number : ℕ → BlockCache → List ℕ
at_number number cache = elim (lookup number cache.number_map) [ none ↦ [] | some hs ↦ hs ]

abbrev pub insert_block : ℕ → ℕ → BlockCache → BlockCache
insert_block hash number cache = record cache {
  hash_map = insert hash (record { hash = hash; number = number; parent = none }) cache.hash_map;
  number_map = insert number (at_number number cache ++ hash ∷ []) cache.number_map;
  max_slot_idx = if ltb cache.max_slot_idx number then number else cache.max_slot_idx;
}

-- The result is the block, if any, and whether it is new. The cut-off is 0 where the source's is
-- negative, and no number is below it.
unfoldable pub add_block : ℕ → ℕ → BlockCache → BlockCache × (Option Block × Bool)
add_block hash number cache = elim (lookup hash cache.hash_map) [
  | some block ↦ (cache, (some block, false))
  | none ↦
      if ltb number (cache.max_slot_idx - cache.follow_distance) then (cache, (none, false)) else (
        insert_block hash number cache,
        (some (record { hash = hash; number = number; parent = none }), true),
      )
]

-- The body of a block is loaded once; `loaded` is what `loadBlock` returned.
unfoldable pub ensure_block : Option ℕ → Block → Block × Bool
ensure_block loaded block = elim block.parent [
  | some p ↦ (block, false)
  | none ↦ elim loaded [ none ↦ (block, false) | some p ↦ (record block { parent = some p }, true) ]
]

-- `EnsureBlock` of the cached block.
unfoldable pub load_block : ℕ → Option ℕ → BlockCache → BlockCache
load_block hash loaded cache = elim (lookup hash cache.hash_map) [
  | none ↦ cache
  | some block ↦ record cache {
    hash_map = insert hash (ensure_block loaded block).0 cache.hash_map;
  }
]

abbrev pub delete_all : List ℕ → List (ℕ × Block) → List (ℕ × Block)
delete_all [] m = m
delete_all (h ∷ hs) m = delete_all hs (delete h m)

-- The entries of `number_map`, one after the other.
unfoldable pub cleanup_slots :
    ℕ → List (ℕ × List ℕ) → List (ℕ × Block) → List (ℕ × List ℕ) × List (ℕ × Block)
cleanup_slots min_slot [] m = ([], m)
cleanup_slots min_slot ((slot, blocks) ∷ entries) m =
    let kept = cleanup_slots min_slot entries m in
    let rest = cleanup_slots min_slot entries (delete_all blocks m) in
    if leb min_slot slot then ((slot, blocks) ∷ kept.0, kept.1) else rest

unfoldable pub cleanup_cache : BlockCache → BlockCache
cleanup_cache cache =
    let min_slot = cache.max_slot_idx - cache.follow_distance in
    if min_slot == 0
    then cache
    else (let r = cleanup_slots min_slot cache.number_map cache.hash_map in
        record cache { number_map = r.0; hash_map = r.1 })

-- The loop of `GetBlockDistance`, on fuel: `none` is a loop that has not ended.
unfoldable pub walk : ℕ → ℕ → ℕ → ℕ → ℕ → BlockCache → Option (Bool × ℕ)
walk zero block_root block_slot head_root dist cache = none
walk (suc fuel) block_root block_slot head_root dist cache =
    elim (lookup head_root cache.hash_map) [
      | none ↦ some (false, 0)
      | some head ↦ if ltb head.number block_slot then some (false, 0) else (elim head.parent [
        | none ↦ some (false, 0)
        | some parent_root ↦
            if parent_root == block_root
            then some (true, suc dist)
            else walk fuel block_root block_slot parent_root (suc dist) cache
      ])
    ]

-- The fuel is two more than the number of the head.
unfoldable pub head_fuel : ℕ → BlockCache → ℕ
head_fuel head_root cache = elim (lookup head_root cache.hash_map) [
  | none ↦ 1
  | some head ↦ head.number + 2
]

unfoldable pub get_block_distance : ℕ → ℕ → BlockCache → Option (Bool × ℕ)
get_block_distance block_root head_root cache =
    if head_root == block_root
    then some (true, 0)
    else (elim (get_cached_block_by_root block_root cache) [
      | none ↦ some (false, 0)
      | some block ↦ walk (head_fuel head_root cache) block_root block.number head_root 0 cache
    ])

unfoldable pub is_canonical_block : ℕ → ℕ → BlockCache → Option Bool
is_canonical_block block_root head_root cache =
    elim (get_block_distance block_root head_root cache) [ none ↦ none | some r ↦ some r.0 ]
