-- ===== src/Clients/Examples.antt =====
-- A chain of three blocks, two clients, and a dispatcher (clients/execution).
use mathlib.Core.List.{Perm}
use mathlib.Core.List.Perm
use assertoor.Clients.Dispatcher.{
  Call, subscribes, fires, unsubscribes, new_dispatcher, unsubscribe, unsubscribe_self, apply_calls,
  unsubscribe-apply_calls,
}
use assertoor.Clients.BlockCache.{
  Block, BlockCache, get_cached_block_by_root, get_block_distance, add_block, ensure_block,
}
use assertoor.Clients.BlockCache.Distance.{ParentChain, IsNumbered, get_block_distance-ParentChain}
use assertoor.Clients.Pool.{geth, reth, Client, HeadFork, get_head_forks}
use assertoor.Clients.Pool.Forks.{members, get_head_forks-Perm}
use assertoor.Clients.Execution.{
  unseen, set_seen_by, check_seen_by, ExecutionClient, process_block, process_found, process_seen,
  process_loaded, move_head,
}
use assertoor.Clients.Execution.Seen.{set_all, panics, set_all-panics}
use assertoor.Clients.Execution.Head.{HasHead, process_block-Processes}
use assertoor.Prelude.{
  ℕ, ◌≡◌, refl, ◌⊎◌, true, false, some, List, [], ◌∷◌, arith, ==_iff, nat_key, string_key, lookup,
  insert,
}

abbrev calls : List (Call ℕ)
calls = subscribes 1 ∷ subscribes 2 ∷ fires 7 ∷ unsubscribes 0 ∷ []

unsubscribe-apply_calls_example :
    let d = apply_calls calls new_dispatcher in (unsubscribe 0 d ≡ d) × (unsubscribe_self 0 d ≡ d)
unsubscribe-apply_calls_example = unsubscribe-apply_calls calls 0

abbrev block : ℕ → ℕ → ℕ → Block
block hash number parent = record { hash = hash; number = number; parent = some parent }

-- The blocks 100, 101 and 102; the parent of the first is not in the cache.
abbrev cache : BlockCache
cache = record {
  follow_distance = 64;
  number_map = (1, 100 ∷ []) ∷ (2, 101 ∷ []) ∷ (3, 102 ∷ []) ∷ [];
  hash_map = (100, block 100 1 99) ∷ (101, block 101 2 100) ∷ (102, block 102 3 101) ∷ [];
  max_slot_idx = 3;
}

cache-IsNumbered : IsNumbered cache
unfolding IsNumbered lookup
cache-IsNumbered h p x y ex ep ey =
    ground
      (arith, ==_iff 100 h, ==_iff 101 h, ==_iff 102 h, ==_iff 100 p, ==_iff 101 p, ==_iff 102 p)

first_cached : get_cached_block_by_root 100 cache ≡ some (block 100 1 99)
unfolding get_cached_block_by_root lookup
first_cached = refl

get_block_distance-ParentChain_example :
    ((n : ℕ) × (get_block_distance 100 102 cache ≡ some (true, n)) × ParentChain cache n 102 100)
    ⊎ ((get_block_distance 100 102 cache ≡ some (false, 0))
        × ((n : ℕ) → ¬ (ParentChain cache n 102 100)))
get_block_distance-ParentChain_example =
    get_block_distance-ParentChain cache cache-IsNumbered 100 102 (block 100 1 99) first_cached

abbrev clients : List Client
clients =
    record {
      client_idx = 0;
      client_type = geth;
      is_online = true;
      head_number = 3;
      head_hash = 102;
    }
    ∷ record {
      client_idx = 1;
      client_type = reth;
      is_online = true;
      head_number = 2;
      head_hash = 101;
    }
    ∷ []

-- A sort that leaves the forks as they are.
abbrev keep : List HeadFork → List HeadFork
keep fs = fs

get_head_forks-Perm_example : Perm (members (get_head_forks keep 2 cache clients)) clients
get_head_forks-Perm_example = get_head_forks-Perm keep (λ fs. Perm.refl fs) 2 cache clients

-- A client without a head (clients/execution/clientlogic.go).
abbrev fresh_client : ExecutionClient
fresh_client = record {
  index = 1;
  cache = record { follow_distance = 10; number_map = []; hash_map = []; max_slot_idx = 0 };
  seen = [];
  head_hash = 0;
  head_number = 0;
  ready_blocks = [];
  fork_resets = 0;
  is_online = false;
  retry_counter = 0;
}

process_block-Processes_example :
    HasHead 7 (process_block 7 3 (some 6) fresh_client).0
    × ((process_block 7 3 (some 6) fresh_client).0.fork_resets ≡ 1)
unfolding process_block process_found process_seen process_loaded move_head add_block set_seen_by
    ensure_block lookup insert
process_block-Processes_example = process_block-Processes 7 3 (some 6) fresh_client

-- Client 1 waits, and 2 and 3 see the block (clients/execution/block.go).
set_all-panics_example :
    (panics (set_all (2 ∷ 3 ∷ []) unseen) ≡ false)
    × (panics (set_all (2 ∷ 3 ∷ []) (check_seen_by 1 unseen).1) ≡ true)
unfolding lookup
set_all-panics_example = set_all-panics 1 (2 ∷ 3 ∷ []) unseen refl
