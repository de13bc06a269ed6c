-- ===== src/Clients/Pool.antt =====
-- The pool of execution clients: the forks of clients/execution/forks.go and the choice of a client
-- in pool.go. A client is what the pool reads of it. `sort.Slice` is a parameter.
use assertoor.Clients.BlockCache.{BlockCache, get_block_distance, is_canonical_block}
use assertoor.Prelude.{
  ℕ, Bool, false, not, ◌&&◌, ◌||◌, Option, none, some, List, [], ◌∷◌, ◌++◌, map, arith, ltb, leb,
  ◌==◌, if◌then◌else◌, filterb, nat_key, string_key, lookup, insert,
}
pub mod Forks
pub mod RoundRobin

pub data ClientType : Type 0 where
  any_client unknown_client besu erigon ethjs geth nethermind reth : ClientType

abbrev pub type_code : ClientType → ℕ
type_code any_client = 0
type_code besu = 1
type_code erigon = 2
type_code ethjs = 3
type_code geth = 4
type_code nethermind = 5
type_code reth = 6
type_code unknown_client = 7

unfoldable pub type_eq : ClientType → ClientType → Bool
type_eq s t = type_code s == type_code t

pub record Client : Type 0 where
  pub client_idx : ℕ
  pub client_type : ClientType
  pub is_online : Bool
  pub head_number : ℕ
  pub head_hash : ℕ

pub record HeadFork : Type 0 where
  pub number : ℕ
  pub hash : ℕ
  pub ready_clients : List Client
  pub all_clients : List Client

-- A loop that does not end gives no answer; the fuel is enough for every numbered cache.
abbrev pub canonical : BlockCache → ℕ → ℕ → Bool
canonical cache block_root head_root = elim (is_canonical_block block_root head_root cache) [
  | none ↦ false
  | some b ↦ b
]

abbrev pub distance : BlockCache → ℕ → ℕ → ℕ
distance cache block_root head_root = elim (get_block_distance block_root head_root cache) [
  | none ↦ 0
  | some r ↦ r.1
]

-- The fork that a client joins; a client that is ahead moves the fork's head.
unfoldable pub match_fork : BlockCache → Client → HeadFork → Option HeadFork
match_fork cache c fork =
    if (fork.hash == c.head_hash) || canonical cache c.head_hash fork.hash
    then some fork
    else (if canonical cache fork.hash c.head_hash
        then some (record fork { hash = c.head_hash; number = c.head_number })
        else none)

-- The first fork that matches takes the client; if none does, a new fork stands at the end.
unfoldable pub join_fork : BlockCache → Client → List HeadFork → List HeadFork
join_fork cache c [] =
    record { hash = c.head_hash; number = c.head_number; all_clients = c ∷ []; ready_clients = [] }
    ∷ []
join_fork cache c (fork ∷ forks) =
    let rest = join_fork cache c forks in
    elim (match_fork cache c fork) [
      | none ↦ fork ∷ rest
      | some joined ↦ record joined { all_clients = joined.all_clients ++ c ∷ [] } ∷ forks
    ]

unfoldable pub join_forks : BlockCache → List Client → List HeadFork → List HeadFork
join_forks cache [] forks = forks
join_forks cache (c ∷ cs) forks = join_forks cache cs (join_fork cache c forks)

-- Whether a client of a fork is ready: online and near the fork's head.
unfoldable pub is_ready : (fork_distance : ℕ) → BlockCache → HeadFork → Client → Bool
is_ready fork_distance cache fork c =
    c.is_online
    && leb (if fork.hash == c.head_hash then 0 else distance cache c.head_hash fork.hash)
        fork_distance

unfoldable pub with_ready : (fork_distance : ℕ) → BlockCache → HeadFork → HeadFork
with_ready fork_distance cache fork = record fork {
  ready_clients = filterb (is_ready fork_distance cache fork) fork.all_clients;
}

module _ (sort : List HeadFork → List HeadFork) where
  -- The forks that are not in the cache yet, for a distance that is not negative.
  unfoldable pub get_head_forks : (fork_distance : ℕ) → BlockCache → List Client → List HeadFork
  unfolding join_forks
  get_head_forks fork_distance cache clients =
      sort (map (with_ready fork_distance cache) (join_forks cache clients []))

  unfoldable pub get_canonical_fork : ℕ → BlockCache → List Client → Option HeadFork
  get_canonical_fork fork_distance cache clients =
      elim (get_head_forks fork_distance cache clients) [ [] ↦ none | f ∷ fs ↦ some f ]

abbrev pub seen_first : Client → Option Client → Option Client
seen_first c none = some c
seen_first c (some f) = some f

-- The round robin loop: the first wanted client that was seen, and the index chosen last.
unfoldable pub pick : ClientType → ℕ → Option Client → List Client → Option Client
pick wanted last first [] = first
pick wanted last first (c ∷ cs) =
    let skipped = pick wanted last first cs in
    let later = pick wanted last (seen_first c first) cs in
    if not (type_eq wanted any_client) && not (type_eq wanted c.client_type)
    then skipped
    else (if ltb last c.client_idx then some c else later)

-- `rrLastIndexes`, with 0 for a missing entry.
abbrev pub last_index : ClientType → List (ℕ × ℕ) → ℕ
last_index wanted m = elim (lookup (type_code wanted) m) [ none ↦ 0 | some i ↦ i ]

unfoldable pub run_client_scheduler :
    List Client → ClientType → List (ℕ × ℕ) → List (ℕ × ℕ) × Option Client
unfolding pick
run_client_scheduler ready_clients wanted m =
    elim (pick wanted (last_index wanted m) none ready_clients) [
      | none ↦ (m, none)
      | some c ↦ (insert (type_code wanted) c.client_idx m, some c)
    ]
