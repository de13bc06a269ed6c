-- ===== src/Checks/Proposals/Waiting.antt =====
-- Waiting for blocks that match (Execute and setMatchingBlocksOutput in
-- tasks/check_consensus_block_proposals/task.go), with the verdict on a block as a parameter. The
-- outputs' headers and bodies are made from the same blocks by another package and left out.
use assertoor.Types.{TaskResult}
use assertoor.Prelude.{
  ℕ, zero, suc, ◌+◌, Bool, true, false, Option, none, some, List, [], ◌∷◌, ◌++◌, map, ltb, leb,
  if◌then◌else◌, nat_key, string_key,
}

pub record ProposalBlock : Type 0 where
  pub root : ℕ
  pub parent_root : Option ℕ

-- The task: what it has found, its result and the roots that it has put out.
pub record Waiting : Type 0 where
  pub matching_blocks : List ProposalBlock
  pub total_matches : ℕ
  pub result : TaskResult
  pub matching_block_roots : Option (List ℕ)

abbrev new_waiting : Waiting
new_waiting = record {
  matching_blocks = [];
  total_matches = 0;
  result = TaskResult.none;
  matching_block_roots = none;
}

abbrev pub roots_of : List ProposalBlock → List ℕ
roots_of blocks = map (λ (b : ProposalBlock). b.root) blocks

module _ (block_count : ℕ) where
  -- `checkBlockMatch` with the verdict; also says whether the task is done.
  unfoldable pub note_match : Bool → ProposalBlock → Waiting → Waiting
  note_match matches b w = record w {
    matching_blocks = if matches then w.matching_blocks ++ b ∷ [] else w.matching_blocks;
    total_matches = if matches then w.total_matches + 1 else w.total_matches;
  }

  unfoldable pub decide_match : Bool → Waiting → Bool × Waiting
  decide_match matches w =
      if ltb 0 block_count
      then (if leb block_count w.total_matches
          then (
            true,
            record w {
              matching_block_roots = some (roots_of w.matching_blocks);
              result = TaskResult.success;
            },
          )
          else (false, w))
      else (false, record w { result = if matches then TaskResult.success else TaskResult.none })

  unfoldable pub check_block_match : Bool → ProposalBlock → Waiting → Bool × Waiting
  check_block_match matches b w = decide_match matches (note_match matches b w)

module _ (cached : ℕ → Option ProposalBlock) where
  -- The blocks of the lookback, at most `count` more, from a block back along its parents.
  unfoldable pub lookback_from : (count : ℕ) → ProposalBlock → List ProposalBlock
  lookback_from zero b = b ∷ []
  lookback_from (suc count) b = b ∷ elim b.parent_root [
    | none ↦ []
    | some root ↦ elim (cached root) [ none ↦ [] | some parent ↦ lookback_from count parent ]
  ]

abbrev reverse {ℓ} : {A : Type ℓ} → List A → List A
reverse [] = []
reverse (x ∷ xs) = reverse xs ++ x ∷ []

-- The blocks are checked from the oldest on; there are none if no block is cached.
unfoldable pub lookback_blocks :
    (check_lookback : ℕ) → List ProposalBlock → (ℕ → Option ProposalBlock) → List ProposalBlock
lookback_blocks zero blocks cached = []
lookback_blocks (suc count) [] cached = []
lookback_blocks (suc count) (b ∷ blocks) cached = reverse (lookback_from cached count b)

-- Checks the blocks until the task is done; a panic of a check, `none`, ends it as well.
unfoldable pub wait_for :
    (block_count : ℕ)
    → (ProposalBlock → Option Bool)
    → List ProposalBlock
    → Waiting
    → Option (Bool × Waiting)
wait_for block_count check [] w = some (false, w)
wait_for block_count check (b ∷ bs) w = elim (check b) [
  | none ↦ none
  | some matches ↦
      let (done, next) = check_block_match block_count matches b w in
      let rest = wait_for block_count check bs next in if done then some (true, next) else rest
]

-- The blocks of the lookback, and then those that arrive until the task is cancelled.
unfoldable pub execute_proposals :
    (check_lookback block_count : ℕ)
    → (ProposalBlock → Option Bool)
    → List ProposalBlock
    → (ℕ → Option ProposalBlock)
    → (arriving : List ProposalBlock) → Option (Bool × Waiting)
execute_proposals check_lookback block_count check blocks cached arriving =
    wait_for block_count check (lookback_blocks check_lookback blocks cached ++ arriving)
      new_waiting
