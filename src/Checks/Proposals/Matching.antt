-- ===== src/Checks/Proposals/Matching.antt =====
-- The task ends at the block that completes the wanted matches
-- (tasks/check_consensus_block_proposals/task.go, Execute).
use mathlib.Core.List.{append_assoc, append-nil}
use assertoor.Types.{TaskResult}
use assertoor.Checks.Proposals.Waiting.{
  ProposalBlock, Waiting, roots_of, note_match, decide_match, check_block_match, lookback_blocks,
  wait_for, execute_proposals,
}
use assertoor.Prelude.{
  ℕ, ◌+◌, ◌<◌, ◌≡◌, refl, sym, ap, ◌∙◌, inl, inr, Bool, true, false, Option, none, some, List, [],
  ◌∷◌, ◌++◌, arith, leb, if◌then◌else◌, lt→ltb, leb→le, Bool-cases, length, take, filterb,
  length-append, take-append, nat_key, string_key,
}

-- The task before and after it is done.
abbrev pub waiting : List ProposalBlock → Waiting
waiting found = record {
  matching_blocks = found;
  total_matches = length found;
  result = TaskResult.none;
  matching_block_roots = none;
}

abbrev pub finished : List ProposalBlock → Waiting
finished found = record {
  matching_blocks = found;
  total_matches = length found;
  result = TaskResult.success;
  matching_block_roots = some (roots_of found);
}

-- What the task should be when these blocks match and `wanted` of them are enough.
abbrev pub outcome : ℕ → List ProposalBlock → Bool × Waiting
outcome wanted found =
    if leb wanted (length found)
    then (true, finished (take wanted found))
    else (false, waiting found)

outcome_full :
    (found more : List ProposalBlock)
    → outcome (length found) (found ++ more) ≡ (true, finished found)
outcome_full found more =
    let enough : leb (length found) (length (found ++ more)) ≡ true =
      let n = length-append found more in ground arith in
    rw (enough, take-append found more) refl

note_match-waiting :
    (wanted : ℕ) (b : ProposalBlock) (found : List ProposalBlock)
    → note_match wanted true b (waiting found) ≡ waiting (found ++ b ∷ [])
unfolding note_match
note_match-waiting wanted b found =
    let n : length found + 1 ≡ length (found ++ b ∷ []) =
      omega (arith, length-append found (b ∷ [])) in
    ap
      (λ k. record {
        matching_blocks = found ++ b ∷ [];
        total_matches = k;
        result = TaskResult.none;
        matching_block_roots = none;
      })
      n

module _ (wanted : ℕ) (check : ProposalBlock → Option Bool) (b : ProposalBlock)
    (bs : List ProposalBlock) (w next : Waiting) (r : Bool) (verdict : check b ≡ some r) where
  wait_more :
      check_block_match wanted r b w ≡ (false, next)
      → wait_for wanted check (b ∷ bs) w ≡ wait_for wanted check bs next
  unfolding wait_for
  wait_more step = rw (verdict, step, wait_for) refl

  wait_done :
      check_block_match wanted r b w ≡ (true, next)
      → wait_for wanted check (b ∷ bs) w ≡ some (true, next)
  unfolding wait_for
  wait_done step = rw (verdict, step, wait_for) refl

module _ (wanted : ℕ) (check : ProposalBlock → Option Bool) (good : ProposalBlock → Bool)
    (checked : (b : ProposalBlock) → check b ≡ some (good b)) (some_wanted : 0 < wanted) where
  match_step :
      (b : ProposalBlock) (found : List ProposalBlock)
      → check_block_match wanted true b (waiting found) ≡ (
          if leb wanted (length (found ++ b ∷ []))
          then (true, finished (found ++ b ∷ []))
          else (false, waiting (found ++ b ∷ [])))
  unfolding check_block_match decide_match
  match_step b found =
      ap (decide_match wanted true) (note_match-waiting wanted b found)
      ∙ rw (lt→ltb _ _ some_wanted) refl

  other_step :
      (b : ProposalBlock) (found : List ProposalBlock)
      → length found < wanted
      → check_block_match wanted false b (waiting found) ≡ (false, waiting found)
  unfolding check_block_match decide_match note_match
  other_step b found few =
      let no : leb wanted (length found) ≡ false = ground arith in
      rw (lt→ltb _ _ some_wanted, no) refl

  wait_for-outcome :
      (bs found : List ProposalBlock)
      → length found < wanted
      → wait_for wanted check bs (waiting found) ≡ some (outcome wanted (found ++ filterb good bs))
  unfolding wait_for
  wait_for-outcome [] found few =
      let all : found ++ [] ≡ found = append-nil found in
      let no : leb wanted (length found) ≡ false = ground arith in rw (all, no) refl
  wait_for-outcome (b ∷ bs) found few = elim (Bool-cases (good b)) [
    | inl matches ↦
        let more : List ProposalBlock = found ++ b ∷ [] in
        let n : length more ≡ length found + 1 = length-append found (b ∷ []) ∙ refl in
        let whole : found ++ b ∷ filterb good bs ≡ more ++ filterb good bs =
          sym (append_assoc found (b ∷ []) (filterb good bs)) in
        let verdict : check b ≡ some true = checked b ∙ ap some matches in
        rw (matches, whole)
          (elim (Bool-cases (leb wanted (length more))) [
            | inl enough ↦
                let w : wanted ≡ length more = omega (arith, n, leb→le _ _ enough, few) in
                wait_done wanted check b bs (waiting found) (finished more) true verdict
                  (match_step b found ∙ rw (enough) refl)
                ∙ ap some (
                    sym (
                      ap (λ k. outcome k (more ++ filterb good bs)) w
                      ∙ outcome_full more (filterb good bs)))
            | inr few' ↦
                wait_more wanted check b bs (waiting found) (waiting more) true verdict
                  (match_step b found ∙ rw (few') refl)
                ∙ wait_for-outcome bs more (ground arith)
          ])
    | inr differs ↦ rw (differs) (
        wait_more wanted check b bs (waiting found) (waiting found) false
          (checked b ∙ ap some differs) (other_step b found few)
        ∙ wait_for-outcome bs found few)
  ]

-- The task's blocks are those of the lookback, the oldest first, and then those that arrive. It ends
-- with the first wanted matches among them, in their order, and goes on as long as there are fewer.
pub execute_proposals-outcome :
    (check_lookback wanted : ℕ) (check : ProposalBlock → Option Bool) (good : ProposalBlock → Bool)
    (blocks : List ProposalBlock) (cached : ℕ → Option ProposalBlock)
    (arriving : List ProposalBlock)
    → ((b : ProposalBlock) → check b ≡ some (good b))
    → 0 < wanted
    → execute_proposals check_lookback wanted check blocks cached arriving
      ≡ some
          (outcome wanted (filterb good (lookback_blocks check_lookback blocks cached ++ arriving)))
unfolding execute_proposals
execute_proposals-outcome check_lookback wanted check good blocks cached arriving checked
      some_wanted =
    wait_for-outcome wanted check good checked some_wanted
      (lookback_blocks check_lookback blocks cached ++ arriving) [] some_wanted
