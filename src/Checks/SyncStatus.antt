-- ===== src/Checks/SyncStatus.antt =====
-- The task check_consensus_sync_status (tasks/check_consensus_sync_status/task.go). The clients and
-- what their nodes answer are arguments; the comparisons of percentages, which are floating-point
-- numbers, are parameters. Slots are below 2 ^ 63, where int64 and uint64 agree.
use mathlib.Core.Path.{subst}
use assertoor.Types.{TaskResult}
use assertoor.Prelude.{
  ℕ, ◌+◌, String, ◌≡◌, refl, ap, ◌∙◌, ◌⊎◌, inl, inr, Bool, true, false, not, ◌&&◌, Option, none,
  some, List, [], ◌∷◌, ◌++◌, arith, ltb, leb, ◌==◌, if◌then◌else◌, length, length-append, nat_key,
  string_key, lookup, insert,
}

pub record SyncStatus : Type 0 where
  pub head_slot : ℕ
  pub sync_distance : ℕ
  pub is_syncing : Bool
  pub is_optimistic : Bool

-- The answer of a node to `GetNodeSyncStatus`; with an error there is no status. The last case is
-- that the task's context has ended meanwhile.
pub data SyncAnswer : Type 0 where
  status : SyncStatus → SyncAnswer
  no_status context_ended : SyncAnswer

pub record SyncClient : Type 0 where
  pub name : String
  pub execution_index : ℕ

pub record SyncConfig : Type 0 where
  pub expect_syncing : Bool
  pub expect_optimistic : Bool
  pub min_slot_height : ℕ
  pub wait_for_chain_progression : Bool
  pub is_below_min_percent : SyncStatus → Bool
  pub is_above_max_percent : SyncStatus → Bool

pub record ClientInfo : Type 0 where
  pub name : String
  pub synchronizing : Bool
  pub optimistic : Bool
  pub sync_head : ℕ
  pub sync_distance : ℕ

abbrev bool_eq : Bool → Bool → Bool
bool_eq a b = if a then b else not b

abbrev get_client_info : SyncClient → SyncStatus → ClientInfo
get_client_info client s = record {
  name = client.name;
  synchronizing = s.is_syncing;
  optimistic = s.is_optimistic;
  sync_head = s.head_slot;
  sync_distance = s.sync_distance;
}

-- A missing key of `firstHeight` gives 0.
abbrev height_of : ℕ → List (ℕ × ℕ) → ℕ
height_of i heights = elim (lookup i heights) [ none ↦ 0 | some h ↦ h ]

abbrev note_height : SyncClient → SyncStatus → List (ℕ × ℕ) → List (ℕ × ℕ)
note_height client s heights =
    if height_of client.execution_index heights == 0
    then insert client.execution_index s.head_slot heights
    else heights

-- `processClientCheck`, once the first height is noted.
unfoldable pub process_client_check : SyncConfig → SyncStatus → (first_height : ℕ) → Bool
process_client_check cfg s first_height =
    if bool_eq s.is_syncing cfg.expect_syncing
    then (if bool_eq s.is_optimistic cfg.expect_optimistic
        then (if cfg.is_below_min_percent s
            then false
            else (if cfg.is_above_max_percent s
                then false
                else (if ltb s.head_slot cfg.min_slot_height
                    then false
                    else not (cfg.wait_for_chain_progression && leb s.head_slot first_height))))
        else false)
    else false

-- The local variables of `processCheck`.
pub record SyncCheck : Type 0 where
  pub first_height : List (ℕ × ℕ)
  pub all_results_pass : Bool
  pub good_clients : List ClientInfo
  pub failed_clients : List ClientInfo

-- In the last two cases the task is over.
pub data SyncOutcome : Type 0 where
  finished : SyncCheck → SyncOutcome
  cancelled panicked : SyncOutcome

abbrev add_client : Bool → SyncClient → SyncStatus → SyncCheck → SyncCheck
add_client passes client s c = record c {
  all_results_pass = if passes then c.all_results_pass else false;
  good_clients = if passes then c.good_clients ++ get_client_info client s ∷ [] else c.good_clients;
  failed_clients =
      if passes then c.failed_clients else c.failed_clients ++ get_client_info client s ∷ [];
}

-- The loop over the clients. `getClientInfo` reads the status of a client that has failed as well, and
-- panics if there is none.
unfoldable pub check_clients : SyncConfig → List (SyncClient × SyncAnswer) → SyncCheck → SyncOutcome
check_clients cfg [] c = finished c
check_clients cfg ((client, context_ended) ∷ rest) c = cancelled
check_clients cfg ((client, no_status) ∷ rest) c = panicked
check_clients cfg ((client, status s) ∷ rest) c =
    let heights = note_height client s c.first_height in
    check_clients cfg rest (
      add_client (process_client_check cfg s (height_of client.execution_index heights)) client s
        (record c { first_height = heights }))

abbrev start_check : List (ℕ × ℕ) → SyncCheck
start_check heights = record {
  first_height = heights;
  all_results_pass = true;
  good_clients = [];
  failed_clients = [];
}

-- `processCheck`: the outcome, and the result that it sets, if it sets one.
unfoldable pub process_check :
    SyncConfig → List (SyncClient × SyncAnswer) → List (ℕ × ℕ) → SyncOutcome × Option TaskResult
process_check cfg answers heights =
    let outcome = check_clients cfg answers (start_check heights) in
    (
      outcome,
      elim outcome [
        | finished c ↦ some (if c.all_results_pass then TaskResult.success else TaskResult.none)
        | cancelled ↦ none
        | panicked ↦ none
      ],
    )

abbrev all_answered : List (SyncClient × SyncAnswer) → Bool
all_answered [] = true
all_answered ((client, status s) ∷ rest) = all_answered rest
all_answered ((client, _) ∷ rest) = false

-- What the loop keeps: it has judged `n` clients.
record HasJudged (n : ℕ) (c : SyncCheck) : Type 0 where
  divided : length c.good_clients + length c.failed_clients ≡ n
  passing : c.all_results_pass ≡ (length c.failed_clients == 0)

add_client-HasJudged :
    (passes : Bool) (client : SyncClient) (s : SyncStatus) (n : ℕ) (c : SyncCheck)
    → HasJudged n c
    → HasJudged (n + 1) (add_client passes client s c)
add_client-HasJudged true client s n c ok = record {
  divided = omega (arith, ok.divided, length-append c.good_clients (get_client_info client s ∷ []));
  passing = ok.passing;
}
add_client-HasJudged false client s n c ok = record {
  divided =
      omega (arith, ok.divided, length-append c.failed_clients (get_client_info client s ∷ []));
  passing = let l = length-append c.failed_clients (get_client_info client s ∷ []) in ground arith;
}

check_clients-HasJudged :
    (cfg : SyncConfig) (answers : List (SyncClient × SyncAnswer)) (n : ℕ) (c : SyncCheck)
    → HasJudged n c
    → ((all_answered answers ≡ true)
        × (d : SyncCheck) × (check_clients cfg answers c ≡ finished d)
        × HasJudged (n + length answers) d)
      ⊎ ((all_answered answers ≡ false)
          × ((check_clients cfg answers c ≡ cancelled) ⊎ (check_clients cfg answers c ≡ panicked)))
unfolding check_clients
check_clients-HasJudged cfg [] n c ok =
    inl (refl, c, refl, record { divided = omega (arith, ok.divided); passing = ok.passing })
check_clients-HasJudged cfg ((client, context_ended) ∷ rest) n c ok = inr (refl, inl refl)
check_clients-HasJudged cfg ((client, no_status) ∷ rest) n c ok = inr (refl, inr refl)
check_clients-HasJudged cfg ((client, status s) ∷ rest) n c ok =
    let heights = note_height client s c.first_height in
    let passes = process_client_check cfg s (height_of client.execution_index heights) in
    let c' : SyncCheck = record c { first_height = heights } in
    let ok' : HasJudged n c' = record { divided = ok.divided; passing = ok.passing } in
    let e : n + 1 + length rest ≡ n + length ((client, status s) ∷ rest) = omega arith in
    elim (check_clients-HasJudged cfg rest (n + 1) (add_client passes client s c')
      (add_client-HasJudged passes client s n c' ok')) [
        | inl (all, d, judged, ok'') ↦ inl (all, d, judged, subst (λ k. HasJudged k d) e ok'')
        | inr stopped ↦ inr stopped
      ]

start-HasJudged : (heights : List (ℕ × ℕ)) → HasJudged 0 (start_check heights)
start-HasJudged heights = record { divided = refl; passing = refl }

-- If every node answers, each client is in one of the two lists, and the result is a success exactly
-- when none has failed; if some node does not, no result is set.
process_check-result :
    (cfg : SyncConfig) (answers : List (SyncClient × SyncAnswer)) (heights : List (ℕ × ℕ))
    → ((all_answered answers ≡ true)
        × (c : SyncCheck) × ((process_check cfg answers heights).0 ≡ finished c)
        × (length c.good_clients + length c.failed_clients ≡ length answers)
        × ((process_check cfg answers heights).1
            ≡ some (if length c.failed_clients == 0 then TaskResult.success else TaskResult.none)))
      ⊎ ((all_answered answers ≡ false) × ((process_check cfg answers heights).1 ≡ none))
unfolding process_check
process_check-result cfg answers heights =
    elim (check_clients-HasJudged cfg answers 0 (start_check heights) (start-HasJudged heights)) [
      | inl (all, c, judged, ok) ↦ inl (
        all,
        c,
        judged,
        omega (arith, ok.divided),
        ap result_of judged
            ∙ ap (λ b. some (if b then TaskResult.success else TaskResult.none)) ok.passing,
      )
      | inr (some_left, stopped) ↦
          inr (
            some_left,
            elim stopped [ inl left ↦ ap result_of left | inr left ↦ ap result_of left ],
          )
    ]
  where
    result_of : SyncOutcome → Option TaskResult
    result_of outcome = elim outcome [
      | finished c ↦ some (if c.all_results_pass then TaskResult.success else TaskResult.none)
      | cancelled ↦ none
      | panicked ↦ none
    ]
