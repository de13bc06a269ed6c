-- ===== src/Checks/Attestations/Streak.antt =====
-- The task passes after enough good epochs in a row (Execute and runAttestationStatsCheck in
-- tasks/check_consensus_attestation_stats/task.go).
use assertoor.Types.{TaskResult, result_eq}
use assertoor.Checks.Attestations.{AttesterDuties, EpochVotes}
use assertoor.Checks.Attestations.Duties.{no_duties}
use assertoor.Checks.Attestations.Passing.{
  CheckConfig, Percents, CheckState, CheckOutputs, epoch_outputs, passes, record_check,
  check_epoch_votes, run_attestation_stats_check, check_epoch, execute_ticks, new_check,
}
use assertoor.Prelude.{
  ℕ, ◌+◌, ◌-◌, ◌^◌, ◌≤◌, ◌<◌, ◌≡◌, refl, sym, ap, ◌∙◌, inl, inr, Bool, true, false, ◌&&◌, none,
  some, List, [], ◌∷◌, ◌++◌, arith, ltb, leb, if◌then◌else◌, ltb→lt, Bool-cases, length, nat_key,
  string_key,
}

abbrev all_true : List Bool → Bool
all_true [] = true
all_true (r ∷ rs) = r && all_true rs

-- How many of the last verdicts are good, up to the last bad one.
abbrev streak : List Bool → ℕ
streak [] = 0
streak (r ∷ rs) = if all_true rs then (if r then length rs + 1 else length rs) else streak rs

-- The counter `n` after more verdicts.
abbrev counter : ℕ → List Bool → ℕ
counter n [] = n
counter n (r ∷ rs) = counter (if r then n + 1 else 0) rs

counter-streak :
    (n : ℕ) (rs : List Bool) → counter n rs ≡ (if all_true rs then n + length rs else streak rs)
counter-streak n [] = omega arith
counter-streak n (true ∷ rs) = let rest = counter-streak (n + 1) rs in ground arith
counter-streak n (false ∷ rs) = let rest = counter-streak 0 rs in ground arith

counter-append : (n : ℕ) (rs qs : List Bool) → counter n (rs ++ qs) ≡ counter (counter n rs) qs
counter-append n [] qs = refl
counter-append n (r ∷ rs) qs = counter-append (if r then n + 1 else 0) rs qs

counter_bound : (n : ℕ) (rs : List Bool) → counter n rs ≤ n + length rs
counter_bound n [] = omega arith
counter_bound n (true ∷ rs) = let rest = counter_bound (n + 1) rs in omega arith
counter_bound n (false ∷ rs) = let rest = counter_bound 0 rs in omega arith

check_epoch_due : (last epoch : ℕ) → last + 2 < epoch → check_epoch last epoch ≡ some (epoch - 2)
unfolding check_epoch
check_epoch_due last epoch h = ground arith

check_epoch_early : (last epoch : ℕ) → ltb (last + 2) epoch ≡ false → check_epoch last epoch ≡ none
unfolding check_epoch
check_epoch_early last epoch h = ground arith

streak_all : (rs : List Bool) → all_true rs ≡ true → streak rs ≡ length rs
streak_all [] h = refl
streak_all (r ∷ rs) h = let rest = streak_all rs in ground arith

counter-fresh : (rs : List Bool) → counter 0 rs ≡ streak rs
counter-fresh rs = elim (Bool-cases (all_true rs)) [
  | inl all ↦ counter-streak 0 rs ∙ (rw (all) (omega (arith, streak_all rs all)))
  | inr some_bad ↦ counter-streak 0 rs ∙ (rw (some_bad) refl)
]

module _ {F : Type 0} (floats : Percents F) (cfg : CheckConfig) (is_canonical : ℕ → ℕ → Bool)
    (votes : ℕ → List EpochVotes) where
  -- The verdict on an epoch: that on its first canonical head, if there is one.
  abbrev verdict : ℕ → List EpochVotes → List Bool
  verdict epoch [] = []
  verdict epoch (v ∷ vs) =
      if is_canonical epoch v.head_root
      then passes floats cfg (
          epoch_outputs floats cfg epoch v
            (elim v.attester_duties [ none ↦ no_duties | some d ↦ d ]))
        ∷ []
      else verdict epoch vs

  -- The epochs that are checked as the clock ticks: each that is two behind and not yet checked.
  abbrev checked_epochs : (last_checked : ℕ) → (ticks : List ℕ) → List ℕ
  checked_epochs last [] = []
  checked_epochs last (epoch ∷ ticks) =
      if ltb (last + 2) epoch
      then (epoch - 2) ∷ checked_epochs (epoch - 2) ticks
      else checked_epochs last ticks

  abbrev verdicts : List ℕ → List Bool
  verdicts [] = []
  verdicts (epoch ∷ epochs) = verdict epoch (votes epoch) ++ verdicts epochs

  -- The result is a success exactly with enough passed epochs.
  IsFair : CheckState F → Type 0
  IsFair s =
      result_eq s.result TaskResult.success
      ≡ (ltb 0 s.passed_epochs && leb cfg.min_checked_epochs s.passed_epochs)

  record_check-IsFair :
      (r : Bool) (s : CheckState F)
      → s.passed_epochs + 1 < 2 ^ 64
      → IsFair s
      → IsFair (record_check floats cfg r s)
  unfolding IsFair record_check
  record_check-IsFair true s fits fair = ground arith
  record_check-IsFair false s fits fair = ground arith

  -- What the checks of some epochs do to the counter.
  record Follows (s : CheckState F) (rs : List Bool) (t : CheckState F) : Type 0 where
    fair : IsFair t
    counted : t.passed_epochs ≡ counter s.passed_epochs rs

  record_check-Follows :
      (r : Bool) (s : CheckState F)
      → s.passed_epochs + 1 < 2 ^ 64
      → IsFair s
      → Follows s (r ∷ []) (record_check floats cfg r s)
  unfolding record_check
  record_check-Follows true s fits fair = record {
    fair = record_check-IsFair true s fits fair;
    counted = omega (arith, fits);
  }
  record_check-Follows false s fits fair = record {
    fair = record_check-IsFair false s fits fair;
    counted = refl;
  }

  Follows-either :
      (s : CheckState F) (b : Bool) (rs qs : List Bool) (t u : CheckState F)
      → Follows s rs t
      → Follows s qs u
      → Follows s (if b then rs else qs) (if b then t else u)
  Follows-either s true rs qs t u ok ok' = ok
  Follows-either s false rs qs t u ok ok' = ok'

  run_attestation_stats_check-Follows :
      (epoch : ℕ) (vs : List EpochVotes) (s : CheckState F)
      → s.passed_epochs + 1 < 2 ^ 64
      → IsFair s
      → Follows s
          (verdict epoch vs)
          (run_attestation_stats_check floats cfg (is_canonical epoch) epoch vs s)
  unfolding run_attestation_stats_check check_epoch_votes IsFair
  run_attestation_stats_check-Follows epoch [] s fits fair = record { fair = fair; counted = refl }
  run_attestation_stats_check-Follows epoch (v ∷ vs) s fits fair =
      let d : AttesterDuties = elim v.attester_duties [ none ↦ no_duties | some d ↦ d ] in
      let outputs : CheckOutputs F = epoch_outputs floats cfg epoch v d in
      let r = passes floats cfg outputs in
      let s' : CheckState F = record s { outputs = some outputs } in
      let one = record_check-Follows r s' fits fair in
      let this : Follows s (r ∷ []) (record_check floats cfg r s') = record {
        fair = one.fair;
        counted = one.counted;
      } in
      Follows-either s (is_canonical epoch v.head_root) (r ∷ []) (verdict epoch vs)
        (record_check floats cfg r s') _ this
        (run_attestation_stats_check-Follows epoch vs s fits fair)

  -- Checks one after the other.
  Follows-then :
      (s t u : CheckState F) (rs qs : List Bool)
      → Follows s rs t
      → Follows t qs u
      → Follows s (rs ++ qs) u
  Follows-then s t u rs qs one two = record {
    fair = two.fair;
    counted =
        two.counted
        ∙ ap (λ n. counter n qs) one.counted
        ∙ sym (counter-append s.passed_epochs rs qs);
  }

  verdict_short : (epoch : ℕ) (vs : List EpochVotes) → length (verdict epoch vs) ≤ 1
  verdict_short epoch [] = omega arith
  verdict_short epoch (v ∷ vs) = let rest = verdict_short epoch vs in ground arith

  execute_ticks-Follows :
      (ticks : List ℕ) (last : ℕ) (s : CheckState F)
      → s.passed_epochs + length ticks < 2 ^ 64
      → IsFair s
      → Follows s
          (verdicts (checked_epochs last ticks))
          (execute_ticks floats cfg is_canonical votes last ticks s)
  unfolding execute_ticks IsFair
  execute_ticks-Follows [] last s fits fair = record { fair = fair; counted = refl }
  execute_ticks-Follows (epoch ∷ ticks) last s fits fair =
      elim (Bool-cases (ltb (last + 2) epoch)) [
        | inl due ↦
            let late : last + 2 < epoch = ltb→lt _ _ due in
            let checked : check_epoch last epoch ≡ some (epoch - 2) =
              check_epoch_due last epoch late in
            let now =
              run_attestation_stats_check-Follows (epoch - 2) (votes (epoch - 2)) s (omega arith)
                fair in
            let t =
              run_attestation_stats_check floats cfg (is_canonical (epoch - 2)) (epoch - 2)
                (votes (epoch - 2)) s in
            let bound = counter_bound s.passed_epochs (verdict (epoch - 2) (votes (epoch - 2))) in
            let short = verdict_short (epoch - 2) (votes (epoch - 2)) in
            let later =
              execute_ticks-Follows ticks (epoch - 2) t
                (omega (arith, bound, short, now.counted, fits)) now.fair in
            rw (due, checked)
              (Follows-then s t _ (verdict (epoch - 2) (votes (epoch - 2))) _ now later)
        | inr not_due ↦
            let checked : check_epoch last epoch ≡ none = check_epoch_early last epoch not_due in
            rw (not_due, checked) (execute_ticks-Follows ticks last s (omega arith) fair)
      ]

  -- Below 2^64 ticks of the clock, the result of a new task is a success exactly when at least one of
  -- the last verdicts, and as many as are wanted, are good without a bad one after them; the epochs with
  -- a verdict are those two behind a tick, above all checked before, that have a canonical head.
  pub execute_ticks-success :
      (start : ℕ) (ticks : List ℕ)
      → length ticks < 2 ^ 64
      → result_eq
          (execute_ticks floats cfg is_canonical votes start ticks new_check).result
          TaskResult.success
        ≡ (ltb 0 (streak (verdicts (checked_epochs start ticks)))
            && leb cfg.min_checked_epochs (streak (verdicts (checked_epochs start ticks))))
  unfolding IsFair
  execute_ticks-success start ticks fits =
      let all = execute_ticks-Follows ticks start new_check (omega arith) refl in
      let e = all.counted ∙ counter-fresh (verdicts (checked_epochs start ticks)) in
      all.fair ∙ ap (λ n. ltb 0 n && leb cfg.min_checked_epochs n) e
