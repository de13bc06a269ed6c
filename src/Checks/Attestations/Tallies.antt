-- ===== src/Checks/Attestations/Tallies.antt =====
-- What the votes of an attestation add to the activity map
-- (tasks/check_consensus_attestation_stats/task.go, aggregateAttestationVotes).
use assertoor.Checks.Attestations.{
  AttesterDuty, Bits, VoteTally, no_votes, add64, member, count_duty, count_duties, duties_at,
  ChainSpecs, aggregate_attestation_votes, aggregate_committees, add_votes,
}
use mathlib.Core.Path.{subst}
use mathlib.Core.List.{append_assoc}
use assertoor.Prelude.{
  ℕ, zero, suc, ◌+◌, ◌^◌, ◌<◌, String, ◌≡◌, refl, sym, ap, ◌∙◌, inl, inr, Bool, true, false, not,
  ◌&&◌, List, [], ◌∷◌, ◌++◌, arith, if◌then◌else◌, Bool-cases, length, All, length-append, nat_key,
  string_key,
}

-- Each validator stands in the list once.
unfoldable pub distinct : List ℕ → Bool
distinct [] = true
distinct (x ∷ xs) = not (member x xs) && distinct xs

-- The effective balance of all the validators of a list.
unfoldable pub balance_sum : (ℕ → ℕ) → List ℕ → ℕ
balance_sum balance [] = 0
balance_sum balance (x ∷ xs) = balance x + balance_sum balance xs

pub balance_sum-append :
    (balance : ℕ → ℕ) (xs ys : List ℕ)
    → balance_sum balance (xs ++ ys) ≡ balance_sum balance xs + balance_sum balance ys
unfolding balance_sum
balance_sum-append balance [] ys = omega arith
balance_sum-append balance (x ∷ xs) ys =
    let rest = balance_sum-append balance xs ys in omega (arith, rest)

add64_small : (a b : ℕ) → a + b < 2 ^ 64 → add64 a b ≡ a + b
add64_small a b h = omega (arith, h)

-- The duties carry the balances of their validators.
unfoldable pub HasBalances : (ℕ → ℕ) → List AttesterDuty → Type 0
HasBalances balance duties = All (λ (d : AttesterDuty). d.balance ≡ balance d.validator) duties

-- A tally counts exactly the validators that it adds to `base`, unless the sums overflow.
pub record Adds (balance : ℕ → ℕ) (base : List ℕ) (t : VoteTally) : Type 0 where
  pub added : List ℕ
  pub grown : t.activity ≡ added ++ base
  pub amount : balance_sum balance added < 2 ^ 64 → t.vote_amount ≡ balance_sum balance added
  pub count : length added < 2 ^ 64 → t.vote_count ≡ length added
  pub once : distinct t.activity ≡ true

pub no_votes-Adds :
    (balance : ℕ → ℕ) (base : List ℕ) → distinct base ≡ true → Adds balance base (no_votes base)
unfolding balance_sum
no_votes-Adds balance base once = record {
  added = [];
  grown = refl;
  amount = λ h. refl;
  count = λ h. refl;
  once = once;
}

count_duty-Adds :
    (balance : ℕ → ℕ) (base : List ℕ) (bit : Bool) (d : AttesterDuty) (t : VoteTally)
    → d.balance ≡ balance d.validator
    → Adds balance base t
    → Adds balance base (count_duty bit d t)
unfolding count_duty distinct balance_sum
count_duty-Adds balance base false d t worth ok = ok
count_duty-Adds balance base true d t worth ok = elim (Bool-cases (member d.validator t.activity)) [
  | inl seen ↦
      let same : count_duty true d t ≡ t = rw (seen) refl in subst (Adds balance base) (sym same) ok
  | inr fresh ↦
      let t' : VoteTally = record {
        vote_amount = add64 t.vote_amount d.balance;
        vote_count = add64 t.vote_count 1;
        activity = d.validator ∷ t.activity;
      } in
      let same : count_duty true d t ≡ t' = rw (fresh) refl in
      let ok' : Adds balance base t' = record {
        added = d.validator ∷ ok.added;
        grown = ap (λ xs. d.validator ∷ xs) ok.grown;
        amount = λ h. let old = ok.amount (omega (arith, h)) in omega (arith, h, old, worth);
        count = λ h. let old = ok.count (omega (arith, h)) in omega (arith, h, old);
        once = rw (fresh, ok.once) refl;
      } in
      subst (Adds balance base) (sym same) ok'
]

count_duties-Adds :
    (balance : ℕ → ℕ) (base : List ℕ) (bits : Bits) (offset bit_idx : ℕ) (ds : List AttesterDuty)
    (t : VoteTally)
    → HasBalances balance ds
    → Adds balance base t
    → Adds balance base (count_duties bits offset bit_idx ds t)
unfolding count_duties HasBalances
count_duties-Adds balance base bits offset i [] t worth ok = ok
count_duties-Adds balance base bits offset i (d ∷ ds) t (worth, rest) ok =
    let bit = bits (add64 i offset) in
    count_duties-Adds balance base bits offset (i + 1) ds (count_duty bit d t) rest
      (count_duty-Adds balance base bit d t worth ok)

pub add_votes-Adds :
    (balance : ℕ → ℕ) (base : List ℕ) (t more : VoteTally)
    → Adds balance base t
    → Adds balance t.activity more
    → Adds balance base (add_votes t more)
add_votes-Adds balance base t more ok ok' = record {
  added = ok'.added ++ ok.added;
  grown =
      ok'.grown ∙ ap (λ xs. ok'.added ++ xs) ok.grown ∙ sym (append_assoc ok'.added ok.added base);
  amount = λ h.
      let sum = balance_sum-append balance ok'.added ok.added in
      let old = ok.amount (omega (arith, h, sum)) in
      let new = ok'.amount (omega (arith, h, sum)) in omega (arith, h, sum, old, new);
  count = λ h.
      let sum = length-append ok'.added ok.added in
      let old = ok.count (omega (arith, h, sum)) in
      let new = ok'.count (omega (arith, h, sum)) in omega (arith, h, sum, old, new);
  once = ok'.once;
}

-- Both branches of a test count right.
pub either :
    {balance : ℕ → ℕ} {base : List ℕ} (b : Bool) (t u : VoteTally)
    → Adds balance base t
    → Adds balance base u
    → Adds balance base (if b then t else u)
either true t u ok ok' = ok
either false t u ok ok' = ok'

-- The balances stand at every key of the duties.
unfoldable pub AllHaveBalances : (ℕ → ℕ) → List (String × List AttesterDuty) → Type 0
AllHaveBalances balance duties = (key : String) → HasBalances balance (duties_at key duties)

module _ (specs : ChainSpecs) (balance : ℕ → ℕ) (duties : List (String × List AttesterDuty))
    (worth : AllHaveBalances balance duties) where
  pub aggregate_attestation_votes-Adds :
      (slot committee : ℕ) (bits : Bits) (offset : ℕ) (activity : List ℕ)
      → distinct activity ≡ true
      → Adds balance activity
          (aggregate_attestation_votes specs duties slot committee bits offset activity).0
  unfolding aggregate_attestation_votes AllHaveBalances
  aggregate_attestation_votes-Adds slot committee bits offset activity once =
      count_duties-Adds balance activity bits offset 0
        (duties_at (specs.att_key slot committee) duties) (no_votes activity)
        (worth (specs.att_key slot committee)) (no_votes-Adds balance activity once)

  pub aggregate_committees-Adds :
      (slot : ℕ) (committee_bits bits : Bits) (count committee offset : ℕ) (base : List ℕ)
      (t : VoteTally)
      → Adds balance base t
      → Adds balance base
          (aggregate_committees specs duties slot committee_bits bits count committee offset t)
  unfolding aggregate_committees
  aggregate_committees-Adds slot committee_bits bits zero committee offset base t ok = ok
  aggregate_committees-Adds slot committee_bits bits (suc count) committee offset base t ok =
      let (more, size) =
        aggregate_attestation_votes specs duties slot committee bits 0 t.activity in
      let added : Adds balance t.activity more =
        aggregate_attestation_votes-Adds slot committee bits 0 t.activity ok.once in
      aggregate_committees-Adds slot committee_bits bits count (committee + 1)
        (if committee_bits committee then add64 offset size else offset) base
        (if committee_bits committee then add_votes t more else t)
        (either (committee_bits committee) (add_votes t more) t
          (add_votes-Adds balance base t more ok added) ok)
