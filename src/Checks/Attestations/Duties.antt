-- ===== src/Checks/Attestations/Duties.antt =====
-- Loading the attester duties of an epoch (processBlock in
-- tasks/check_consensus_attestation_stats/task.go). What the block cache and the clients answer is an
-- argument; a validator that is missing from the loaded set is a panic, `none` here.
use assertoor.Checks.Attestations.{AttesterDuty, AttesterDuties, ChainSpecs, add64, duties_at}
use assertoor.Checks.Attestations.Tallies.{HasBalances, AllHaveBalances}
use assertoor.Checks.Attestations.Epochs.{AttesterDutyMap}
use mathlib.Core.Path.{subst}
use assertoor.Checks.Attestations.Totals.{IfAny}
use assertoor.Prelude.{
  ℕ, ◌/◌, String, ◌≡◌, refl, sym, ap, Bool, true, false, ◌&&◌, Option, none, some, List, [], ◌∷◌,
  ◌++◌, ltb, leb, ◌==◌, if◌then◌else◌, nat_key, string_key, lookup, insert, lookup-insert,
}

pub record Validator : Type 0 where
  pub activation_epoch : ℕ
  pub exit_epoch : ℕ
  pub effective_balance : ℕ

abbrev pub Validators : Type 0
Validators = List (ℕ × Validator)

pub record Committee : Type 0 where
  pub slot : ℕ
  pub index : ℕ
  pub validators : List ℕ

abbrev pub no_duties : AttesterDuties
no_duties = record { validator_count = 0; validator_balance = 0; duties = [] }

-- The loop that counts the validators that are active in the epoch.
unfoldable pub count_active : ℕ → Validators → AttesterDuties → AttesterDuties
count_active epoch [] d = d
count_active epoch ((i, v) ∷ vs) d = count_active epoch vs (
    if leb v.activation_epoch epoch && ltb epoch v.exit_epoch
    then record d {
      validator_count = add64 d.validator_count 1;
      validator_balance = add64 d.validator_balance v.effective_balance;
    }
    else d)

-- The balance of a validator of the set, 0 where there is none.
abbrev pub balance_in : Validators → ℕ → ℕ
balance_in validators i = elim (lookup i validators) [ none ↦ 0 | some v ↦ v.effective_balance ]

abbrev pub Duties : Type 0
Duties = List (String × List AttesterDuty)

-- One validator of a committee, with what `validators[valIndex]` is.
unfoldable pub add_duty : String → ℕ → Option Validator → Duties → Option Duties
add_duty key i none duties = none
add_duty key i (some v) duties = some (
    insert key
      (duties_at key duties ++ record { validator = i; balance = v.effective_balance } ∷ []) duties)

module _ (validators : Validators) where
  unfoldable pub add_committee : String → List ℕ → Duties → Option Duties
  add_committee key [] duties = some duties
  add_committee key (i ∷ is) duties = elim (add_duty key i (lookup i validators) duties) [
    | none ↦ none
    | some next ↦ add_committee key is next
  ]

  unfoldable pub add_committees : ChainSpecs → List Committee → Duties → Option Duties
  add_committees specs [] duties = some duties
  add_committees specs (c ∷ cs) duties =
      elim (add_committee (specs.att_key c.slot c.index) c.validators duties) [
        | none ↦ none
        | some next ↦ add_committees specs cs next
      ]

unfoldable pub load_duties :
    ChainSpecs → (epoch : ℕ) → Validators → List Committee → Option AttesterDuties
load_duties specs epoch validators committees =
    elim (add_committees validators specs committees []) [
      | none ↦ none
      | some duties ↦ some (record (count_active epoch validators no_duties) { duties = duties })
    ]

-- What a new block and its parent say, and what is loaded for them.
pub record NewBlock : Type 0 where
  pub has_body : Bool
  pub slot : ℕ
  pub parent : Option (ℕ × ℕ)
  pub validators : Option Validators
  pub committees : Option (List Committee)

-- The duties are stored under the epoch, whose map `roots` is there already.
unfoldable pub store_duties :
    ChainSpecs
    → NewBlock
    → (epoch root : ℕ) → List (ℕ × AttesterDuties)
    → AttesterDutyMap
    → Option AttesterDutyMap
store_duties specs b epoch root roots m = elim b.validators [
  | none ↦ some m
  | some validators ↦ elim b.committees [
    | none ↦ some m
    | some committees ↦ elim (load_duties specs epoch validators committees) [
      | none ↦ none
      | some d ↦ some (insert epoch (insert root d roots) m)
    ]
  ]
]

unfoldable pub process_block : ChainSpecs → NewBlock → AttesterDutyMap → Option AttesterDutyMap
process_block specs b m =
    if b.has_body
    then elim b.parent [
      | none ↦ some m
      | some (root, parent_slot) ↦
          let epoch = b.slot / specs.slots_per_epoch in
          if parent_slot / specs.slots_per_epoch == epoch then some m else elim (lookup epoch m) [
            | none ↦ store_duties specs b epoch root [] (insert epoch [] m)
            | some roots ↦ elim (lookup root roots) [
              | none ↦ store_duties specs b epoch root roots m
              | some d ↦ some m
            ]
          ]
    ]
    else some m

-- A new duty has the balance of its validator.
append-HasBalances :
    (balance : ℕ → ℕ) (ds es : List AttesterDuty)
    → HasBalances balance ds
    → HasBalances balance es
    → HasBalances balance (ds ++ es)
unfolding HasBalances
append-HasBalances balance [] es ok ok' = ok'
append-HasBalances balance (d ∷ ds) es (one, ok) ok' =
    (one, append-HasBalances balance ds es ok ok')

insert-AllHaveBalances :
    (balance : ℕ → ℕ) (key : String) (ds : List AttesterDuty) (duties : Duties)
    → HasBalances balance ds
    → AllHaveBalances balance duties
    → AllHaveBalances balance (insert key ds duties)
unfolding AllHaveBalances
insert-AllHaveBalances balance key ds duties new ok k =
    subst (λ o. HasBalances balance (elim o [ none ↦ [] | some es ↦ es ]))
      (sym (lookup-insert key k ds duties)) (either (string_key.beq key k) (lookup k duties) (ok k))
  where
    either :
        (b : Bool) (o : Option (List AttesterDuty))
        → HasBalances balance (elim o [ none ↦ [] | some es ↦ es ])
        → HasBalances balance (elim (if b then some ds else o) [ none ↦ [] | some es ↦ es ])
    either true o old = new
    either false o old = old

bind-IfAny {ℓ} :
    {A : Type ℓ} (P : A → Type 0) (o : Option A) (next : A → Option A)
    → IfAny P o
    → ((a : A) → P a → IfAny P (next a))
    → IfAny P (elim o [ none ↦ none | some a ↦ next a ])
unfolding IfAny
bind-IfAny P none next ok step = tt
bind-IfAny P (some a) next ok step = step a ok

module _ (validators : Validators) where
  add_duty-AllHaveBalances :
      (key : String) (i : ℕ) (o : Option Validator) (duties : Duties)
      → lookup i validators ≡ o
      → AllHaveBalances (balance_in validators) duties
      → IfAny (AllHaveBalances (balance_in validators)) (add_duty key i o duties)
  unfolding add_duty IfAny AllHaveBalances HasBalances
  add_duty-AllHaveBalances key i none duties here ok = tt
  add_duty-AllHaveBalances key i (some v) duties here ok =
      let d : AttesterDuty = record { validator = i; balance = v.effective_balance } in
      let worth : v.effective_balance ≡ balance_in validators i =
        ap (λ o. elim o [ none ↦ 0 | some w ↦ w.effective_balance ]) (sym here) in
      insert-AllHaveBalances (balance_in validators) key (duties_at key duties ++ d ∷ []) duties
        (append-HasBalances (balance_in validators) (duties_at key duties) (d ∷ []) (ok key)
          (worth, tt))
        ok

  add_committee-AllHaveBalances :
      (key : String) (is : List ℕ) (duties : Duties)
      → AllHaveBalances (balance_in validators) duties
      → IfAny (AllHaveBalances (balance_in validators)) (add_committee validators key is duties)
  unfolding add_committee IfAny
  add_committee-AllHaveBalances key [] duties ok = ok
  add_committee-AllHaveBalances key (i ∷ is) duties ok =
      bind-IfAny (AllHaveBalances (balance_in validators))
        (add_duty key i (lookup i validators) duties) (add_committee validators key is)
        (add_duty-AllHaveBalances key i (lookup i validators) duties refl ok)
        (add_committee-AllHaveBalances key is)

  add_committees-AllHaveBalances :
      (specs : ChainSpecs) (cs : List Committee) (duties : Duties)
      → AllHaveBalances (balance_in validators) duties
      → IfAny (AllHaveBalances (balance_in validators)) (add_committees validators specs cs duties)
  unfolding add_committees IfAny
  add_committees-AllHaveBalances specs [] duties ok = ok
  add_committees-AllHaveBalances specs (c ∷ cs) duties ok =
      bind-IfAny (AllHaveBalances (balance_in validators))
        (add_committee validators (specs.att_key c.slot c.index) c.validators duties)
        (add_committees validators specs cs)
        (add_committee-AllHaveBalances (specs.att_key c.slot c.index) c.validators duties ok)
        (add_committees-AllHaveBalances specs cs)

  pub load_duties-AllHaveBalances :
      (specs : ChainSpecs) (epoch : ℕ) (cs : List Committee)
      → IfAny
          (λ (d : AttesterDuties). AllHaveBalances (balance_in validators) d.duties)
          (load_duties specs epoch validators cs)
  unfolding load_duties IfAny AllHaveBalances HasBalances lookup
  load_duties-AllHaveBalances specs epoch cs =
      all (add_committees validators specs cs [])
        (add_committees-AllHaveBalances specs cs [] (λ key. tt))
    where
      all :
          (o : Option Duties)
          → IfAny (AllHaveBalances (balance_in validators)) o
          → IfAny
              (λ (d : AttesterDuties). AllHaveBalances (balance_in validators) d.duties)
              (elim o [
                | none ↦ none
                | some duties ↦
                    some (record (count_active epoch validators no_duties) { duties = duties })
              ])
      all none ok = tt
      all (some duties) ok = ok
