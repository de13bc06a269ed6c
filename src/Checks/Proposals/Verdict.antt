-- ===== src/Checks/Proposals/Verdict.antt =====
-- What a verdict of checkBlock says (tasks/check_consensus_block_proposals/task.go).
use mathlib.Core.Path.{subst}
use assertoor.Prelude.Int.{ℤ}
use assertoor.Checks.Proposals.{
  ProposalConfig, BlockData, Outside, DepositRequest, ExpectedDepositRequest, ExecutionRequests,
}
use assertoor.Checks.Proposals.Waiting.{ProposalBlock, lookback_blocks, execute_proposals}
use assertoor.Checks.Proposals.Matching.{outcome, execute_proposals-outcome}
use assertoor.Checks.Proposals.Contents.{same_text, is_set}
use assertoor.Checks.Proposals.Requests.{
  amount_fits, deposit_request_fits, deposit_request_found, all_deposit_requests_found,
  check_block_deposit_requests, checks, run_checks, check_block,
}
use assertoor.Prelude.{
  ℕ, ◌<◌, ◌≡◌, refl, sym, ap, ◌∙◌, Bool, true, false, not, ◌&&◌, ◌||◌, Option, none, some, List, [],
  ◌∷◌, ◌++◌, ltb, if◌then◌else◌, length, filterb, All, nat_key, string_key,
}

-- A result that is no panic.
abbrev Returns : Option Bool → Type 0
Returns o = (v : Bool) × (o ≡ some v)

if-Returns : (c : Bool) (x y : Option Bool) → Returns x → Returns y → Returns (if c then x else y)
if-Returns true x y ok ok' = ok
if-Returns false x y ok ok' = ok'

then-Returns :
    (o x y : Option Bool)
    → Returns o
    → Returns x
    → Returns y
    → Returns (elim o [ none ↦ none | some passed ↦ if passed then x else y ])
then-Returns o x y (v, e) ok ok' =
    subst (λ q. Returns (elim q [ none ↦ none | some passed ↦ if passed then x else y ])) (sym e)
      (if-Returns v x y ok ok')

run_checks-Returns :
    (cs : List (Bool × Option Bool))
    → All (λ (c : Bool × Option Bool). Returns c.1) cs
    → Returns (run_checks cs)
unfolding run_checks
run_checks-Returns [] ok = (true, refl)
run_checks-Returns ((wanted, verdict) ∷ cs) (ok, rest) =
    let later = run_checks-Returns cs rest in
    if-Returns wanted _ (run_checks cs)
      (then-Returns verdict (run_checks cs) (some false) ok later (false, refl)) later

-- The amounts that are expected of deposit requests are given.
unfoldable pub GivesAmounts : List ExpectedDepositRequest → Type 0
GivesAmounts es = All (λ (e : ExpectedDepositRequest). (amount : ℤ) × (e.amount ≡ some amount)) es

module _ (out : Outside) where
  deposit_request_fits-Returns :
      (e : ExpectedDepositRequest) (r : DepositRequest) (amount : ℤ)
      → e.amount ≡ some amount
      → Returns (deposit_request_fits out e r)
  unfolding deposit_request_fits
  deposit_request_fits-Returns e r amount given =
      if-Returns (same_text e.public_key "" || same_text r.pubkey e.public_key) _ (some false)
        (if-Returns
          (is_set e.withdrawal_credentials
            && not (same_text (out.from_hex e.withdrawal_credentials) r.withdrawal_credentials))
          (some false) (amount_fits e.amount r.amount) (false, refl)
          (subst (λ o. Returns (amount_fits o r.amount)) (sym given) (_, refl)))
        (false, refl)

  deposit_request_found-Returns :
      (e : ExpectedDepositRequest) (rs : List DepositRequest) (amount : ℤ)
      → e.amount ≡ some amount
      → Returns (deposit_request_found out e rs)
  unfolding deposit_request_found
  deposit_request_found-Returns e [] amount given = (false, refl)
  deposit_request_found-Returns e (r ∷ rs) amount given =
      then-Returns (deposit_request_fits out e r) (some true) (deposit_request_found out e rs)
        (deposit_request_fits-Returns e r amount given) (true, refl)
        (deposit_request_found-Returns e rs amount given)

  all_deposit_requests_found-Returns :
      (es : List ExpectedDepositRequest) (rs : List DepositRequest)
      → GivesAmounts es
      → Returns (all_deposit_requests_found out es rs)
  unfolding all_deposit_requests_found GivesAmounts
  all_deposit_requests_found-Returns [] rs given = (true, refl)
  all_deposit_requests_found-Returns (e ∷ es) rs ((amount, one), given) =
      then-Returns (deposit_request_found out e rs) (all_deposit_requests_found out es rs)
        (some false) (deposit_request_found-Returns e rs amount one)
        (all_deposit_requests_found-Returns es rs given) (false, refl)

check_block_deposit_requests-Returns :
    (out : Outside) (cfg : ProposalConfig) (b : BlockData)
    → GivesAmounts cfg.expect_deposit_requests
    → Returns (check_block_deposit_requests out cfg b)
unfolding check_block_deposit_requests
check_block_deposit_requests-Returns out cfg b given = go b.execution_requests
  where
    go :
        (o : Option ExecutionRequests)
        → Returns (elim o [
          | none ↦ some false
          | some requests ↦
              if ltb (length requests.deposits) cfg.min_deposit_request_count
              then some false
              else all_deposit_requests_found out cfg.expect_deposit_requests requests.deposits
        ])
    go none = (false, refl)
    go (some requests) =
        if-Returns (ltb (length requests.deposits) cfg.min_deposit_request_count) (some false)
          (all_deposit_requests_found out cfg.expect_deposit_requests requests.deposits)
          (false, refl)
          (all_deposit_requests_found-Returns out cfg.expect_deposit_requests requests.deposits
            given)

-- A block is judged, and nothing panics, when the expected deposit requests give their amounts.
check_block-Returns :
    (out : Outside) (cfg : ProposalConfig) (o : Option BlockData)
    → GivesAmounts cfg.expect_deposit_requests
    → Returns (check_block out cfg o)
unfolding check_block checks
check_block-Returns out cfg none given = (false, refl)
check_block-Returns out cfg (some b) given = run_checks-Returns (checks out cfg b) (
  (_, refl),
  (
    (_, refl),
    (
      (_, refl),
      (
        (_, refl),
        (
          (_, refl),
          (
            (_, refl),
            (
              (_, refl),
              (
                (_, refl),
                (
                  (_, refl),
                  (
                    (_, refl),
                    (
                      (_, refl),
                      (
                        (_, refl),
                        (
                          (_, refl),
                          (
                            check_block_deposit_requests-Returns out cfg b given,
                            ((_, refl), ((_, refl), tt)),
                          ),
                        ),
                      ),
                    ),
                  ),
                ),
              ),
            ),
          ),
        ),
      ),
    ),
  ),
)

-- Whether a block passes.
abbrev passes_check : Outside → ProposalConfig → Option BlockData → Bool
passes_check out cfg o = elim (check_block out cfg o) [ none ↦ false | some passed ↦ passed ]

passes_check-Returns :
    (out : Outside) (cfg : ProposalConfig) (o : Option BlockData)
    → GivesAmounts cfg.expect_deposit_requests
    → check_block out cfg o ≡ some (passes_check out cfg o)
passes_check-Returns out cfg o given =
    let (v, e) = check_block-Returns out cfg o given in
    e ∙ ap some (sym (ap (λ r. elim r [ none ↦ false | some passed ↦ passed ]) e))

-- If every expected deposit request gives its amount and some blocks are wanted, no check panics, and
-- among the blocks of the lookback, the oldest first, and those that arrive, the task finds those that
-- pass, in their order: it ends with the wanted number of them, a success and their roots as its output,
-- as soon as there are so many, and waits on with all of them while there are fewer.
pub execute_proposals-check_block :
    (out : Outside) (cfg : ProposalConfig) (await_block : ProposalBlock → Option BlockData)
    (blocks : List ProposalBlock) (cached : ℕ → Option ProposalBlock)
    (arriving : List ProposalBlock)
    → GivesAmounts cfg.expect_deposit_requests
    → 0 < cfg.block_count
    → execute_proposals cfg.check_lookback cfg.block_count
        (λ b. check_block out cfg (await_block b))
        blocks
        cached
        arriving
      ≡ some (
          outcome cfg.block_count (
            filterb
              (λ b. passes_check out cfg (await_block b))
              (lookback_blocks cfg.check_lookback blocks cached ++ arriving)))
execute_proposals-check_block out cfg await_block blocks cached arriving given some_wanted =
    execute_proposals-outcome cfg.check_lookback cfg.block_count
      (λ b. check_block out cfg (await_block b)) (λ b. passes_check out cfg (await_block b)) blocks
      cached arriving (λ b. passes_check-Returns out cfg (await_block b) given) some_wanted
