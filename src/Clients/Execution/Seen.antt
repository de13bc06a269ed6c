-- ===== src/Clients/Execution/Seen.antt =====
-- A block that is waited for can be seen once (clients/execution/block.go).
use assertoor.Clients.Execution.{SeenBy, set_seen_by, check_seen_by, has_seen}
use assertoor.Prelude.{
  ℕ, ◌≡◌, refl, sym, ap, ◌∙◌, Bool, true, false, Option, none, some, List, [], ◌∷◌, arith, ltb,
  if◌then◌else◌, length, nat_key, string_key, lookup, insert,
}

-- Clients that see the block one after the other.
unfoldable pub set_all : List ℕ → SeenBy → Option SeenBy
set_all [] s = some s
set_all (c ∷ cs) s = elim (set_seen_by c s) [ none ↦ none | some next ↦ set_all cs next ]

-- Whether there is a panic.
abbrev pub panics : Option SeenBy → Bool
panics none = true
panics (some s) = false

set_all_closed :
    (cs : List ℕ) (s : SeenBy) → s.seen_chan ≡ some true → panics (set_all cs s) ≡ ltb 0 (length cs)
unfolding set_all set_seen_by
set_all_closed [] s closed = refl
set_all_closed (c ∷ cs) s closed = rw (closed) (ground arith)

set_all_open :
    (cs : List ℕ) (s : SeenBy)
    → s.seen_chan ≡ some false
    → panics (set_all cs s) ≡ ltb 1 (length cs)
unfolding set_all set_seen_by
set_all_open [] s opened = refl
set_all_open (c ∷ cs) s opened = rw (opened) (
    set_all_closed cs (record { seen_map = insert c c s.seen_map; seen_chan = some true }) refl
    ∙ ground arith)

set_all_quiet : (cs : List ℕ) (s : SeenBy) → s.seen_chan ≡ none → panics (set_all cs s) ≡ false
unfolding set_all set_seen_by
set_all_quiet [] s quiet = refl
set_all_quiet (c ∷ cs) s quiet =
    let t : SeenBy = record { seen_map = insert c c s.seen_map; seen_chan = none } in
    let step : set_seen_by c s ≡ some t = rw (quiet) refl in
    rw (step, set_all) (set_all_quiet cs t refl)

-- On a block without a channel, no client that sees it panics; but once a client has checked for itself
-- in vain, some do if there are at least two of them, and none if its check succeeds.
pub set_all-panics :
    (w : ℕ) (cs : List ℕ) (s : SeenBy)
    → s.seen_chan ≡ none
    → (panics (set_all cs s) ≡ false)
      × (panics (set_all cs (check_seen_by w s).1)
          ≡ (if has_seen w s then false else ltb 1 (length cs)))
unfolding check_seen_by
set_all-panics w cs s quiet = (set_all_quiet cs s quiet, after (lookup w s.seen_map) refl)
  where
    check_result : Option ℕ → Bool × SeenBy
    check_result o = elim o [
      | some u ↦ (true, s)
      | none ↦ (false, elim s.seen_chan [ none ↦ record s { seen_chan = some false } | some c ↦ s ])
    ]

    after :
        (o : Option ℕ)
        → lookup w s.seen_map ≡ o
        → panics (set_all cs (check_seen_by w s).1)
          ≡ (if has_seen w s then false else ltb 1 (length cs))
    after none e =
        let t : SeenBy = record { seen_map = s.seen_map; seen_chan = some false } in
        let waits : (check_seen_by w s).1 ≡ t =
          ap (λ o. (check_result o).1) e ∙ ap (λ c. elim c [ none ↦ t | some c' ↦ s ]) quiet in
        let no : has_seen w s ≡ false = ap (λ o. elim o [ none ↦ false | some u ↦ true ]) e in
        ap (λ q. panics (set_all cs q)) waits
        ∙ set_all_open cs t refl
        ∙ ap (λ b. if b then false else ltb 1 (length cs)) (sym no)
    after (some u) e =
        let same : (check_seen_by w s).1 ≡ s = ap (λ o. (check_result o).1) e in
        let yes : has_seen w s ≡ true = ap (λ o. elim o [ none ↦ false | some u ↦ true ]) e in
        ap (λ q. panics (set_all cs q)) same
        ∙ set_all_quiet cs s quiet
        ∙ ap (λ b. if b then false else ltb 1 (length cs)) (sym yes)
