-- ===== src/Clients/Pool/RoundRobin.antt =====
-- Which client the round robin of clients/execution/pool.go chooses.
use assertoor.Clients.Pool.{
  type_code, ClientType, any_client, Client, type_eq, pick, last_index, run_client_scheduler,
}
use assertoor.Prelude.{
  ℕ, ◌≡◌, ◌∙◌, inl, inr, Bool, ◌&&◌, ◌||◌, Option, none, some, List, [], ◌∷◌, arith, ltb,
  Option-cases, filterb, nat_key, string_key, insert, lookup-insert,
}

pub suits : ClientType → Client → Bool
suits wanted c = type_eq wanted any_client || type_eq wanted c.client_type

-- The specification: the first suitable client with an index above the last one, or else the first
-- suitable one.
head_of : List Client → Option Client
head_of [] = none
head_of (c ∷ cs) = some c

or_else : Option Client → Option Client → Option Client
or_else none o = o
or_else (some c) o = some c

pub next_client : ClientType → ℕ → List Client → Option Client
next_client wanted last cs =
    or_else (head_of (filterb (λ c. suits wanted c && ltb last c.client_idx) cs))
      (head_of (filterb (suits wanted) cs))

pick-first :
    (wanted : ClientType) (last : ℕ) (first : Option Client) (cs : List Client)
    → pick wanted last first cs
      ≡ or_else
          (head_of (filterb (λ c. suits wanted c && ltb last c.client_idx) cs))
          (or_else first (head_of (filterb (suits wanted) cs)))
unfolding pick suits or_else head_of
pick-first wanted last first [] = ground arith
pick-first wanted last none (c ∷ cs) =
    ground (arith, pick-first wanted last none cs, pick-first wanted last (some c) cs)
pick-first wanted last (some f) (c ∷ cs) = ground (arith, pick-first wanted last (some f) cs)

run_client_scheduler-pick :
    (ready_clients : List Client) (wanted : ClientType) (m : List (ℕ × ℕ))
    → (run_client_scheduler ready_clients wanted m).1
      ≡ pick wanted (last_index wanted m) none ready_clients
unfolding run_client_scheduler
run_client_scheduler-pick ready_clients wanted m =
    elim (Option-cases (pick wanted (last_index wanted m) none ready_clients)) [
      | inl e ↦ rw (e, run_client_scheduler)
      | inr (c, e) ↦ rw (e, run_client_scheduler)
    ]

run_client_scheduler-some :
    (ready_clients : List Client) (wanted : ClientType) (m : List (ℕ × ℕ)) (d : Client)
    → pick wanted (last_index wanted m) none ready_clients ≡ some d
    → (run_client_scheduler ready_clients wanted m).0 ≡ insert (type_code wanted) d.client_idx m
unfolding run_client_scheduler
run_client_scheduler-some ready_clients wanted m d e = rw (e, run_client_scheduler)

run_client_scheduler-none :
    (ready_clients : List Client) (wanted : ClientType) (m : List (ℕ × ℕ))
    → pick wanted (last_index wanted m) none ready_clients ≡ none
    → (run_client_scheduler ready_clients wanted m).0 ≡ m
unfolding run_client_scheduler
run_client_scheduler-none ready_clients wanted m e = rw (e, run_client_scheduler)

last_index-insert :
    (wanted : ClientType) (i : ℕ) (m : List (ℕ × ℕ))
    → last_index wanted (insert (type_code wanted) i m) ≡ i
last_index-insert wanted i m =
    ground (arith, lookup-insert (type_code wanted) (type_code wanted) i m)

abbrev pub index_after : ℕ → Option Client → ℕ
index_after last none = last
index_after last (some c) = c.client_idx

run_client_scheduler-index :
    (ready_clients : List Client) (wanted : ClientType) (m : List (ℕ × ℕ))
    → let r = run_client_scheduler ready_clients wanted m in
      last_index wanted r.0 ≡ index_after (last_index wanted m) r.1
run_client_scheduler-index ready_clients wanted m =
    elim (Option-cases (pick wanted (last_index wanted m) none ready_clients)) [
      | inl e ↦ rw (
        run_client_scheduler-pick ready_clients wanted m ∙ e,
        run_client_scheduler-none ready_clients wanted m e,
      )
      | inr (d, e) ↦
          rw
            (
              run_client_scheduler-pick ready_clients wanted m ∙ e,
              run_client_scheduler-some ready_clients wanted m d e,
            )
            (last_index-insert wanted d.client_idx m)
    ]

-- The scheduler chooses the first suitable client with an index above the one chosen last for the
-- type, or else the first suitable client, or none if there is none; and the last index afterwards
-- is that of the client that it chose, or the old one if it chose none.
pub run_client_scheduler-next_client :
    (ready_clients : List Client) (wanted : ClientType) (m : List (ℕ × ℕ))
    → let r = run_client_scheduler ready_clients wanted m in
      (r.1 ≡ next_client wanted (last_index wanted m) ready_clients)
      × (last_index wanted r.0 ≡ index_after (last_index wanted m) r.1)
unfolding run_client_scheduler next_client head_of or_else
run_client_scheduler-next_client ready_clients wanted m = (
  run_client_scheduler-pick ready_clients wanted m
      ∙ pick-first wanted (last_index wanted m) none ready_clients,
  run_client_scheduler-index ready_clients wanted m,
)
