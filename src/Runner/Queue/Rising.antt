-- ===== src/Runner/Queue/Rising.antt =====
-- Lists of runs with rising ids, the runs of a test in one, and taking a run out (testrunner.go).
use mathlib.Core.Path.{subst}
use assertoor.Prelude.{
  ℕ, suc, ◌≤◌, ◌<◌, String, ◌≡◌, refl, ap, ◌⊎◌, inl, inr, false, Option, none, some, List, [], ◌∷◌,
  ◌++◌, arith, ◌==◌, if◌then◌else◌, ==_iff, Bool-cases, Option-cases, nat_key, string_key,
}
use assertoor.Runner.Queue.{TestRef, TestRunner, in_queue, remove_run}

-- The run ids rise along the list, from above `lo` to at most `hi`.
abbrev pub Rising : ℕ → ℕ → List TestRef → Type 0
Rising lo hi [] = lo ≤ hi
Rising lo hi (t ∷ ts) = (lo < t.run_id) × Rising t.run_id hi ts

-- How many runs of the list are of a test.
abbrev pub runs_of : String → List TestRef → ℕ
runs_of id [] = 0
runs_of id (t ∷ ts) = let n = runs_of id ts in if string_key.beq t.test_id id then suc n else n

abbrev pub waiting_runs : Option TestRef → List TestRef → List TestRef
waiting_runs none queue = queue
waiting_runs (some t) queue = t ∷ queue

-- The run taken out and the queue behind it are in the order of their ids, which were all given
-- out; and the queue has at most one run of the test.
pub record Ordered (id : String) (counter : ℕ) (taken : Option TestRef) (queue : List TestRef)
    : Type 0 where
  pub rising : Rising 0 counter (waiting_runs taken queue)
  pub once : runs_of id queue ≤ 1

abbrev pub IsQueue : String → TestRunner → Type 0
IsQueue id c = Ordered id c.run_id_counter c.taken c.test_queue

pub Rising-append :
    (lo hi : ℕ) (ts : List TestRef) (t : TestRef)
    → Rising lo hi ts
    → hi < t.run_id
    → Rising lo t.run_id (ts ++ t ∷ [])
Rising-append lo hi [] t r h = (omega arith, omega arith)
Rising-append lo hi (x ∷ ts) t r h = (r.0, Rising-append x.run_id hi ts t r.1 h)

pub Rising-more_room :
    (lo hi hi' : ℕ) (ts : List TestRef) → hi ≤ hi' → Rising lo hi ts → Rising lo hi' ts
Rising-more_room lo hi hi' [] h r = omega arith
Rising-more_room lo hi hi' (x ∷ ts) h r = (r.0, Rising-more_room x.run_id hi hi' ts h r.1)

pub Rising-less_room :
    (lo lo' hi : ℕ) (ts : List TestRef) → lo' ≤ lo → Rising lo hi ts → Rising lo' hi ts
Rising-less_room lo lo' hi [] h r = omega arith
Rising-less_room lo lo' hi (x ∷ ts) h r = (omega arith, r.1)

pub runs_of-append :
    (id : String) (ts : List TestRef) (t : TestRef)
    → runs_of id (ts ++ t ∷ [])
      ≡ (if string_key.beq t.test_id id then suc (runs_of id ts) else runs_of id ts)
runs_of-append id [] t = ground arith
runs_of-append id (x ∷ ts) t = ground (arith, runs_of-append id ts t)

pub in_queue-runs_of :
    (id : String) (ts : List TestRef) → in_queue id ts ≡ false → runs_of id ts ≡ 0
in_queue-runs_of id [] h = refl
in_queue-runs_of id (x ∷ ts) h = ground (arith, in_queue-runs_of id ts)

-- A removal takes one run out of the list, the one with the id.
pub remove_run-split :
    (id : ℕ) (ts ts' : List TestRef)
    → remove_run id ts ≡ some ts'
    → (pre : List TestRef) × (t : TestRef) × (post : List TestRef) × (ts ≡ pre ++ t ∷ post)
      × (ts' ≡ pre ++ post)
      × (t.run_id ≡ id)
unfolding remove_run
remove_run-split id [] ts' e = cc
remove_run-split id (x ∷ ts) ts' e = elim (Bool-cases (x.run_id == id)) [
  | inl here ↦ ([], x, ts, refl, ground arith, (==_iff x.run_id id).0 here)
  | inr there ↦ elim (Option-cases (remove_run id ts)) [
    | inl missing ↦ absurd (cc (rw (there, missing, remove_run) at e))
    | inr (rest, found) ↦
        let (pre, t, post, eq, eq', same) = remove_run-split id ts rest found in
        (x ∷ pre, t, post, ap (◌∷◌ x) eq, ground (arith, ap (◌∷◌ x) eq'), same)
  ]
]

pub Rising-middle :
    (lo hi : ℕ) (pre : List TestRef) (t : TestRef) (post : List TestRef)
    → Rising lo hi (pre ++ t ∷ post)
    → Rising lo hi (pre ++ post)
Rising-middle lo hi [] t post r = Rising-less_room t.run_id lo hi post (omega arith) r.1
Rising-middle lo hi (x ∷ pre) t post r = (r.0, Rising-middle x.run_id hi pre t post r.1)

pub runs_of_middle :
    (id : String) (pre : List TestRef) (t : TestRef) (post : List TestRef)
    → runs_of id (pre ++ post) ≤ runs_of id (pre ++ t ∷ post)
runs_of_middle id [] t post = ground arith
runs_of_middle id (x ∷ pre) t post = ground (arith, runs_of_middle id pre t post)

-- A queue after a run joins it, leaves it, is taken out or starts.
module _ (id : String) where
  pub append-Ordered :
      (n : ℕ) (taken : Option TestRef) (q : List TestRef) (t : TestRef)
      → Ordered id n taken q
      → n < t.run_id
      → (string_key.beq t.test_id id ≡ false) ⊎ (in_queue t.test_id q ≡ false)
      → Ordered id t.run_id taken (q ++ t ∷ [])
  append-Ordered n taken q t v above new = record {
    rising = last taken v.rising;
    once = elim new [
      | inl other ↦ ground (arith, runs_of-append id q t, v.once)
      | inr missing ↦ elim (Bool-cases (string_key.beq t.test_id id)) [
        | inl here ↦
            let none_yet =
              in_queue-runs_of id q (rw ((string_key.beq_iff t.test_id id).0 here) at missing) in
            ground (arith, runs_of-append id q t, none_yet)
        | inr other ↦ ground (arith, runs_of-append id q t, v.once)
      ]
    ];
  }
    where
      last :
          (x : Option TestRef)
          → Rising 0 n (waiting_runs x q)
          → Rising 0 t.run_id (waiting_runs x (q ++ t ∷ []))
      last none r = Rising-append 0 n q t r above
      last (some x) r = Rising-append 0 n (x ∷ q) t r above

  pub count-Ordered :
      (n m : ℕ) (taken : Option TestRef) (q : List TestRef)
      → n ≤ m
      → Ordered id n taken q
      → Ordered id m taken q
  count-Ordered n m taken q le v = record {
    rising = Rising-more_room 0 n m (waiting_runs taken q) le v.rising;
    once = v.once;
  }

  pub remove-Ordered :
      (run n : ℕ) (taken : Option TestRef) (q q' : List TestRef)
      → remove_run run q ≡ some q'
      → Ordered id n taken q
      → Ordered id n taken q'
  remove-Ordered run n taken q q' e v =
      let (pre, t, post, eq, eq', same) = remove_run-split run q q' e in
      let v' = subst (Ordered id n taken) eq v in
      rw eq' (record {
        rising = middle taken pre t post v'.rising;
        once = omega (arith, v'.once, runs_of_middle id pre t post);
      })
    where
      middle :
          (taken : Option TestRef) (pre : List TestRef) (t : TestRef) (post : List TestRef)
          → Rising 0 n (waiting_runs taken (pre ++ t ∷ post))
          → Rising 0 n (waiting_runs taken (pre ++ post))
      middle none pre t post r = Rising-middle 0 n pre t post r
      middle (some x) pre t post r = Rising-middle 0 n (x ∷ pre) t post r

  pub take-Ordered :
      (n : ℕ) (t : TestRef) (ts : List TestRef)
      → Ordered id n none (t ∷ ts)
      → Ordered id n (some t) ts
  take-Ordered n t ts v = record { rising = v.rising; once = ground (arith, v.once) }

  pub start-Ordered :
      (n : ℕ) (t : TestRef) (ts : List TestRef) → Ordered id n (some t) ts → Ordered id n none ts
  start-Ordered n t ts v = record {
    rising = Rising-less_room t.run_id 0 n ts (omega arith) v.rising.1;
    once = v.once;
  }
