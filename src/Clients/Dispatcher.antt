-- ===== src/Clients/Dispatcher.antt =====
-- Event subscriptions: clients/execution/subscriptions.go. Subscriptions are shared objects, named
-- by the order in which they were made.
use mathlib.Core.Option.{some-injective}
use mathlib.Core.Path.{subst}
use assertoor.Prelude.{
  ℕ, zero, suc, ◌≡◌, refl, sym, inl, inr, Bool, true, false, not, Option, none, some, List, [], ◌∷◌,
  ◌++◌, arith, ltb, ◌==◌, if◌then◌else◌, Option-cases, length, get_elem?, set, All, nat_key,
  string_key,
}

-- `has_dispatcher` is whether the field `dispatcher` is set; `channel` is what waits in the channel,
-- oldest first.
pub record Subscription {ℓ} (T : Type ℓ) : Type ℓ where
  pub capacity : ℕ
  pub has_dispatcher : Bool
  pub channel : List T

-- All subscriptions ever made, and the dispatcher's list.
pub record Dispatcher {ℓ} (T : Type ℓ) : Type ℓ where
  pub made : List (Subscription T)
  pub subscriptions : List ℕ

-- The last entry of a list that is not empty, and what stands before it.
abbrev pub last_or : ℕ → List ℕ → ℕ
last_or x [] = x
last_or x (y ∷ ys) = last_or y ys

abbrev pub but_last : ℕ → List ℕ → List ℕ
but_last x [] = []
but_last x (y ∷ ys) = x ∷ but_last y ys

-- The slot of `id` takes the last entry, and the list is cut by one.
unfoldable pub swap_remove : ℕ → List ℕ → Option (List ℕ)
swap_remove id [] = none
swap_remove id (x ∷ xs) =
    let rest = swap_remove id xs in
    if x == id
    then some (elim xs [ [] ↦ [] | y ∷ ys ↦ last_or y ys ∷ but_last y ys ])
    else (elim rest [ none ↦ none | some ys ↦ some (x ∷ ys) ])

-- What a program does with a dispatcher.
pub data Call {ℓ} (T : Type ℓ) : Type ℓ where
  subscribes receives unsubscribes unsubscribes_self : ℕ → Call T
  fires : T → Call T

module _ {ℓ} {T : Type ℓ} where
  unfoldable pub new_dispatcher : Dispatcher T
  new_dispatcher = record { made = []; subscriptions = [] }

  unfoldable pub subscribe : ℕ → Dispatcher T → Dispatcher T × ℕ
  subscribe capacity d =
      let s : Subscription T = record {
        capacity = capacity;
        has_dispatcher = true;
        channel = [];
      } in
      (
        record { made = d.made ++ s ∷ []; subscriptions = d.subscriptions ++ length d.made ∷ [] },
        length d.made,
      )

  abbrev clear_dispatcher : Subscription T → Subscription T
  clear_dispatcher s = record s { has_dispatcher = false }

  unfoldable pub unsubscribe : ℕ → Dispatcher T → Dispatcher T
  unsubscribe id d = elim (get_elem? d.made id) [
    | none ↦ d
    | some s ↦ if s.has_dispatcher then d else (elim (swap_remove id d.subscriptions) [
      | none ↦ d
      | some ids ↦ record { made = set d.made id (clear_dispatcher s); subscriptions = ids }
    ])
  ]

  -- The method of the subscription itself.
  unfoldable pub unsubscribe_self : ℕ → Dispatcher T → Dispatcher T
  unsubscribe_self id d = elim (get_elem? d.made id) [
    | none ↦ d
    | some s ↦ if not s.has_dispatcher then d else unsubscribe id d
  ]

  -- A send that would block is dropped. No receiver is waiting at an empty channel.
  unfoldable pub offer : T → Subscription T → Subscription T
  offer event s =
      if ltb (length s.channel) s.capacity
      then record s { channel = s.channel ++ event ∷ [] }
      else s

  unfoldable pub fire_each : T → List ℕ → List (Subscription T) → List (Subscription T)
  fire_each event [] made = made
  fire_each event (id ∷ ids) made =
      fire_each event ids
        (elim (get_elem? made id) [ none ↦ made | some s ↦ set made id (offer event s) ])

  unfoldable pub fire : T → Dispatcher T → Dispatcher T
  unfolding fire_each
  fire event d = record d { made = fire_each event d.subscriptions d.made }

  unfoldable pub receive_from : ℕ → Subscription T → List T → Dispatcher T → Dispatcher T × Option T
  receive_from id s [] d = (d, none)
  receive_from id s (event ∷ rest) d =
      (record d { made = set d.made id (record s { channel = rest }) }, some event)

  unfoldable pub receive : ℕ → Dispatcher T → Dispatcher T × Option T
  receive id d = elim (get_elem? d.made id) [
    | none ↦ (d, none)
    | some s ↦ receive_from id s s.channel d
  ]

  unfoldable pub apply_call : Call T → Dispatcher T → Dispatcher T
  apply_call (subscribes capacity) d = (subscribe capacity d).0
  apply_call (receives id) d = (receive id d).0
  apply_call (unsubscribes id) d = unsubscribe id d
  apply_call (unsubscribes_self id) d = unsubscribe_self id d
  apply_call (fires event) d = fire event d

  unfoldable pub apply_calls : List (Call T) → Dispatcher T → Dispatcher T
  unfolding apply_call
  apply_calls [] d = d
  apply_calls (c ∷ cs) d = apply_calls cs (apply_call c d)

  -- Every subscription still has its dispatcher.
  abbrev pub AllAttached : List (Subscription T) → Type 0
  AllAttached = All (λ s. s.has_dispatcher ≡ true)

  All-get :
      (made : List (Subscription T)) (id : ℕ) (s : Subscription T)
      → AllAttached made
      → get_elem? made id ≡ some s
      → s.has_dispatcher ≡ true
  All-get [] id s a e = cc
  All-get (x ∷ made) zero s a e = subst (λ y. y.has_dispatcher ≡ true) (some-injective _ _ e) a.0
  All-get (x ∷ made) (suc id) s a e = All-get made id s a.1 e

  All-set :
      (made : List (Subscription T)) (id : ℕ) (s : Subscription T)
      → AllAttached made
      → s.has_dispatcher ≡ true
      → AllAttached (set made id s)
  All-set [] id s a h = tt
  All-set (x ∷ made) zero s a h = (h, a.1)
  All-set (x ∷ made) (suc id) s a h = (a.0, All-set made id s a.1 h)

  All-snoc :
      (made : List (Subscription T)) (s : Subscription T)
      → AllAttached made
      → s.has_dispatcher ≡ true
      → AllAttached (made ++ s ∷ [])
  All-snoc [] s a h = (h, tt)
  All-snoc (x ∷ made) s a h = (a.0, All-snoc made s a.1 h)

  fire_each-All :
      (event : T) (ids : List ℕ) (made : List (Subscription T))
      → AllAttached made
      → AllAttached (fire_each event ids made)
  unfolding fire_each offer
  fire_each-All event [] made a = a
  fire_each-All event (id ∷ ids) made a = elim (Option-cases (get_elem? made id)) [
    | inl e ↦ rw e (fire_each-All event ids made a)
    | inr (s, e) ↦ rw e (
        fire_each-All event ids (set made id (offer event s))
          (All-set made id (offer event s) a (ground (arith, All-get made id s a e))))
  ]

  unsubscribe_attached : (id : ℕ) (d : Dispatcher T) → AllAttached d.made → unsubscribe id d ≡ d
  unfolding unsubscribe
  unsubscribe_attached id d a = elim (Option-cases (get_elem? d.made id)) [
    | inl e ↦ rw (e, unsubscribe)
    | inr (s, e) ↦ rw (e, unsubscribe) (rw (All-get d.made id s a e))
  ]

  unsubscribe_self_attached :
      (id : ℕ) (d : Dispatcher T) → AllAttached d.made → unsubscribe_self id d ≡ d
  unfolding unsubscribe_self
  unsubscribe_self_attached id d a = elim (Option-cases (get_elem? d.made id)) [
    | inl e ↦ rw (e, unsubscribe_self)
    | inr (s, e) ↦
        rw (e, unsubscribe_self) (rw (All-get d.made id s a e) (unsubscribe_attached id d a))
  ]

  receive_from-All :
      (id : ℕ) (s : Subscription T) (c : List T) (d : Dispatcher T)
      → AllAttached d.made
      → s.has_dispatcher ≡ true
      → AllAttached (receive_from id s c d).0.made
  unfolding receive_from
  receive_from-All id s [] d a h = a
  receive_from-All id s (event ∷ rest) d a h = All-set d.made id _ a h

  receive-All : (id : ℕ) (d : Dispatcher T) → AllAttached d.made → AllAttached (receive id d).0.made
  unfolding receive
  receive-All id d a = elim (Option-cases (get_elem? d.made id)) [
    | inl e ↦ rw (e, receive) a
    | inr (s, e) ↦ rw (e, receive) (receive_from-All id s s.channel d a (All-get d.made id s a e))
  ]

  apply_call-All :
      (c : Call T) (d : Dispatcher T) → AllAttached d.made → AllAttached (apply_call c d).made
  unfolding apply_call subscribe fire
  apply_call-All (subscribes capacity) d a = All-snoc d.made _ a refl
  apply_call-All (receives id) d a = receive-All id d a
  apply_call-All (unsubscribes id) d a =
      subst (λ y. AllAttached y.made) (sym (unsubscribe_attached id d a)) a
  apply_call-All (unsubscribes_self id) d a =
      subst (λ y. AllAttached y.made) (sym (unsubscribe_self_attached id d a)) a
  apply_call-All (fires event) d a = fire_each-All event d.subscriptions d.made a

  apply_calls-All :
      (cs : List (Call T)) (d : Dispatcher T)
      → AllAttached d.made
      → AllAttached (apply_calls cs d).made
  unfolding apply_calls
  apply_calls-All [] d a = a
  apply_calls-All (c ∷ cs) d a = apply_calls-All cs (apply_call c d) (apply_call-All c d a)

  -- Whatever was called on a new dispatcher before, both ways to unsubscribe leave the dispatcher
  -- and its subscriptions unchanged.
  pub unsubscribe-apply_calls :
      (cs : List (Call T)) (id : ℕ)
      → let d = apply_calls cs new_dispatcher in
        (unsubscribe id d ≡ d) × (unsubscribe_self id d ≡ d)
  unfolding new_dispatcher
  unsubscribe-apply_calls cs id =
      let a = apply_calls-All cs new_dispatcher tt in
      (unsubscribe_attached id _ a, unsubscribe_self_attached id _ a)
