-- ===== src/Wallet/Account/Confirmed.antt =====
-- Who waits for a nonce is woken once it is confirmed (wallet/wallet.go).
use assertoor.Wallet.Account.{
  Tx, Receipt, NonceStatus, Wallet, load_state, finish_load, use_next_nonce, account_built,
  build_transaction, get_tx_nonce_chan, close_below, set_receipt, confirm_nonce,
  process_transaction_inclusion, no_mark, has_chans, process_stale_confirmations,
  process_transaction_receival,
}
use assertoor.Wallet.Account.Closing.{
  length-close_below, closed_at, closed_at-append, closed_at-close_below, lookup-close_below,
  close_below-closed_at,
}
use assertoor.Prelude.{
  ℕ, ◌+◌, ◌≤◌, ◌<◌, ◌≡◌, refl, ◌∙◌, ◌⊎◌, inl, inr, Bool, true, false, not, ◌&&◌, ◌||◌, Option, none,
  some, List, [], ◌∷◌, ◌++◌, arith, ltb, leb, if◌then◌else◌, ltb→lt, ==_iff, Bool-cases, length,
  All, length-append, nat_key, string_key, lookup, insert, lookup-insert,
}
use assertoor.Wallet.Account.Calls.{
  Call, uses, builds, awaits, includes, receives, checks_stale, resyncs, loads, apply_call,
  apply_calls,
}

-- Somebody waits for the nonce `n` on the status `id`: it is the status of an unconfirmed nonce, or
-- it has been closed.
abbrev pub IsWatched : ℕ → ℕ → Wallet → Type 0
IsWatched n id w =
    (id < length w.statuses)
    × (((lookup n w.tx_nonce_chans ≡ some id) × (w.confirmed_nonce ≤ n))
        ⊎ (closed_at id w.statuses ≡ true))

pub build-same :
    (build_fn : ℕ → Option Tx) (signs : Tx → Bool) (w : Wallet)
    → let v = (build_transaction build_fn signs w).0 in
      (v.tx_nonce_chans ≡ w.tx_nonce_chans)
      × (v.statuses ≡ w.statuses)
      × (v.confirmed_nonce ≡ w.confirmed_nonce)
unfolding build_transaction account_built
build-same build_fn signs w = ground arith

closed-IsWatched :
    (bound n id : ℕ) (mark : ℕ → NonceStatus → NonceStatus) (w : Wallet)
    → IsWatched n id w
    → let closed = close_below bound mark w.tx_nonce_chans w.statuses in
      (id < length closed.1)
      × (((lookup n closed.0 ≡ some id) × (w.confirmed_nonce ≤ n) × (bound ≤ n))
          ⊎ (closed_at id closed.1 ≡ true))
closed-IsWatched bound n id mark w (inside, v) =
    let size = length-close_below bound mark w.tx_nonce_chans w.statuses in
    (
      omega (arith, size),
      elim v [
        | inr shut ↦ inr (closed_at-close_below bound id mark w.tx_nonce_chans w.statuses shut)
        | inl (here, wanted) ↦ elim (Bool-cases (ltb n bound)) [
          | inl lower ↦ inr (
              close_below-closed_at bound n id mark w.tx_nonce_chans w.statuses
                (ltb→lt n bound lower) here inside)
          | inr higher ↦
              let up : bound ≤ n = ground arith in
              inl
                (lookup-close_below bound n mark w.tx_nonce_chans w.statuses up ∙ here, wanted, up)
        ]
      ],
    )

-- An inclusion does nothing, or closes what its nonce confirms.
pub inclusion-cases :
    (number : ℕ) (tx : Tx) (receipt : Option Receipt) (w : Wallet)
    → let v = process_transaction_inclusion number tx receipt w in
      let closed =
        close_below (tx.nonce + 1) (set_receipt tx.nonce receipt) w.tx_nonce_chans w.statuses in
      (v ≡ w)
      ⊎ ((v.tx_nonce_chans ≡ closed.0)
          × (v.statuses ≡ closed.1)
          × (v.confirmed_nonce ≡ tx.nonce + 1)
          × (w.confirmed_nonce ≤ tx.nonce))
unfolding process_transaction_inclusion confirm_nonce
inclusion-cases number tx none w = ground arith
inclusion-cases number tx (some r) w = ground arith

pub stale-cases :
    (number : ℕ) (last : Option ℕ) (w : Wallet)
    → let v = process_stale_confirmations number last w in
      ((v.tx_nonce_chans ≡ w.tx_nonce_chans)
        × (v.statuses ≡ w.statuses)
        × (v.confirmed_nonce ≡ w.confirmed_nonce))
      ⊎ ((n : ℕ) × (last ≡ some n)
          × (v.tx_nonce_chans ≡ (close_below n no_mark w.tx_nonce_chans w.statuses).0)
          × (v.statuses ≡ (close_below n no_mark w.tx_nonce_chans w.statuses).1)
          × (v.confirmed_nonce ≡ w.confirmed_nonce))
unfolding process_stale_confirmations
stale-cases number none w = inl (ground arith)
stale-cases number (some n) w =
    elim (Bool-cases
      (not w.is_ready || not (has_chans w && ltb (w.last_confirmation + 10) number))) [
        | inl skipped ↦ inl (simp skipped (refl, refl, refl))
        | inr tried ↦ elim (Bool-cases (leb n w.confirmed_nonce)) [
          | inl nothing ↦ inl (simp (tried, nothing) (refl, refl, refl))
          | inr stale ↦ inr (n, refl, simp (tried, stale), simp (tried, stale), simp (tried, stale))
        ]
      ]

same-IsWatched :
    (n id : ℕ) (v w : Wallet)
    → v.tx_nonce_chans ≡ w.tx_nonce_chans
    → v.statuses ≡ w.statuses
    → v.confirmed_nonce ≡ w.confirmed_nonce
    → IsWatched n id w
    → IsWatched n id v
same-IsWatched n id v w e f g h = rw (e, f, g) h

inclusion-IsWatched :
    (n id number : ℕ) (tx : Tx) (receipt : Option Receipt) (w : Wallet)
    → IsWatched n id w
    → IsWatched n id (process_transaction_inclusion number tx receipt w)
inclusion-IsWatched n id number tx receipt w h = elim (inclusion-cases number tx receipt w) [
  | inl same ↦ rw same h
  | inr (chans, sts, confirmed, low) ↦
      let (inside, v) = closed-IsWatched (tx.nonce + 1) n id (set_receipt tx.nonce receipt) w h in
      rw (chans, sts, confirmed)
        (inside, elim v [ inr shut ↦ inr shut | inl (here, wanted, up) ↦ inl (here, up) ])
]

stale-IsWatched :
    (n id number : ℕ) (last : Option ℕ) (w : Wallet)
    → IsWatched n id w
    → IsWatched n id (process_stale_confirmations number last w)
stale-IsWatched n id number last w h = elim (stale-cases number last w) [
  | inl (chans, sts, confirmed) ↦
      same-IsWatched n id (process_stale_confirmations number last w) w chans sts confirmed h
  | inr (m, answer, chans, sts, confirmed) ↦
      let (inside, v) = closed-IsWatched m n id no_mark w h in
      rw (chans, sts, confirmed)
        (inside, elim v [ inr shut ↦ inr shut | inl (here, wanted, up) ↦ inl (here, wanted) ])
]

pub await-cases :
    (nonce : ℕ) (w : Wallet)
    → ((get_tx_nonce_chan nonce w).0 ≡ w)
      ⊎ ((lookup nonce w.tx_nonce_chans ≡ none)
          × ((get_tx_nonce_chan nonce w).0 ≡ record w {
            tx_nonce_chans = insert nonce (length w.statuses) w.tx_nonce_chans;
            statuses = w.statuses ++ record { receipt = none; closes = 0 } ∷ [];
          }))
unfolding get_tx_nonce_chan
await-cases nonce w = ground arith

await-IsWatched :
    (n id nonce : ℕ) (w : Wallet) → IsWatched n id w → IsWatched n id (get_tx_nonce_chan nonce w).0
unfolding get_tx_nonce_chan
await-IsWatched n id nonce w (inside, v) = elim (await-cases nonce w) [
  | inl same ↦ rw same (inside, v)
  | inr (missing, new) ↦
      let added : List NonceStatus = record { receipt = none; closes = 0 } ∷ [] in
      rw new (
        omega (arith, length-append w.statuses added),
        elim v [
          | inr shut ↦ inr (closed_at-append id w.statuses added shut)
          | inl (here, wanted) ↦ inl (
            ground (
              arith,
              lookup-insert nonce n (length w.statuses) w.tx_nonce_chans,
              here,
              missing,
              ==_iff nonce n,
            ),
            wanted,
          )
        ],
      )
]

-- The end of a synchronisation that finds the nonce `n` confirmed.
abbrev pub loads_past : ℕ → Call → Bool
loads_past n (loads nonce balance) = ltb n nonce
loads_past n (uses increase) = false
loads_past n (builds build_fn signs) = false
loads_past n (awaits nonce) = false
loads_past n (includes number tx receipt) = false
loads_past n (receives tx) = false
loads_past n (checks_stale number last) = false
loads_past n resyncs = false

loads-IsWatched :
    (n id nonce balance : ℕ) (w : Wallet)
    → ltb n nonce ≡ false
    → IsWatched n id w
    → IsWatched n id (if w.is_syncing then finish_load nonce balance w else w)
unfolding finish_load
loads-IsWatched n id nonce balance w low h = elim (Bool-cases w.is_syncing) [
  | inl runs ↦
      rw runs
        (h.0, (elim h.1 [ inr shut ↦ inr shut | inl (found, wanted) ↦ inl (found, ground arith) ]))
  | inr quiet ↦ rw quiet h
]

apply_call-IsWatched :
    (n id : ℕ) (c : Call) (w : Wallet)
    → loads_past n c ≡ false
    → IsWatched n id w
    → IsWatched n id (apply_call c w)
unfolding apply_call use_next_nonce process_transaction_receival load_state
apply_call-IsWatched n id (uses true) w low h = h
apply_call-IsWatched n id (uses false) w low h = h
apply_call-IsWatched n id (builds build_fn signs) w low h =
    let (chans, sts, confirmed) = build-same build_fn signs w in
    same-IsWatched n id (build_transaction build_fn signs w).0 w chans sts confirmed h
apply_call-IsWatched n id (awaits nonce) w low h = await-IsWatched n id nonce w h
apply_call-IsWatched n id (includes number tx receipt) w low h =
    inclusion-IsWatched n id number tx receipt w h
apply_call-IsWatched n id (receives tx) w low h = elim (Bool-cases w.is_ready) [
  | inl ready ↦ simp ready h
  | inr waits ↦ simp waits h
]
apply_call-IsWatched n id (checks_stale number last) w low h = stale-IsWatched n id number last w h
apply_call-IsWatched n id resyncs w low h = elim (Bool-cases w.is_syncing) [
  | inl runs ↦ rw runs h
  | inr quiet ↦ rw quiet h
]
apply_call-IsWatched n id (loads nonce balance) w low h = loads-IsWatched n id nonce balance w low h

pub apply_calls-IsWatched :
    (n id : ℕ) (cs : List Call) (w : Wallet)
    → All (λ c. loads_past n c ≡ false) cs
    → IsWatched n id w
    → IsWatched n id (apply_calls cs w)
unfolding apply_calls
apply_calls-IsWatched n id [] w low h = h
apply_calls-IsWatched n id (c ∷ cs) w (low, lows) h =
    apply_calls-IsWatched n id cs (apply_call c w) lows (apply_call-IsWatched n id c w low h)
