-- ===== src/Wallet/Account/Once.antt =====
-- The channel of a nonce is closed once at most (wallet/wallet.go).
use mathlib.Core.Path.{subst}
use assertoor.Wallet.Account.{
  Receipt, NonceStatus, Wallet, new_wallet, load_state, finish_load, use_next_nonce,
  get_tx_nonce_chan, close_below, set_receipt, no_mark, process_transaction_receival,
}
use assertoor.Wallet.Account.Closing.{closed_at, length-close_below, one_name}
use assertoor.Wallet.Account.Calls.{
  Call, uses, builds, awaits, includes, receives, checks_stale, resyncs, loads, apply_call,
  apply_calls,
}
use assertoor.Wallet.Account.Confirmed.{
  loads_past, inclusion-cases, stale-cases, await-cases, build-same, IsWatched,
  apply_calls-IsWatched,
}
use assertoor.Wallet.Account.Counting.{
  count, closes_of, closes_of-append, IsNamed, count-close_below, IsNamed-close_below,
  IsNamed-insert, count-insert, count-outside, closes_of-outside, lookup-IsNamed,
}
use assertoor.Prelude.{
  ℕ, suc, ◌+◌, ◌≤◌, ◌≡◌, refl, sym, ◌⊎◌, inl, inr, true, false, Option, none, some, List, [], ◌∷◌,
  ◌++◌, arith, ==_iff, Bool-cases, length, All, length-append, nat_key, string_key, lookup, insert,
  lookup-insert,
}

-- The invariant: a status that was made is waited for, or was closed, once at most.
abbrev IsOnce : List (ℕ × ℕ) → List NonceStatus → Type 0
IsOnce chans sts = IsNamed (length sts) chans × ((id : ℕ) → count id chans + closes_of id sts ≤ 1)

close_below-IsOnce :
    (bound : ℕ) (mark : ℕ → NonceStatus → NonceStatus) (chans : List (ℕ × ℕ))
    (sts : List NonceStatus)
    → ((m : ℕ) (st : NonceStatus) → (mark m st).closes ≡ st.closes)
    → IsOnce chans sts
    → IsOnce (close_below bound mark chans sts).0 (close_below bound mark chans sts).1
close_below-IsOnce bound mark chans sts keeps (named, once) = (
  subst (λ x. IsNamed x (close_below bound mark chans sts).0)
      (sym (length-close_below bound mark chans sts))
      (IsNamed-close_below bound (length sts) mark chans sts named),
  λ id. omega (arith, once id, count-close_below bound id mark chans sts named keeps),
)

set_receipt-keeps :
    (nonce : ℕ) (receipt : Option Receipt) (m : ℕ) (st : NonceStatus)
    → (set_receipt nonce receipt m st).closes ≡ st.closes
set_receipt-keeps nonce receipt m st = ground arith

await-IsOnce :
    (nonce : ℕ) (w : Wallet)
    → IsOnce w.tx_nonce_chans w.statuses
    → let v = (get_tx_nonce_chan nonce w).0 in IsOnce v.tx_nonce_chans v.statuses
await-IsOnce nonce w (named, once) = elim (await-cases nonce w) [
  | inl same ↦ rw same (named, once)
  | inr (missing, new) ↦
      let added : List NonceStatus = record { receipt = none; closes = 0 } ∷ [] in
      let longer : length (w.statuses ++ added) ≡ suc (length w.statuses) =
        omega (arith, length-append w.statuses added) in
      rw new (
        subst (λ x. IsNamed x (insert nonce (length w.statuses) w.tx_nonce_chans)) (sym longer)
            (IsNamed-insert nonce (length w.statuses) w.tx_nonce_chans named),
        λ id. ground (
          arith,
          once id,
          count-insert nonce id (length w.statuses) w.tx_nonce_chans missing,
          closes_of-append id w.statuses,
          count-outside id (length w.statuses) w.tx_nonce_chans named,
          closes_of-outside id w.statuses,
        ),
      )
]

apply_call-IsOnce :
    (c : Call) (w : Wallet)
    → IsOnce w.tx_nonce_chans w.statuses
    → IsOnce (apply_call c w).tx_nonce_chans (apply_call c w).statuses
unfolding apply_call use_next_nonce process_transaction_receival load_state finish_load
apply_call-IsOnce (uses true) w h = h
apply_call-IsOnce (uses false) w h = h
apply_call-IsOnce (builds build_fn signs) w h =
    let (chans, sts, confirmed) = build-same build_fn signs w in rw (chans, sts) h
apply_call-IsOnce (awaits nonce) w h = await-IsOnce nonce w h
apply_call-IsOnce (includes number tx receipt) w h = elim (inclusion-cases number tx receipt w) [
  | inl same ↦ rw same h
  | inr (chans, sts, confirmed, low) ↦
      rw (chans, sts)
        (close_below-IsOnce (tx.nonce + 1) (set_receipt tx.nonce receipt) w.tx_nonce_chans
          w.statuses (set_receipt-keeps tx.nonce receipt) h)
]
apply_call-IsOnce (receives tx) w h = elim (Bool-cases w.is_ready) [
  | inl ready ↦ simp ready h
  | inr waits ↦ simp waits h
]
apply_call-IsOnce (checks_stale number last) w h = elim (stale-cases number last w) [
  | inl (chans, sts, confirmed) ↦ rw (chans, sts) h
  | inr (m, answer, chans, sts, confirmed) ↦
      rw (chans, sts) (close_below-IsOnce m no_mark w.tx_nonce_chans w.statuses (λ k st. refl) h)
]
apply_call-IsOnce resyncs w h = elim (Bool-cases w.is_syncing) [
  | inl runs ↦ rw runs h
  | inr quiet ↦ rw quiet h
]
apply_call-IsOnce (loads nonce balance) w h = elim (Bool-cases w.is_syncing) [
  | inl runs ↦ rw runs h
  | inr quiet ↦ rw quiet h
]

apply_calls-IsOnce :
    (cs : List Call) (w : Wallet)
    → IsOnce w.tx_nonce_chans w.statuses
    → IsOnce (apply_calls cs w).tx_nonce_chans (apply_calls cs w).statuses
unfolding apply_calls
apply_calls-IsOnce [] w h = h
apply_calls-IsOnce (c ∷ cs) w h = apply_calls-IsOnce cs (apply_call c w) (apply_call-IsOnce c w h)

start-IsOnce :
    (nonce balance : ℕ)
    → let w = finish_load nonce balance new_wallet in IsOnce w.tx_nonce_chans w.statuses
unfolding new_wallet finish_load
start-IsOnce nonce balance = (tt, λ id. omega arith)

result-cases :
    (n id : ℕ) (w : Wallet)
    → (get_tx_nonce_chan n w).1 ≡ some id
    → (w.confirmed_nonce ≤ n)
      × (((lookup n w.tx_nonce_chans ≡ some id) × ((get_tx_nonce_chan n w).0 ≡ w))
          ⊎ ((length w.statuses ≡ id)
              × ((get_tx_nonce_chan n w).0 ≡ record w {
                tx_nonce_chans = insert n (length w.statuses) w.tx_nonce_chans;
                statuses = w.statuses ++ record { receipt = none; closes = 0 } ∷ [];
              })))
unfolding get_tx_nonce_chan
result-cases n id w e = ground (arith, one_name (length w.statuses) id)

await-result :
    (n id : ℕ) (w : Wallet)
    → IsNamed (length w.statuses) w.tx_nonce_chans
    → (get_tx_nonce_chan n w).1 ≡ some id
    → IsWatched n id (get_tx_nonce_chan n w).0
await-result n id w named e =
    let (wanted, found) = result-cases n id w e in
    elim found [
      | inl (here, same) ↦
          rw same (
            lookup-IsNamed n id (length w.statuses) w.tx_nonce_chans named here,
            inl (here, wanted),
          )
      | inr (size, new) ↦
          let added : List NonceStatus = record { receipt = none; closes = 0 } ∷ [] in
          let at_key : lookup n (insert n (length w.statuses) w.tx_nonce_chans) ≡ some id =
            ground (arith, lookup-insert n n (length w.statuses) w.tx_nonce_chans, ==_iff n n) in
          rw new (omega (arith, size, length-append w.statuses added), inl (at_key, wanted))
    ]

-- From its first synchronisation on, whatever calls follow, one at a time and the starts and ends of
-- further synchronisations among them, no channel of the wallet is closed twice, which would panic.
pub apply_calls-closes_once :
    (nonce balance id : ℕ) (cs : List Call)
    → closes_of id (apply_calls cs (finish_load nonce balance new_wallet)).statuses ≤ 1
apply_calls-closes_once nonce balance id cs =
    let (named, once) =
      apply_calls-IsOnce cs (finish_load nonce balance new_wallet) (start-IsOnce nonce balance) in
    omega (arith, once id)

-- Who gets a channel to wait on for the nonce `n`, after any calls that follow the first
-- synchronisation: after any further calls, of which no end of a synchronisation finds the nonce
-- `n` confirmed, that channel is closed, or the nonce is not confirmed and its channel is still the
-- one the wallet will close for it. Calls are made one at a time.
pub await-IsWoken :
    (nonce balance n id : ℕ) (before after : List Call)
    → All (λ c. loads_past n c ≡ false) after
    → (get_tx_nonce_chan n (apply_calls before (finish_load nonce balance new_wallet))).1 ≡ some id
    → let v =
        apply_calls after
          (get_tx_nonce_chan n (apply_calls before (finish_load nonce balance new_wallet))).0 in
      ((lookup n v.tx_nonce_chans ≡ some id) × (v.confirmed_nonce ≤ n))
      ⊎ (closed_at id v.statuses ≡ true)
await-IsWoken nonce balance n id before after low e =
    let w = apply_calls before (finish_load nonce balance new_wallet) in
    let (named, once) =
      apply_calls-IsOnce before (finish_load nonce balance new_wallet)
        (start-IsOnce nonce balance) in
    let (inside, v) =
      apply_calls-IsWatched n id after (get_tx_nonce_chan n w).0 low
        (await-result n id w named e) in
    v
