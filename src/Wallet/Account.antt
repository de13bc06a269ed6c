-- ===== src/Wallet/Account.antt =====
-- One wallet (wallet/wallet.go). The status of a nonce is an object shared by the map of the wallet
-- and by those who wait for it; it is named by its place in the list of all that were made.
-- Addresses and keys are left out, as are the calls of RPC clients, whose answers are arguments; a
-- balance that is nil before the first synchronisation is 0 here, and is not read until then. Nonces
-- stay below 2^64 - 1, as in the protocol.
pub mod Closing
pub mod Counting
pub mod Calls
pub mod Confirmed
pub mod Balance
pub mod Once
use assertoor.Prelude.Int.{ℤ, pos, ◌+ℤ◌, ◌-ℤ◌}
use assertoor.Prelude.{
  ℕ, zero, suc, ◌+◌, ◌*◌, Bool, true, false, not, ◌&&◌, ◌||◌, Option, none, some, List, [], ◌∷◌,
  ◌++◌, arith, ltb, leb, ◌==◌, if◌then◌else◌, length, nat_key, string_key, lookup, insert,
}

pub record Tx : Type 0 where
  pub hash : ℕ
  pub nonce : ℕ
  pub value : ℕ

pub record Receipt : Type 0 where
  pub tx_hash : ℕ
  pub effective_gas_price : ℕ
  pub gas_used : ℕ

-- `closes` counts the calls of `close` on the channel; a second one would panic.
pub record NonceStatus : Type 0 where
  pub receipt : Option Receipt
  pub closes : ℕ

pub record Wallet : Type 0 where
  pub is_ready : Bool
  pub is_syncing : Bool
  pub pending_nonce : ℕ
  pub pending_balance : ℤ
  pub confirmed_nonce : ℕ
  pub confirmed_balance : ℤ
  pub last_confirmation : ℕ
  pub tx_nonce_chans : List (ℕ × ℕ)
  pub statuses : List NonceStatus

-- A new wallet, whose first synchronisation is on its way.
unfoldable pub new_wallet : Wallet
new_wallet = record {
  is_ready = false;
  is_syncing = true;
  pending_nonce = 0;
  pending_balance = pos 0;
  confirmed_nonce = 0;
  confirmed_balance = pos 0;
  last_confirmation = 0;
  tx_nonce_chans = [];
  statuses = [];
}

-- `loadState` starts no second synchronisation.
unfoldable pub load_state : Wallet → Wallet
load_state w = if w.is_syncing then w else record w { is_syncing = true }

-- The end of the synchronisation, with the nonce and the balance of the account.
unfoldable pub finish_load : (nonce balance : ℕ) → Wallet → Wallet
finish_load nonce balance w = record w {
  pending_nonce = nonce;
  confirmed_nonce = nonce;
  pending_balance = pos balance;
  confirmed_balance = pos balance;
  is_ready = true;
  is_syncing = false;
}

unfoldable pub use_next_nonce : (increase : Bool) → Wallet → Wallet × ℕ
use_next_nonce increase w =
    (if increase then record w { pending_nonce = w.pending_nonce + 1 } else w, w.pending_nonce)

-- A transaction that was built and signed for the wallet.
unfoldable pub account_built : Tx → Wallet → Wallet
account_built tx w = record w {
  pending_nonce = if ltb w.pending_nonce (tx.nonce + 1) then tx.nonce + 1 else w.pending_nonce;
  pending_balance = w.pending_balance -ℤ pos tx.value;
}

-- `build_fn` may fail, and so may the signature.
unfoldable pub build_transaction :
    (build_fn : ℕ → Option Tx) → (signs : Tx → Bool) → Wallet → Wallet × Option Tx
unfolding account_built
build_transaction build_fn signs w = elim (build_fn w.pending_nonce) [
  | none ↦ (w, none)
  | some tx ↦ if signs tx then (account_built tx w, some tx) else (w, none)
]

-- The status to wait for, by its name; `none` for a nonce that is confirmed.
unfoldable pub get_tx_nonce_chan : ℕ → Wallet → Wallet × Option ℕ
get_tx_nonce_chan target w =
    if ltb target w.confirmed_nonce then (w, none) else (elim (lookup target w.tx_nonce_chans) [
      | some id ↦ (w, some id)
      | none ↦ (
        record w {
          tx_nonce_chans = insert target (length w.statuses) w.tx_nonce_chans;
          statuses = w.statuses ++ record { receipt = none; closes = 0 } ∷ [];
        },
        some (length w.statuses),
      )
    ])

abbrev pub update_status : ℕ → (NonceStatus → NonceStatus) → List NonceStatus → List NonceStatus
update_status id change [] = []
update_status zero change (st ∷ statuses) = change st ∷ statuses
update_status (suc id) change (st ∷ statuses) = st ∷ update_status id change statuses

-- `receipt` may be set before `close(channel)`.
abbrev pub close_marked : (ℕ → NonceStatus → NonceStatus) → ℕ → NonceStatus → NonceStatus
close_marked mark n st = let m = mark n st in record m { closes = m.closes + 1 }

-- The loops over the map: the entries below a nonce are closed and deleted. `mark` is what is done
-- to the status of a nonce before.
unfoldable pub close_below :
    (bound : ℕ)
    → (mark : ℕ → NonceStatus → NonceStatus) → List (ℕ × ℕ)
    → List NonceStatus
    → List (ℕ × ℕ) × List NonceStatus
close_below bound mark [] statuses = ([], statuses)
close_below bound mark ((n, id) ∷ chans) statuses =
    let closed = close_below bound mark chans (update_status id (close_marked mark n) statuses) in
    let kept = close_below bound mark chans statuses in
    if ltb n bound then closed else ((n, id) ∷ kept.0, kept.1)

abbrev pub fee : Receipt → ℕ
fee r = r.effective_gas_price * r.gas_used

abbrev account_receipt : Tx → Option Receipt → Wallet → Wallet
account_receipt tx none w = w
account_receipt tx (some r) w = record w {
  confirmed_balance = w.confirmed_balance -ℤ pos tx.value -ℤ pos (fee r);
  pending_balance = w.pending_balance -ℤ pos (fee r);
}

abbrev pub set_receipt : ℕ → Option Receipt → ℕ → NonceStatus → NonceStatus
set_receipt nonce receipt n st = if n == nonce then record st { receipt = receipt } else st

unfoldable pub confirm_nonce : ℕ → Wallet → Wallet
confirm_nonce nonce w =
    let w1 = record w { confirmed_nonce = nonce + 1 } in
    if ltb w.pending_nonce (nonce + 1)
    then record w1 { pending_nonce = nonce + 1; pending_balance = w.confirmed_balance }
    else w1

unfoldable pub process_transaction_inclusion :
    (block_number : ℕ) → Tx → Option Receipt → Wallet → Wallet
unfolding close_below confirm_nonce
process_transaction_inclusion block_number tx receipt w =
    let w1 = account_receipt tx receipt (record w { last_confirmation = block_number }) in
    let closed =
      close_below (tx.nonce + 1) (set_receipt tx.nonce receipt) w.tx_nonce_chans w.statuses in
    if not w.is_ready || ltb tx.nonce w.confirmed_nonce
    then w
    else confirm_nonce tx.nonce (record w1 { tx_nonce_chans = closed.0; statuses = closed.1 })

abbrev pub no_mark : ℕ → NonceStatus → NonceStatus
no_mark n st = st

abbrev pub has_chans : Wallet → Bool
has_chans w = ltb 0 (length w.tx_nonce_chans)

abbrev recover_stale : Option ℕ → Wallet → Wallet
recover_stale none w = w
recover_stale (some last_nonce) w =
    let closed = close_below last_nonce no_mark w.tx_nonce_chans w.statuses in
    if leb last_nonce w.confirmed_nonce
    then w
    else record w { tx_nonce_chans = closed.0; statuses = closed.1 }

-- `last_nonce` is the nonce of the account as a client knows it, if it answers.
unfoldable pub process_stale_confirmations : (block_number : ℕ) → Option ℕ → Wallet → Wallet
unfolding close_below
process_stale_confirmations block_number last_nonce w =
    if not w.is_ready || not (has_chans w && ltb (w.last_confirmation + 10) block_number)
    then w
    else recover_stale last_nonce (record w { last_confirmation = block_number })

unfoldable pub process_transaction_receival : Tx → Wallet → Wallet
process_transaction_receival tx w = if not w.is_ready then w else record w {
  pending_balance = w.pending_balance +ℤ pos tx.value;
  confirmed_balance = w.confirmed_balance +ℤ pos tx.value;
}

-- How waiting for a transaction ends once its status is closed: with a receipt or without one, or
-- it is left to `load_transaction_receipt`.
unfoldable pub awaited : Tx → NonceStatus → Option (Option Receipt)
awaited tx st = elim st.receipt [
  | none ↦ none
  | some r ↦ if r.tx_hash == tx.hash then some (some r) else some none
]
