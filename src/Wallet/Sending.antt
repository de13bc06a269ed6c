-- ===== src/Wallet/Sending.antt =====
-- How a wallet sends a transaction and loads its receipt (wallet/wallet.go). What a client answers
-- is a parameter.
pub mod Rotation
pub mod Receipts
use assertoor.Prelude.{
  ℕ, zero, suc, ◌+◌, ◌%◌, ◌^◌, Bool, true, false, Option, none, some, List, [], ◌∷◌, arith, ltb,
  ◌==◌, if◌then◌else◌, length, get_elem?, nat_key, string_key,
}

-- The clients that were asked, in their order, and the error that is left.
pub record Sent {ℓ κ} (C : Type ℓ) (E : Type κ) : Type (ℓ ⊔ κ) where
  pub asked : List C
  pub error : Option E

abbrev pub ask {ℓ κ} : {C : Type ℓ} → {E : Type κ} → C → Sent C E → Sent C E
ask c s = record s { asked = c ∷ s.asked }

-- How loading a receipt ends: `fuel_out` is the model's own.
pub data Loading {ℓ} (R : Type ℓ) : Type ℓ where
  loaded : (receipt : Option R) → (attempts : ℕ) → Loading R
  panics fuel_out : Loading R

-- `Clients[(i+offset)%uint64(len(Clients))]`.
unfoldable pub client_at {ℓ} : {C : Type ℓ} → List C → (offset i : ℕ) → Option C
client_at clients offset i = get_elem? clients ((i + offset) % 2 ^ 64 % length clients)

module _ {ℓ κ} {C : Type ℓ} {E : Type κ} where
  -- The loop over the clients from `i` on, of which `left` are left.
  unfoldable pub send_loop : List C → (C → Option E) → (offset left i : ℕ) → Option E → Sent C E
  send_loop clients send offset zero i err = record { asked = []; error = err }
  send_loop clients send offset (suc left) i err = elim (client_at clients offset i) [
    | none ↦ record { asked = []; error = err }
    | some c ↦ elim (send c) [
      | none ↦ record { asked = c ∷ []; error = none }
      | some e ↦ ask c (send_loop clients send offset left (i + 1) (some e))
    ]
  ]

  unfoldable pub send_transaction : List C → (offset : ℕ) → (C → Option E) → Sent C E
  unfolding send_loop
  send_transaction clients offset send = send_loop clients send offset (length clients) 0 none

  -- The rounds from `i` on, until one finds the transaction confirmed. What a client answers depends
  -- on the round.
  unfoldable pub rebroadcast :
      List C
      → (offset : ℕ) → (confirmed : ℕ → Bool) → (send : ℕ → C → Option E) → (left i : ℕ)
      → List (Sent C E)
  rebroadcast clients offset confirmed send zero i = []
  rebroadcast clients offset confirmed send (suc left) i =
      let rest = rebroadcast clients offset confirmed send left (i + 1) in
      if confirmed i
      then []
      else send_loop clients (send i) ((i + offset + 1) % 2 ^ 64) (length clients) 0 none ∷ rest

-- The clients to ask in one attempt: those that have seen the block, or else the ready ones.
abbrev pub clients_for {ℓ} : {C : Type ℓ} → (seen ready : List C) → List C
clients_for seen ready = if length seen == 0 then ready else seen

module _ {ℓ κ} {C : Type ℓ} {R : Type κ} where
  -- One attempt asks one client; `none` when there is none to ask.
  unfoldable pub attempt :
      (seen : ℕ → List C) → (ready : List C) → (fetch : ℕ → C → Option R) → ℕ → Option (Option R)
  attempt seen ready fetch retry =
      let clients = clients_for (seen retry) ready in
      elim (get_elem? clients (retry % length clients)) [
        | none ↦ none
        | some c ↦ some (fetch retry c)
      ]

  unfoldable pub load_transaction_receipt :
      (seen : ℕ → List C)
      → (ready : List C) → (fetch : ℕ → C → Option R) → (fuel retry : ℕ) → Loading R
  load_transaction_receipt seen ready fetch zero retry = fuel_out
  load_transaction_receipt seen ready fetch (suc fuel) retry =
      elim (attempt seen ready fetch retry) [
        | none ↦ panics
        | some (some r) ↦ loaded (some r) (retry + 1)
        | some none ↦ elim (ltb retry 5) [
          | true ↦ load_transaction_receipt seen ready fetch fuel (retry + 1)
          | false ↦ loaded none (retry + 1)
        ]
      ]
