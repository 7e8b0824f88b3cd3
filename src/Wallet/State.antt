-- ===== src/Wallet/State.antt =====
-- src/economy/Wallet/WalletService.ts: the state of the service, and how `createWallet` restores
-- the balance and the nonce from the stored canonical transactions.
use synpeer.Prelude.{ℕ, max, String, Option, List, [], ◌∷◌, Bool, true, false, ◌==◌, if◌then◌else◌}
use synpeer.Prelude.Int.{ℤ, pos, ◌+ℤ◌, ◌-ℤ◌, ltb_ℤ}
use synpeer.Dict.{Dict, values}
use synpeer.Wallet.Transaction.{
  Status, created, signed, pending, confirmed, failed, expired, TransactionType, JsNumber, finite,
  nan, infinity, neg_infinity, Transaction,
}
use synpeer.Wallet.ReplayProtector.{Protector}

pub data LegacyStatus : Type 0 where
  legacy_pending legacy_confirmed legacy_failed : LegacyStatus

pub record LegacyTransaction : Type 0 where
  pub id : String
  pub type : TransactionType
  pub from : String
  pub to : String
  pub amount : ℤ
  pub fee : ℤ
  pub timestamp : ℕ
  pub status : LegacyStatus
  pub description : Option String
  pub signature : Option String

pub record Wallet : Type 0 where
  pub address : String
  pub peer_id : String
  pub balance : ℤ
  pub nonce : ℕ
  pub created_at : ℕ
  pub updated_at : ℕ

pub record Service : Type 0 where
  pub wallet : Option Wallet
  pub transactions : List LegacyTransaction
  pub canonical : Dict Transaction
  pub replay : Protector

pub data Outcome {ℓ} (A : Type ℓ) : Type ℓ where
  returned : A → Outcome A
  threw : Outcome A

-- A stored amount; validation has refused the other numbers.
abbrev pub amount_of : JsNumber → ℤ
amount_of (finite z) = z
amount_of nan = pos 0
amount_of infinity = pos 0
amount_of neg_infinity = pos 0

abbrev pub is_confirmed : Status → Bool
is_confirmed confirmed = true
is_confirmed created = false
is_confirmed signed = false
is_confirmed pending = false
is_confirmed failed = false
is_confirmed expired = false

-- One round of the loop of `calculateRestoredBalance`.
unfoldable pub restore_one : String → ℤ → Transaction → ℤ
restore_one address balance t =
    let credited =
      if t.recipient_id == address then balance +ℤ amount_of t.payload.amount else balance in
    if is_confirmed t.status
    then (if t.sender_id == address
        then credited -ℤ (amount_of t.payload.amount +ℤ amount_of t.payload.fee)
        else credited)
    else balance

unfoldable pub restore_all : String → ℤ → List Transaction → ℤ
restore_all address balance [] = balance
restore_all address balance (t ∷ ts) = restore_all address (restore_one address balance t) ts

-- `Math.max(0, balance)`
abbrev pub max_zero : ℤ → ℤ
max_zero z = if ltb_ℤ z (pos 0) then pos 0 else z

unfoldable pub restored_balance : String → Dict Transaction → ℤ
unfolding restore_all
restored_balance address d = max_zero (restore_all address (pos 0) (values d))

unfoldable pub restored_nonce : List Transaction → ℕ → ℕ
restored_nonce [] most = most
restored_nonce (t ∷ ts) most = restored_nonce ts (max most t.sequence)

abbrev pub to_legacy_status : Status → LegacyStatus
to_legacy_status created = legacy_pending
to_legacy_status signed = legacy_pending
to_legacy_status pending = legacy_pending
to_legacy_status confirmed = legacy_confirmed
to_legacy_status failed = legacy_failed
to_legacy_status expired = legacy_failed
