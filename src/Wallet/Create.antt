-- ===== src/Wallet/Create.antt =====
-- src/economy/Wallet/TransactionModel.ts: `createCanonicalTransaction` and its validation. The
-- two SHA-256 hashes of canonical JSON are parameters: nothing here depends on their values.
use synpeer.Prelude.{
  ℕ, ◌<◌, ◌≡◌, ◌≢◌, String, Option, none, some, [], ◌∷◌, Bool, true, false, not, ◌||◌, ◌==◌, eq_iff,
  leb, if◌then◌else◌, arith,
}
use synpeer.Prelude.Int.{pos, ltb_ℤ, pos_part, neg_part}
use synpeer.Wallet.Transaction.{
  TransactionType, JsNumber, finite, nan, infinity, neg_infinity, Payload, Transaction, created,
}
use synpeer.Wallet.StateMachine.Runs.{IsFresh}
use synpeer.Wallet.StateMachine.Shape.{IsShaped}

pub record CreateInput : Type 0 where
  pub type : TransactionType
  pub sender_id : String
  pub recipient_id : String
  pub amount : JsNumber
  pub fee : Option JsNumber
  pub description : Option String
  pub created_at : ℕ
  pub expires_at : ℕ
  pub nonce : String
  pub sequence : ℕ

-- What the id is computed from.
pub record IdInput : Type 0 where
  pub type : TransactionType
  pub sender_id : String
  pub recipient_id : String
  pub created_at : ℕ
  pub expires_at : ℕ
  pub nonce : String
  pub sequence : ℕ
  pub payload_hash : String

pub data CreateError : Type 0 where
  bad_amount bad_fee missing_party same_party bad_expiration : CreateError

pub data CreateResult : Type 0 where
  ok : Transaction → CreateResult
  err : CreateError → CreateResult

abbrev pub is_finite : JsNumber → Bool
is_finite (finite z) = true
is_finite nan = false
is_finite infinity = false
is_finite neg_infinity = false

-- `value <= 0`; every comparison with NaN is false.
abbrev pub le_zero : JsNumber → Bool
le_zero (finite z) = not (ltb_ℤ (pos 0) z)
le_zero nan = false
le_zero infinity = false
le_zero neg_infinity = true

-- `value < 0`
abbrev pub lt_zero : JsNumber → Bool
lt_zero (finite z) = ltb_ℤ z (pos 0)
lt_zero nan = false
lt_zero infinity = false
lt_zero neg_infinity = true

-- `input.fee ?? 0`
abbrev pub fee_or_zero : Option JsNumber → JsNumber
fee_or_zero none = finite (pos 0)
fee_or_zero (some f) = f

-- The check that throws, if one does.
validate : CreateInput → Option CreateError
validate i =
    if le_zero i.amount || not (is_finite i.amount)
    then some bad_amount
    else if lt_zero (fee_or_zero i.fee) || not (is_finite (fee_or_zero i.fee))
    then some bad_fee
    else if i.sender_id == "" || i.recipient_id == ""
    then some missing_party
    else if i.sender_id == i.recipient_id
    then some same_party
    else if leb i.expires_at i.created_at
    then some bad_expiration
    else none

abbrev pub IsPositive : JsNumber → Type 0
IsPositive (finite z) = 0 < pos_part z
IsPositive _ = ⊥

abbrev pub IsFee : JsNumber → Type 0
IsFee (finite z) = neg_part z ≡ 0
IsFee _ = ⊥

-- What the validation is there for, read off the numbers themselves.
abbrev pub IsValidInput : CreateInput → Type 0
IsValidInput i =
    IsPositive i.amount
    × IsFee (fee_or_zero i.fee)
    × (i.sender_id ≢ "")
    × (i.recipient_id ≢ "")
    × (i.sender_id ≢ i.recipient_id)
    × (i.created_at < i.expires_at)

module _ (compute_payload_hash : Payload → String) (compute_transaction_id : IdInput → String) where
  build : CreateInput → Transaction
  build i =
      let payload : Payload = record {
        amount = i.amount;
        fee = fee_or_zero i.fee;
        description = i.description;
      } in
      let hash = compute_payload_hash payload in
      record {
        id = compute_transaction_id (record {
          type = i.type;
          sender_id = i.sender_id;
          recipient_id = i.recipient_id;
          created_at = i.created_at;
          expires_at = i.expires_at;
          nonce = i.nonce;
          sequence = i.sequence;
          payload_hash = hash;
        });
        type = i.type;
        sender_id = i.sender_id;
        recipient_id = i.recipient_id;
        created_at = i.created_at;
        expires_at = i.expires_at;
        nonce = i.nonce;
        sequence = i.sequence;
        payload = payload;
        payload_hash = hash;
        history = record { status = created; at = i.created_at; reason = none } ∷ [];
        status = created;
        signature = none;
        public_key = none;
        signed_at = none;
        submitted_at = none;
        confirmed_at = none;
        confirmation_reference = none;
        failure = none;
        expired_at = none;
      }

  unfoldable pub create : CreateInput → CreateResult
  unfolding validate build
  create i = elim (validate i) [ none ↦ ok (build i) | some e ↦ err e ]

  -- What createCanonicalTransaction returns comes from an input with a positive amount, a fee
  -- that is not negative, two different non-empty parties and an expiry after the creation, and
  -- is fresh and well shaped.
  pub create-ok :
      (i : CreateInput) {t : Transaction}
      → create i ≡ ok t
      → IsValidInput i × IsFresh t × IsShaped t × (t.created_at < t.expires_at)
  unfolding create
  create-ok i h =
      ground
        (arith, eq_iff i.sender_id "", eq_iff i.recipient_id "", eq_iff i.sender_id i.recipient_id)

  pub create_accepts : (i : CreateInput) → IsValidInput i → (t : Transaction) × (create i ≡ ok t)
  unfolding create
  create_accepts i h = (
    build i,
    ground
        (arith, eq_iff i.sender_id "", eq_iff i.recipient_id "", eq_iff i.sender_id i.recipient_id),
  )
