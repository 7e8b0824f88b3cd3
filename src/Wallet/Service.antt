-- ===== src/Wallet/Service.antt =====
-- src/economy/Wallet/WalletService.ts. A method mutates the service and returns, or throws; what
-- it had changed before a throw stays changed. Amounts are integers: fractions are not modelled.
-- SHA-256, the signer and the database are parameters; the events it emits are left out.
-- The calls follow each other: two calls that overlap at an `await` are not modelled.
pub mod Terms
pub mod Opening
pub mod Operations
pub mod Faults
pub mod Restart
pub mod Consistency
use synpeer.Prelude.{
  ℕ, zero, suc, ◌+◌, ◌*◌, max, String, Option, none, some, List, [], ◌∷◌, ◌++◌, Bool, true, false,
  not, ◌==◌, ◌||◌, if◌then◌else◌, ◌≡◌,
}
use synpeer.Prelude.Int.{ℤ, pos, ◌+ℤ◌, ◌-ℤ◌, ltb_ℤ}
use Prim.Native.String.{◌++◌ as string_append}
use synpeer.Dict.{Dict, get, put, values}
use synpeer.Wallet.Transaction.{
  Status, created, signed, pending, confirmed, failed, expired, TransactionType,
  transfer as transfer_type, JsNumber, finite, nan, infinity, neg_infinity, Payload, HistoryEntry,
  Failure, Transaction,
}
use synpeer.Wallet.State.{
  LegacyTransaction, legacy_confirmed, Wallet, Service, Outcome, returned, threw, is_confirmed,
}
use synpeer.Wallet.Create.{CreateInput, IdInput, CreateResult, ok, err, create}
use synpeer.Wallet.StateMachine.{
  Clock, later, TransitionResult, applied, refused, thrown, sign, mark_pending, confirm,
}
use synpeer.Wallet.ReplayProtector.{Protector, ReplayCheck, accepted, check, admit}

abbrev pub one_hour : ℕ
one_hour = 60 * 60 * 1000

-- What the service calls and this model leaves open.
pub record Host : Type 0 where
  pub generate_nonce : String → ℕ → String
  pub compute_payload_hash : Payload → String
  pub compute_transaction_id : IdInput → String
  -- The signature and public key of a transaction, or a signer that throws.
  pub signature_of : Transaction → Option (String × Option String)
  -- The first 40 characters of the SHA-256 of a text, in hexadecimal.
  pub digest_start : String → String
  -- Whether the repository, if there is one, saves it.
  pub saves : Transaction → Bool

infixl 5 ◌>>=◌
abbrev pub ◌>>=◌ {ℓ κ} : {A : Type ℓ} {B : Type κ} → Option A → (A → Option B) → Option B
none >>= f = none
some a >>= f = f a

abbrev pub made : CreateResult → Option Transaction
made (ok t) = some t
made (err e) = none

-- `if (!result.applied || result.transaction.status !== 'signed') throw`
abbrev pub as_signed : TransitionResult → Option Transaction
as_signed (applied s t) = elim t.status [ signed ↦ some t | _ ↦ none ]
as_signed (refused r t) = none
as_signed thrown = none

abbrev pub as_pending : TransitionResult → Option Transaction
as_pending (applied s t) = elim t.status [ pending ↦ some t | _ ↦ none ]
as_pending (refused r t) = none
as_pending thrown = none

-- `if (!confirmResult.applied) throw`: the status is not looked at.
abbrev pub as_applied : TransitionResult → Option Transaction
as_applied (applied s t) = some t
as_applied (refused r t) = none
as_applied thrown = none

pub record Transfer : Type 0 where
  pub from : String
  pub to : String
  pub amount : ℤ
  pub fee : ℤ
  pub type : TransactionType
  pub description : Option String

-- The `createCanonicalTransaction` call; reading 1 is `createdAt`.
unfoldable pub created_from : Host → ℕ → Transfer → Clock → CreateResult
created_from host sequence f now =
    create host.compute_payload_hash host.compute_transaction_id (record {
      type = f.type;
      sender_id = f.from;
      recipient_id = f.to;
      amount = finite f.amount;
      fee = some (finite f.fee);
      description = f.description;
      created_at = now 1;
      expires_at = now 1 + one_hour;
      nonce = host.generate_nonce f.from sequence;
      sequence = sequence;
    })

-- The first half of `createConfirmedCanonicalTransaction`: create, sign, submit, confirm. Each
-- transition takes three readings.
unfoldable pub confirmed_transaction : Host → ℕ → Transfer → Clock → Option Transaction
confirmed_transaction host sequence f now = do
  t ← made (created_from host sequence f now)
  s ← host.signature_of t
  u ← as_signed (sign t s.0 s.1 (later 2 now))
  v ← as_pending (mark_pending u (later 5 now))
  as_applied (confirm v (some (string_append "local:" t.id)) (later 8 now))

-- `canonical.status === 'confirmed' ? canonical.signature : undefined`
abbrev signature_if_confirmed : Transaction → Option String
signature_if_confirmed t = if is_confirmed t.status then t.signature else none

unfoldable pub legacy_of : Transfer → Transaction → LegacyTransaction
legacy_of f t = record {
  id = t.id;
  type = f.type;
  from = f.from;
  to = f.to;
  amount = f.amount;
  fee = f.fee;
  timestamp = t.created_at;
  status = legacy_confirmed;
  description = f.description;
  signature = signature_if_confirmed t;
}

-- The second half: the replay check, the two maps, the repository; then the legacy entry.
unfoldable pub book : Host → Service → Transfer → Transaction → Service × Outcome Bool
unfolding legacy_of
book host s f t = elim (check s.replay t) [
  | accepted ↦
      let s' = record s { canonical = put s.canonical t.id t; replay = (admit s.replay t).0 } in
      if host.saves t
      then (record s' { transactions = s.transactions ++ legacy_of f t ∷ [] }, returned true)
      else (s', threw)
  | _ ↦ (s, threw)
]

unfoldable pub settle_found :
    Host → Service → Transfer → Option Transaction → Service × Outcome Bool
unfolding book
settle_found host s f none = (s, threw)
settle_found host s f (some t) = book host s f t

-- What `addBalance`, `subtractBalance` and `transfer` share: the wallet is changed first.
unfoldable pub settle : Host → Service → Wallet → ℤ → Transfer → Clock → Service × Outcome Bool
unfolding settle_found
settle host s w balance f now =
    let w' = record w { balance = balance; nonce = w.nonce + 1; updated_at = now 0 } in
    settle_found host (record s { wallet = some w' }) f
      (confirmed_transaction host (w.nonce + 1) f now)

-- `amount <= 0`
abbrev pub is_positive : ℤ → Bool
is_positive z = ltb_ℤ (pos 0) z

add_to :
    Host
    → Service
    → Option Wallet
    → ℤ
    → TransactionType
    → Option String
    → Clock
    → Service × Outcome Bool
unfolding settle
add_to host s none amount type description now = (s, returned false)
add_to host s (some w) amount type description now =
    if is_positive amount
    then settle host s w (w.balance +ℤ amount)
        (record {
          from = "SYSTEM";
          to = w.address;
          amount = amount;
          fee = pos 0;
          type = type;
          description = description;
        })
        now
    else (s, returned false)

unfoldable pub add_balance :
    Host → Service → ℤ → TransactionType → Option String → Clock → Service × Outcome Bool
unfolding add_to
add_balance host s amount type description now = add_to host s s.wallet amount type description now

subtract_from :
    Host
    → Service
    → Option Wallet
    → ℤ
    → TransactionType
    → Option String
    → Clock
    → Service × Outcome Bool
unfolding settle
subtract_from host s none amount type description now = (s, returned false)
subtract_from host s (some w) amount type description now =
    if is_positive amount
    then if ltb_ℤ w.balance amount
      then (s, returned false)
      else settle host s w (w.balance -ℤ amount)
          (record {
            from = w.address;
            to = "SYSTEM";
            amount = amount;
            fee = pos 0;
            type = type;
            description = description;
          })
          now
    else (s, returned false)

unfoldable pub subtract_balance :
    Host → Service → ℤ → TransactionType → Option String → Clock → Service × Outcome Bool
unfolding subtract_from
subtract_balance host s amount type description now =
    subtract_from host s s.wallet amount type description now

transfer_from : Host → Service → Option Wallet → String → ℤ → ℤ → Clock → Service × Outcome Bool
unfolding settle
transfer_from host s none to amount fee now = (s, returned false)
transfer_from host s (some w) to amount fee now =
    let total = amount +ℤ fee in
    if is_positive amount
    then if ltb_ℤ w.balance total
      then (s, returned false)
      else settle host s w (w.balance -ℤ total)
          (record {
            from = w.address;
            to = to;
            amount = amount;
            fee = fee;
            type = transfer_type;
            description = none;
          })
          now
    else (s, returned false)

unfoldable pub transfer : Host → Service → String → ℤ → ℤ → Clock → Service × Outcome Bool
unfolding transfer_from
transfer host s to amount fee now = transfer_from host s s.wallet to amount fee now
