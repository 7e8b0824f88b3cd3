-- ===== src/Wallet/StateMachine/Shape.antt =====
-- The six object types of the TypeScript union, as an invariant of the runtime object: which
-- fields each status must have.
use synpeer.Prelude.{◌≡◌, Option, none, some, String, arith, List, ◌∷◌, [], Bool, false, true, not}
use synpeer.Wallet.Transaction.{
  Status, created, signed, pending, confirmed, failed, expired, Transaction, is_blank,
}
use synpeer.Wallet.StateMachine.{Clock, Command, step}
use synpeer.Wallet.StateMachine.Lifecycle.{after}
use synpeer.Wallet.StateMachine.Runs.{run}

abbrev pub is_present {ℓ} : {A : Type ℓ} → Option A → Bool
is_present none = false
is_present (some a) = true

abbrev pub is_signature : Option String → Bool
is_signature none = false
is_signature (some s) = not (is_blank s)

-- `SignedTransaction` without its status: a signature that is not blank, and its time.
abbrev pub IsSigned : Transaction → Type 0
IsSigned t = (is_signature t.signature ≡ true) × (is_present t.signed_at ≡ true)

abbrev pub IsShapedAt : Status → Transaction → Type 0
IsShapedAt created t =
    (t.signature ≡ none)
    × (t.submitted_at ≡ none)
    × (t.confirmed_at ≡ none)
    × (t.failure ≡ none)
    × (t.expired_at ≡ none)
IsShapedAt signed t =
    IsSigned t
    × (t.submitted_at ≡ none)
    × (t.confirmed_at ≡ none)
    × (t.failure ≡ none)
    × (t.expired_at ≡ none)
IsShapedAt pending t =
    IsSigned t
    × (is_present t.submitted_at ≡ true)
    × (t.confirmed_at ≡ none)
    × (t.failure ≡ none)
    × (t.expired_at ≡ none)
IsShapedAt confirmed t =
    IsSigned t
    × (is_present t.submitted_at ≡ true)
    × (is_present t.confirmed_at ≡ true)
    × (t.failure ≡ none)
    × (t.expired_at ≡ none)
IsShapedAt failed t =
    (is_present t.failure ≡ true) × (t.confirmed_at ≡ none) × (t.expired_at ≡ none)
IsShapedAt expired t =
    (is_present t.expired_at ≡ true) × (t.confirmed_at ≡ none) × (t.failure ≡ none)

abbrev pub IsShaped : Transaction → Type 0
IsShaped t = IsShapedAt t.status t

pub step-IsShaped :
    (c : Command) (t : Transaction) (now : Clock) → IsShaped t → IsShaped (after t (step c t now))
unfolding step
step-IsShaped c t now h = ground arith

-- Every call keeps the fields that the TypeScript union demands of each status.
pub run-IsShaped :
    (t : Transaction) (cs : List (Command × Clock)) → IsShaped t → IsShaped (run t cs)
unfolding run
run-IsShaped t [] h = h
run-IsShaped t ((c, now) ∷ cs) h =
    run-IsShaped (after t (step c t now)) cs (step-IsShaped c t now h)
