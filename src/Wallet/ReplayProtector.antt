-- ===== src/Wallet/ReplayProtector.antt =====
-- src/economy/Wallet/TransactionReplayProtector.ts. A `Set` of strings is a dictionary of units.
pub mod Order
pub mod Snapshot
pub mod Complete
use synpeer.Prelude.{
  ℕ, String, Option, none, some, List, [], ◌∷◌, Bool, true, false, ltb, max, if◌then◌else◌, ◌≡◌,
}
use synpeer.Dict.{Dict, get, has, put}
use synpeer.Wallet.Transaction.{Transaction}

pub record Protector : Type 0 where
  pub processed_ids : Dict (Unit {0})
  pub nonce_by_sender : Dict (Dict (Unit {0}))
  pub sequence_by_sender : Dict ℕ

-- The `reason` of a refused check.
pub data ReplayCheck : Type 0 where
  accepted duplicate_id nonce_reused sequence_regression : ReplayCheck

unfoldable pub empty : Protector
empty = record { processed_ids = []; nonce_by_sender = []; sequence_by_sender = [] }

-- `senderNonces?.has(nonce)`
abbrev pub holds_nonce : Option (Dict (Unit {0})) → String → Bool
holds_nonce none nonce = false
holds_nonce (some nonces) nonce = has nonces nonce

-- `lastSequence !== undefined && sequence < lastSequence`
abbrev pub regresses : Option ℕ → ℕ → Bool
regresses none sequence = false
regresses (some last) sequence = ltb sequence last

unfoldable pub check : Protector → Transaction → ReplayCheck
check p t =
    if has p.processed_ids t.id
    then duplicate_id
    else if holds_nonce (get p.nonce_by_sender t.sender_id) t.nonce
    then nonce_reused
    else if regresses (get p.sequence_by_sender t.sender_id) t.sequence
    then sequence_regression
    else accepted

-- `this.nonceBySender.get(senderId) ?? new Set<string>()`
abbrev pub nonces_or_new : Option (Dict (Unit {0})) → Dict (Unit {0})
nonces_or_new none = []
nonces_or_new (some nonces) = nonces

-- `this.sequenceBySender.get(senderId) ?? transaction.sequence`
abbrev pub sequence_or : Option ℕ → ℕ → ℕ
sequence_or none n = n
sequence_or (some last) n = last

unfoldable pub enter : Protector → Transaction → Protector
enter p t = record {
  processed_ids = put p.processed_ids t.id tt;
  nonce_by_sender =
      put p.nonce_by_sender t.sender_id
        (put (nonces_or_new (get p.nonce_by_sender t.sender_id)) t.nonce tt);
  sequence_by_sender =
      put p.sequence_by_sender t.sender_id
        (max t.sequence (sequence_or (get p.sequence_by_sender t.sender_id) t.sequence));
}

record_at : ReplayCheck → Protector → Transaction → Protector
unfolding enter
record_at accepted p t = enter p t
record_at duplicate_id p t = p
record_at nonce_reused p t = p
record_at sequence_regression p t = p

-- `record`: the new state and the verdict.
unfoldable pub admit : Protector → Transaction → Protector × ReplayCheck
unfolding record_at
admit p t = (record_at (check p t) p t, check p t)

unfoldable pub clear : Protector → Protector
unfolding empty
clear p = empty
