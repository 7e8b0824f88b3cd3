-- ===== src/Wallet/Service/Opening.antt =====
-- src/economy/Wallet/WalletService.ts: `createWallet`, which makes the wallet of a peer from the
-- stored canonical transactions.
use Prim.Native.String.{◌++◌ as string_append}
use synpeer.Prelude.{
  ℕ, String, none, some, List, [], ◌∷◌, Bool, ◌==◌, ◌||◌, leb, filter, map, min, max,
}
use synpeer.Prelude.Sort.{sort}
use synpeer.Dict.{values}
use synpeer.Wallet.Transaction.{Transaction}
use synpeer.Wallet.StateMachine.{Clock}
use synpeer.Wallet.ReplayProtector.{empty}
use synpeer.Wallet.State.{
  LegacyTransaction, Service, amount_of, to_legacy_status, restored_balance, restored_nonce,
}
use synpeer.Wallet.Service.{Host}

unfoldable pub generate_address : Host → String → String
generate_address host peer_id = string_append "0x" (host.digest_start peer_id)

abbrev is_party : String → Transaction → Bool
is_party address t = t.sender_id == address || t.recipient_id == address

abbrev restored_transaction : Transaction → LegacyTransaction
restored_transaction t = record {
  id = t.id;
  type = t.type;
  from = t.sender_id;
  to = t.recipient_id;
  amount = amount_of t.payload.amount;
  fee = amount_of t.payload.fee;
  timestamp = t.created_at;
  status = to_legacy_status t.status;
  description = t.payload.description;
  signature = t.signature;
}

unfoldable pub restore_legacy_transactions : List Transaction → String → List LegacyTransaction
unfolding sort
restore_legacy_transactions ts address =
    map restored_transaction
      (sort (λ (a b : Transaction). leb a.created_at b.created_at) (filter (is_party address) ts))

-- `Math.min` and `Math.max` over the timestamps, and the clock if there are none.
earliest : ℕ → List LegacyTransaction → ℕ
earliest at [] = at
earliest at (t ∷ []) = t.timestamp
earliest at (t ∷ u ∷ ts) = min t.timestamp (earliest at (u ∷ ts))

latest : ℕ → List LegacyTransaction → ℕ
latest at [] = at
latest at (t ∷ []) = t.timestamp
latest at (t ∷ u ∷ ts) = max t.timestamp (latest at (u ∷ ts))

-- A service that has no wallet yet and has stored nothing.
abbrev pub new_service : Service
new_service = record { wallet = none; transactions = []; canonical = []; replay = empty }

unfoldable pub create_wallet : Host → Service → String → Clock → Service
unfolding generate_address restore_legacy_transactions earliest latest restored_balance
    restored_nonce
create_wallet host s peer_id now =
    let address = generate_address host peer_id in
    let restored = restore_legacy_transactions (values s.canonical) address in
    record s {
      wallet = some (record {
        address = address;
        peer_id = peer_id;
        balance = restored_balance address s.canonical;
        nonce = restored_nonce (values s.canonical) 0;
        created_at = earliest (now 0) restored;
        updated_at = latest (now 0) restored;
      });
      transactions = restored;
    }
