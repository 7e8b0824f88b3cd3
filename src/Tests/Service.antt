-- ===== src/Tests/Service.antt =====
-- The wallet service at concrete inputs (src/economy/Wallet/WalletService.ts).
use synpeer.Prelude.{◌+◌, ◌≡◌, refl, inl, none, some, List, [], ◌∷◌, true, arith}
use synpeer.Prelude.Int.{pos, ◌-ℤ◌, ◌+ℤ◌}
use synpeer.Dict.{get, has, values}
use synpeer.Wallet.Transaction.{TransactionType, is_blank}
use synpeer.Wallet.Create.{create}
use synpeer.Wallet.StateMachine.{Clock, sign, mark_pending, confirm}
use synpeer.Wallet.ReplayProtector.{empty, check}
use synpeer.Wallet.State.{Wallet, Service, threw, restored_balance, restored_nonce, restore_all}
use synpeer.Wallet.Service.{Host, transfer, confirmed_transaction, created_from}
use synpeer.Wallet.Service.Opening.{generate_address, create_wallet, new_service}
use synpeer.Wallet.Service.Operations.{add, send, perform}
use synpeer.Wallet.Service.Restart.{
  Event, open_wallet, operate, happen, happen_each, restart_balance,
}
use synpeer.Wallet.Service.Faults.{perform-false_unchanged, transfer_throws_debited}

abbrev host : Host
host = record {
  generate_nonce = λ s n. s;
  compute_payload_hash = λ p. "hash";
  compute_transaction_id = λ i. "tx";
  signature_of = λ t. some ("sig", none);
  digest_start = λ s. s;
  saves = λ t. true;
}

abbrev wallet : Wallet
wallet = record {
  address = "0x1";
  peer_id = "p";
  balance = pos 0;
  nonce = 0;
  created_at = 1;
  updated_at = 1;
}

abbrev service : Service
service = record { wallet = some wallet; transactions = []; canonical = []; replay = empty }

abbrev clock : Clock
clock n = 1000 + n

-- The wallet of a peer is made, and rewarded.
abbrev events : List (Event × Clock)
events = (open_wallet "1", clock) ∷ (operate (add (pos 7) TransactionType.reward none), clock) ∷ []

abbrev opened : Service
opened = create_wallet host new_service "1" clock

abbrev rewarded : Service
rewarded = (perform host opened (add (pos 7) TransactionType.reward none) clock).0

happen_each-events : happen_each host new_service events ≡ some rewarded
unfolding happen_each happen create_wallet perform confirmed_transaction created_from create sign
    mark_pending confirm is_blank check empty get has restored_balance restored_nonce restore_all
    values generate_address
happen_each-events = refl

abbrev paid : Wallet
paid = record wallet {
  peer_id = "1";
  balance = pos 0 +ℤ pos 7;
  nonce = 1;
  created_at = 1000;
  updated_at = 1000;
}

restart_balance_example : restored_balance "0x1" rewarded.canonical ≡ pos 0 +ℤ pos 7
unfolding create_wallet perform confirmed_transaction created_from create sign mark_pending confirm
    is_blank check empty get has restored_balance restored_nonce restore_all values generate_address
restart_balance_example =
    restart_balance host events paid (omega arith, (omega arith, tt)) happen_each-events refl

perform-false_unchanged_example :
    (perform host service (send "b" (pos 9) (pos 0)) clock).0 ≡ service
unfolding perform ◌+ℤ◌
perform-false_unchanged_example =
    perform-false_unchanged host service (send "b" (pos 9) (pos 0)) clock refl

abbrev rich : Wallet
rich = record wallet { balance = pos 50 }

transfer_throws_debited_example :
    transfer host (record service { wallet = some rich }) "0x1" (pos 5) (pos 1) clock ≡ (
      record service {
        wallet =
            some
              (record rich { balance = pos 50 -ℤ (pos 5 +ℤ pos 1); nonce = 1; updated_at = 1000 });
      },
      threw,
    )
unfolding ◌+ℤ◌
transfer_throws_debited_example =
    transfer_throws_debited host (record service { wallet = some rich }) rich "0x1" (pos 5) (pos 1)
      clock refl refl refl (inl refl)
