-- ===== src/Wallet/Service/Faults.antt =====
-- What a refusal leaves alone, and what a throw does not: the wallet is debited before the
-- transaction is validated.
use synpeer.Prelude.{
  ℕ, ◌+◌, ◌<◌, ◌≡◌, ◌≢◌, ap, ◌∙◌, String, Option, none, some, true, false, arith, eq_iff,
  Option-cases, ◌⊎◌, inl, inr,
}
use synpeer.Prelude.Int.{ℤ, pos, ◌+ℤ◌, ◌-ℤ◌, ltb_ℤ, neg_part}
use synpeer.Wallet.Transaction.{Transaction, TransactionType}
use synpeer.Wallet.Create.{create}
use synpeer.Wallet.StateMachine.{Clock}
use synpeer.Wallet.State.{Wallet, Service, returned, threw}
use synpeer.Wallet.Service.{
  made, created_from, Host, Transfer, confirmed_transaction, book, settle, settle_found, transfer,
  add_to, subtract_from, transfer_from, is_positive,
}
use synpeer.Wallet.Service.Operations.{Operation, add, subtract, send, perform}

book_true :
    (host : Host) (s : Service) (f : Transfer) (t : Transaction) {s' : Service}
    → book host s f t ≢ (s', returned false)
unfolding book
book_true host s f t h = ground arith

settle_true :
    (host : Host) (s : Service) (w : Wallet) (b : ℤ) (f : Transfer) (now : Clock) {s' : Service}
    → settle host s w b f now ≢ (s', returned false)
unfolding settle settle_found
settle_true host s w b f now h =
    elim (Option-cases (confirmed_transaction host (w.nonce + 1) f now)) [
      | inl e ↦ absurd (ground (arith, e))
      | inr (t, e) ↦ book_true host _ f t (rw e at h)
    ]

add_false :
    (host : Host) (s : Service) (o : Option Wallet) (amount : ℤ) (type : TransactionType)
    (description : Option String) (now : Clock) {s' : Service}
    → add_to host s o amount type description now ≡ (s', returned false)
    → s' ≡ s
unfolding add_to
add_false host s none amount type description now h = ground arith
add_false host s (some w) amount type description now {s'} h = ground (
  arith,
  settle_true host s w (w.balance +ℤ amount)
      (record {
        from = "SYSTEM";
        to = w.address;
        amount = amount;
        fee = pos 0;
        type = type;
        description = description;
      })
      now {s' = s'},
)

subtract_false :
    (host : Host) (s : Service) (o : Option Wallet) (amount : ℤ) (type : TransactionType)
    (description : Option String) (now : Clock) {s' : Service}
    → subtract_from host s o amount type description now ≡ (s', returned false)
    → s' ≡ s
unfolding subtract_from
subtract_false host s none amount type description now h = ground arith
subtract_false host s (some w) amount type description now {s'} h = ground (
  arith,
  settle_true host s w (w.balance -ℤ amount)
      (record {
        from = w.address;
        to = "SYSTEM";
        amount = amount;
        fee = pos 0;
        type = type;
        description = description;
      })
      now {s' = s'},
)

send_false :
    (host : Host) (s : Service) (o : Option Wallet) (to : String) (amount fee : ℤ) (now : Clock)
    {s' : Service}
    → transfer_from host s o to amount fee now ≡ (s', returned false)
    → s' ≡ s
unfolding transfer_from
send_false host s none to amount fee now h = ground arith
send_false host s (some w) to amount fee now {s'} h = ground (
  arith,
  settle_true host s w (w.balance -ℤ (amount +ℤ fee))
      (record {
        from = w.address;
        to = to;
        amount = amount;
        fee = fee;
        type = TransactionType.transfer;
        description = none;
      })
      now {s' = s'},
)

-- A call of addBalance, subtractBalance or transfer that returns false has changed nothing.
pub perform-false_unchanged :
    (host : Host) (s : Service) (c : Operation) (now : Clock) {s' : Service}
    → perform host s c now ≡ (s', returned false)
    → s' ≡ s
unfolding perform
perform-false_unchanged host s (add amount type description) now h =
    add_false host s s.wallet amount type description now h
perform-false_unchanged host s (subtract amount type description) now h =
    subtract_false host s s.wallet amount type description now h
perform-false_unchanged host s (send to amount fee) now h =
    send_false host s s.wallet to amount fee now h

made_invalid :
    (host : Host) (n : ℕ) (f : Transfer) (now : Clock)
    → (f.to ≡ f.from) ⊎ (0 < neg_part f.fee)
    → made (created_from host n f now) ≡ none
unfolding created_from create
made_invalid host n f now h = ground (arith, eq_iff f.from f.to)

confirmed_transaction_invalid :
    (host : Host) (n : ℕ) (f : Transfer) (now : Clock)
    → (f.to ≡ f.from) ⊎ (0 < neg_part f.fee)
    → confirmed_transaction host n f now ≡ none
unfolding confirmed_transaction
confirmed_transaction_invalid host n f now h = rw (made_invalid host n f now h)

debited :
    (host : Host) (s : Service) (w : Wallet) (to : String) (amount fee : ℤ) (now : Clock)
    → is_positive amount ≡ true
    → ltb_ℤ w.balance (amount +ℤ fee) ≡ false
    → (to ≡ w.address) ⊎ (0 < neg_part fee)
    → transfer_from host s (some w) to amount fee now ≡ (
      record s {
        wallet = some (record w {
          balance = w.balance -ℤ (amount +ℤ fee);
          nonce = w.nonce + 1;
          updated_at = now 0;
        });
      },
      threw,
    )
unfolding transfer_from settle settle_found
debited host s w to amount fee now p q h = rw (
  p,
  q,
  confirmed_transaction_invalid host (w.nonce + 1)
      (record {
        from = w.address;
        to = to;
        amount = amount;
        fee = fee;
        type = TransactionType.transfer;
        description = none;
      })
      now h,
)

-- A transfer of a positive amount to the own address, or with a negative fee, that the balance
-- covers, throws and leaves the balance debited by amount plus fee.
pub transfer_throws_debited :
    (host : Host) (s : Service) (w : Wallet) (to : String) (amount fee : ℤ) (now : Clock)
    → s.wallet ≡ some w
    → is_positive amount ≡ true
    → ltb_ℤ w.balance (amount +ℤ fee) ≡ false
    → (to ≡ w.address) ⊎ (0 < neg_part fee)
    → transfer host s to amount fee now ≡ (
      record s {
        wallet = some (record w {
          balance = w.balance -ℤ (amount +ℤ fee);
          nonce = w.nonce + 1;
          updated_at = now 0;
        });
      },
      threw,
    )
unfolding transfer
transfer_throws_debited host s w to amount fee now e p q h =
    ap (λ o. transfer_from host s o to amount fee now) e ∙ debited host s w to amount fee now p q h
