-- ===== src/Wallet/Service/Operations.antt =====
-- src/economy/Wallet/WalletService.ts: the three operations that change the balance, and that each
-- keeps it in step with the stored transactions.

use synpeer.Prelude.{
  ◌+◌, ◌<◌, ◌≡◌, refl, ap, subst, ◌∙◌, String, Option, none, some, Bool, true, false, arith,
  Bool-cases, inl, inr,
}
use synpeer.Prelude.Int.{ℤ, pos, ◌+ℤ◌, ◌-ℤ◌, ltb_ℤ, neg_part, int_laws}
use synpeer.Wallet.Transaction.{TransactionType}
use synpeer.Wallet.StateMachine.{Clock}
use synpeer.Wallet.State.{Wallet, Service, Outcome, returned}
use synpeer.Wallet.Service.{
  Host, one_hour, add_balance, subtract_balance, transfer, add_to, subtract_from, transfer_from,
  is_positive,
}
use synpeer.Wallet.Service.Consistency.{
  AgreesIf, IsConsistent, restore_one_sent, restore_one_received, settle-IsConsistent,
}

pub data Operation : Type 0 where
  add : ℤ → TransactionType → Option String → Operation
  subtract : ℤ → TransactionType → Option String → Operation
  send : String → ℤ → ℤ → Operation

unfoldable pub perform : Host → Service → Operation → Clock → Service × Outcome Bool
unfolding add_balance subtract_balance transfer
perform host s (add amount type description) now = add_balance host s amount type description now
perform host s (subtract amount type description) now =
    subtract_balance host s amount type description now
perform host s (send to amount fee) now = transfer host s to amount fee now

nonneg-add : (a b : ℤ) → neg_part a ≡ 0 → is_positive b ≡ true → neg_part (a +ℤ b) ≡ 0
unfolding ◌+ℤ◌
nonneg-add a b h k = ground arith

nonneg-sub : (a b : ℤ) → ltb_ℤ a b ≡ false → neg_part (a -ℤ b) ≡ 0
unfolding ◌-ℤ◌
nonneg-sub a b h = ground arith

add-zero_fee : (a : ℤ) → a +ℤ pos 0 ≡ a
add-zero_fee a = omega int_laws

-- A call that returns at once has changed nothing.
returned_same :
    {s s' : Service} {a b : Bool}
    → IsConsistent s
    → ◌≡◌ {A = Service × Outcome Bool} (s, returned a) (s', returned b)
    → IsConsistent s'
returned_same c h = subst IsConsistent (ap (λ (p : Service × Outcome Bool). p.0) h) c

module _ (host : Host) (s : Service) (now : Clock) (in_time : now 8 < now 1 + one_hour) where
  add-IsConsistent :
      (o : Option Wallet) (amount : ℤ) (type : TransactionType) (description : Option String)
      {s' : Service} {r : Bool}
      → s.wallet ≡ o
      → IsConsistent s
      → AgreesIf o s.canonical s.replay
      → add_to host s o amount type description now ≡ (s', returned r)
      → IsConsistent s'
  unfolding add_to
  add-IsConsistent none amount type description e c a h = returned_same c h
  add-IsConsistent (some w) amount type description e c a h =
      elim (Bool-cases (is_positive amount)) [
        | inl p ↦
            settle-IsConsistent host s w (w.balance +ℤ amount) _ now a
              (nonneg-add w.balance amount a.nonneg p) (inr refl) in_time
              (λ t k q. restore_one_received _ (w.nonce + 1) t w.balance k q) (rw p at h)
        | inr p ↦ returned_same c (rw p at h)
      ]

  subtract-IsConsistent :
      (o : Option Wallet) (amount : ℤ) (type : TransactionType) (description : Option String)
      {s' : Service} {r : Bool}
      → s.wallet ≡ o
      → IsConsistent s
      → AgreesIf o s.canonical s.replay
      → subtract_from host s o amount type description now ≡ (s', returned r)
      → IsConsistent s'
  unfolding subtract_from
  subtract-IsConsistent none amount type description e c a h = returned_same c h
  subtract-IsConsistent (some w) amount type description e c a h =
      elim (Bool-cases (is_positive amount)) [
        | inl p ↦ elim (Bool-cases (ltb_ℤ w.balance amount)) [
          | inl q ↦ returned_same c (rw (p, q) at h)
          | inr q ↦
              settle-IsConsistent host s w (w.balance -ℤ amount) _ now a
                (nonneg-sub w.balance amount q) (inl refl) in_time
                (λ t k g.
                  restore_one_sent _ (w.nonce + 1) t w.balance k g
                  ∙ ap (λ z. w.balance -ℤ z) (add-zero_fee amount))
                (rw (p, q) at h)
        ]
        | inr p ↦ returned_same c (rw p at h)
      ]

  send-IsConsistent :
      (o : Option Wallet) (to : String) (amount fee : ℤ) {s' : Service} {r : Bool}
      → s.wallet ≡ o
      → IsConsistent s
      → AgreesIf o s.canonical s.replay
      → transfer_from host s o to amount fee now ≡ (s', returned r)
      → IsConsistent s'
  unfolding transfer_from
  send-IsConsistent none to amount fee e c a h = returned_same c h
  send-IsConsistent (some w) to amount fee e c a h = elim (Bool-cases (is_positive amount)) [
    | inl p ↦ elim (Bool-cases (ltb_ℤ w.balance (amount +ℤ fee))) [
      | inl q ↦ returned_same c (rw (p, q) at h)
      | inr q ↦
          settle-IsConsistent host s w (w.balance -ℤ (amount +ℤ fee)) _ now a
            (nonneg-sub w.balance (amount +ℤ fee) q) (inl refl) in_time
            (λ t k g. restore_one_sent _ (w.nonce + 1) t w.balance k g) (rw (p, q) at h)
    ]
    | inr p ↦ returned_same c (rw p at h)
  ]

  pub perform-IsConsistent :
      (c : Operation) {s' : Service} {r : Bool}
      → IsConsistent s
      → perform host s c now ≡ (s', returned r)
      → IsConsistent s'
  unfolding perform
  perform-IsConsistent (add amount type description) a h =
      add-IsConsistent s.wallet amount type description refl a a h
  perform-IsConsistent (subtract amount type description) a h =
      subtract-IsConsistent s.wallet amount type description refl a a h
  perform-IsConsistent (send to amount fee) a h =
      send-IsConsistent s.wallet to amount fee refl a a h
