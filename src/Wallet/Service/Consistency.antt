-- ===== src/Wallet/Service/Consistency.antt =====
-- On the balance in memory and the stored transactions, step by step.
use synpeer.Prelude.{
  ℕ, ◌+◌, ◌<◌, ◌≡◌, ◌≢◌, ◌⊎◌, ◌==◌, refl, ap, ◌∙◌, String, Option, none, some, List, [], ◌∷◌, ◌++◌,
  Bool, true, false, arith, eq_iff, Bool-cases, inl, inr,
}
use synpeer.Prelude.Int.{ℤ, pos, ◌+ℤ◌, ◌-ℤ◌, neg_part}
use synpeer.Dict.{Dict, has, put, values}
use synpeer.Dict.Laws.{has-put, values-put_fresh}
use synpeer.Wallet.Transaction.{Transaction, confirmed}
use synpeer.Wallet.StateMachine.{Clock}
use synpeer.Wallet.ReplayProtector.{Protector, check, admit, accepted}
use synpeer.Wallet.ReplayProtector.Order.{id-enter, admit-accepted}
use synpeer.Wallet.State.{Wallet, Service, returned, restore_one, restore_all}
use synpeer.Wallet.Service.{
  Host, Transfer, one_hour, confirmed_transaction, book, settle, settle_found,
}
use synpeer.Wallet.Service.Terms.{Books, confirmed_transaction-Books}

restore_all-append :
    (address : String) (b : ℤ) (ts : List Transaction) (t : Transaction)
    → restore_all address b (ts ++ t ∷ []) ≡ restore_one address (restore_all address b ts) t
unfolding restore_all
restore_all-append address b [] t = refl
restore_all-append address b (u ∷ ts) t = restore_all-append address (restore_one address b u) ts t

-- Stored transactions that the replay protector knows and that overdraw no address.
pub record IsSound (d : Dict Transaction) (p : Protector) : Type 0 where
  pub known : (i : String) → has d i ≡ true → has p.processed_ids i ≡ true
  pub covered : (a : String) → a ≢ "SYSTEM" → neg_part (restore_all a (pos 0) (values d)) ≡ 0

-- A service whose wallet agrees with what it has stored.
pub record Agrees (w : Wallet) (d : Dict Transaction) (p : Protector) : Type 0 where
  pub named : w.address ≢ "SYSTEM"
  pub nonneg : neg_part w.balance ≡ 0
  pub stored : restore_all w.address (pos 0) (values d) ≡ w.balance
  pub sound : IsSound d p

abbrev pub AgreesIf : Option Wallet → Dict Transaction → Protector → Type 0
AgreesIf none d p = IsSound d p
AgreesIf (some w) d p = Agrees w d p

abbrev pub IsConsistent : Service → Type 0
IsConsistent s = AgreesIf s.wallet s.canonical s.replay

fresh_id :
    {w : Wallet} {d : Dict Transaction} {p : Protector} (t : Transaction)
    → Agrees w d p
    → check p t ≡ accepted
    → has d t.id ≡ false
unfolding check
fresh_id {d = d} {p = p} t a h = elim (Bool-cases (has d t.id)) [
  | inl e ↦ absurd (ground (arith, a.sound.known t.id e))
  | inr e ↦ e
]

-- The change of balance that the transaction stands for.
pub restore_one_sent :
    (f : Transfer) (n : ℕ) (t : Transaction) (b : ℤ)
    → Books f n t
    → t.status ≡ confirmed
    → restore_one f.from b t ≡ b -ℤ (f.amount +ℤ f.fee)
unfolding restore_one
restore_one_sent f n t b k c = ground (
  arith,
  k.sender,
  k.recipient,
  k.amount,
  k.fee,
  k.apart,
  eq_iff t.recipient_id f.from,
  eq_iff t.sender_id f.from,
)

pub restore_one_received :
    (f : Transfer) (n : ℕ) (t : Transaction) (b : ℤ)
    → Books f n t
    → t.status ≡ confirmed
    → restore_one f.to b t ≡ b +ℤ f.amount
unfolding restore_one
restore_one_received f n t b k c = ground (
  arith,
  k.sender,
  k.recipient,
  k.amount,
  k.fee,
  k.apart,
  eq_iff t.recipient_id f.to,
  eq_iff t.sender_id f.to,
)

-- A transaction that debits no address but the wallet's and the system's.
abbrev pub Spares : Wallet → Transaction → Type 0
Spares w t =
    (a : String)
    → a ≢ "SYSTEM"
    → a ≢ w.address
    → (z : ℤ) → neg_part z ≡ 0
    → neg_part (restore_one a z t) ≡ 0

pub Books-Spares :
    (f : Transfer) (n : ℕ) (t : Transaction) (w : Wallet)
    → Books f n t
    → (f.from ≡ w.address) ⊎ (f.from ≡ "SYSTEM")
    → Spares w t
unfolding restore_one ◌+ℤ◌
Books-Spares f n t w k o a h g z e =
    ground (arith, k.sender, k.amount, k.positive, o, eq_iff t.sender_id a)

known-admit :
    (d : Dict Transaction) (p : Protector) (t : Transaction)
    → check p t ≡ accepted
    → ((i : String) → has d i ≡ true → has p.processed_ids i ≡ true)
    → (i : String) → has (put d t.id t) i ≡ true
    → has (admit p t).0.processed_ids i ≡ true
known-admit d p t h k i e =
    rw admit-accepted (ground (arith, has-put d t.id t i, id-enter p t i, k i, e))

stored-put :
    (w : Wallet) (b : ℤ) {d : Dict Transaction} {p : Protector} (t : Transaction)
    → Agrees w d p
    → check p t ≡ accepted
    → restore_one w.address w.balance t ≡ b
    → restore_all w.address (pos 0) (values (put d t.id t)) ≡ b
stored-put w b {d} {p} t a h e =
    ap (restore_all w.address (pos 0)) (values-put_fresh d t.id t (fresh_id t a h))
    ∙ restore_all-append w.address (pos 0) (values d) t
    ∙ ap (λ z. restore_one w.address z t) a.stored
    ∙ e

restore_all_address :
    (w : Wallet) {d : Dict Transaction} {p : Protector} (b : ℤ) (t : Transaction) (a : String)
    → Agrees w d p
    → check p t ≡ accepted
    → neg_part b ≡ 0
    → restore_one w.address w.balance t ≡ b
    → Spares w t
    → a ≢ "SYSTEM"
    → neg_part (restore_all a (pos 0) (values (put d t.id t))) ≡ 0
restore_all_address w {d} {p} b t a x h n e u k = elim (Bool-cases (a == w.address)) [
  | inl q ↦
      ap (λ i. neg_part (restore_all i (pos 0) (values (put d t.id t)))) ((eq_iff a w.address).0 q)
      ∙ ap neg_part (stored-put w b t x h e)
      ∙ n
  | inr q ↦
      ap (λ l. neg_part (restore_all a (pos 0) l)) (values-put_fresh d t.id t (fresh_id t x h))
      ∙ ap neg_part (restore_all-append a (pos 0) (values d) t)
      ∙ u a k (ground (arith, eq_iff a w.address, q)) (restore_all a (pos 0) (values d))
          (x.sound.covered a k)
]

-- The wallet with the balance that it has when the call is booked.
abbrev paid : Wallet → ℤ → ℕ → Wallet
paid w b at = record w { balance = b; nonce = w.nonce + 1; updated_at = at }

-- What a call of `book` that returns has done.
record Booked (s : Service) (f : Transfer) (t : Transaction) (s' : Service) : Type 0 where
  pub passed : check s.replay t ≡ accepted
  pub wallet : s'.wallet ≡ s.wallet
  pub canonical : s'.canonical ≡ put s.canonical t.id t
  pub replay : s'.replay ≡ (admit s.replay t).0

book-Booked :
    (host : Host) (s : Service) (f : Transfer) (t : Transaction) {s' : Service} {r : Bool}
    → book host s f t ≡ (s', returned r)
    → Booked s f t s'
unfolding book
book-Booked host s f t h = ground arith

Booked-IsConsistent :
    (s s' : Service) (w : Wallet) (b : ℤ) (at : ℕ) (f : Transfer) (t : Transaction)
    → Agrees w s.canonical s.replay
    → neg_part b ≡ 0
    → restore_one w.address w.balance t ≡ b
    → Spares w t
    → Booked (record s { wallet = some (paid w b at) }) f t s'
    → IsConsistent s'
Booked-IsConsistent s s' w b at f t a n e u k =
    rw (k.wallet, k.canonical, k.replay)
      (record {
        named = a.named;
        nonneg = n;
        stored = stored-put w b t a k.passed e;
        sound = record {
          known = known-admit s.canonical s.replay t k.passed a.sound.known;
          covered = λ i h. restore_all_address w b t i a k.passed n e u h;
        };
      })

settle_found-IsConsistent :
    (host : Host) (s : Service) (w : Wallet) (b : ℤ) (at : ℕ) (f : Transfer)
    (o : Option Transaction) {s' : Service} {r : Bool}
    → Agrees w s.canonical s.replay
    → neg_part b ≡ 0
    → ((t : Transaction) → o ≡ some t → (restore_one w.address w.balance t ≡ b) × Spares w t)
    → settle_found host (record s { wallet = some (paid w b at) }) f o ≡ (s', returned r)
    → IsConsistent s'
unfolding settle_found
settle_found-IsConsistent host s w b at f none a n e h = cc
settle_found-IsConsistent host s w b at f (some t) {s'} a n e h =
    Booked-IsConsistent s s' w b at f t a n (e t refl).0 (e t refl).1 (book-Booked host _ f t h)

pub settle-IsConsistent :
    (host : Host) (s : Service) (w : Wallet) (b : ℤ) (f : Transfer) (now : Clock) {s' : Service}
    {r : Bool}
    → Agrees w s.canonical s.replay
    → neg_part b ≡ 0
    → (f.from ≡ w.address) ⊎ (f.from ≡ "SYSTEM")
    → now 8 < now 1 + one_hour
    → ((t : Transaction)
        → Books f (w.nonce + 1) t
        → t.status ≡ confirmed
        → restore_one w.address w.balance t ≡ b)
    → settle host s w b f now ≡ (s', returned r)
    → IsConsistent s'
unfolding settle
settle-IsConsistent host s w b f now a n o k e h =
    settle_found-IsConsistent host s w b (now 0) f (confirmed_transaction host (w.nonce + 1) f now)
      a n
      (λ t g.
        let (x, y) = confirmed_transaction-Books host (w.nonce + 1) f now g k in
        (e t x y, Books-Spares f (w.nonce + 1) t w x o))
      h
