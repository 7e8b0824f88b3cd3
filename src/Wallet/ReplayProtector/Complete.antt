-- ===== src/Wallet/ReplayProtector/Complete.antt =====
-- On sequences of transactions that are in order.
use synpeer.Prelude.{List, [], ◌∷◌, ◌≡◌, refl, ap, arith, All, eq_iff}
use synpeer.Dict.{get, has}
use synpeer.Wallet.Transaction.{Transaction}
use synpeer.Wallet.ReplayProtector.{Protector, accepted, check, enter, admit, record_at, empty}
use synpeer.Wallet.ReplayProtector.Order.{
  Follows, let_through, keep, IsOrdered, nonce-enter, sequence-enter, id-enter,
}

check-enter :
    (p : Protector) (t u : Transaction)
    → check p u ≡ accepted
    → Follows t u
    → check (enter p t) u ≡ accepted
unfolding check
check-enter p t u h f = ground (
  arith,
  id-enter p t u.id,
  nonce-enter p t u.sender_id u.nonce,
  sequence-enter p t u.sender_id,
  eq_iff t.id u.id,
  eq_iff t.nonce u.nonce,
  eq_iff t.sender_id u.sender_id,
  f.0,
  f.1,
)

Accepts-enter :
    (p : Protector) (t : Transaction) (us : List Transaction)
    → All (λ u. check p u ≡ accepted) us
    → All (Follows t) us
    → All (λ u. check (enter p t) u ≡ accepted) us
Accepts-enter p t [] h f = tt
Accepts-enter p t (u ∷ us) h f = (check-enter p t u h.0 f.0, Accepts-enter p t us h.1 f.1)

let_through-eq :
    (p : Protector) (ts : List Transaction)
    → All (λ u. check p u ≡ accepted) ts
    → IsOrdered ts
    → let_through p ts ≡ ts
unfolding let_through admit
let_through-eq p [] h o = refl
let_through-eq p (t ∷ ts) h o =
    rw (h.0, keep, record_at)
      (ap (◌∷◌ t) (let_through-eq (enter p t) ts (Accepts-enter p t ts h.1 o.0) o.1))

check-empty : (ts : List Transaction) → All (λ u. check empty u ≡ accepted) ts
unfolding check empty get has
check-empty [] = tt
check-empty (t ∷ ts) = (refl, check-empty ts)

-- A new protector lets a sequence of transactions through whole if it is in order.
pub let_through-empty : (ts : List Transaction) → IsOrdered ts → let_through empty ts ≡ ts
let_through-empty ts o = let_through-eq empty ts (check-empty ts) o
