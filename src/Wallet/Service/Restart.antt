-- ===== src/Wallet/Service/Restart.antt =====
-- src/economy/Wallet/WalletService.ts: on what `createWallet` computes after any calls.
use Prim.Native.Char.{char, code}
use Prim.Native.String as Text
use text.Mathlib.TextLemmas.{cons-append}
use synpeer.Prelude.{
  ℕ, ◌+◌, ◌<◌, ◌≡◌, ◌≢◌, refl, sym, ap, subst, ◌∙◌, String, Option, none, some, List, [], ◌∷◌, Bool,
  arith, All,
}
use synpeer.Prelude.Int.{ℤ, pos, neg_part}
use synpeer.Dict.{has, values}
use synpeer.Wallet.StateMachine.{Clock}
use synpeer.Wallet.State.{
  Wallet, Service, Outcome, returned, threw, restore_all, restored_balance, max_zero,
}
use synpeer.Wallet.Service.{Host, one_hour, ◌>>=◌}
use synpeer.Wallet.Service.Terms.{>>=-eq-some}
use synpeer.Wallet.Service.Opening.{generate_address, create_wallet, new_service}
use synpeer.Wallet.Service.Consistency.{Agrees, AgreesIf, IsSound, IsConsistent}
use synpeer.Wallet.Service.Operations.{Operation, perform, perform-IsConsistent}

abbrev IsConsistentIf : Option Service → Type 0
IsConsistentIf none = Unit
IsConsistentIf (some s) = IsConsistent s

-- What `createWallet` would compute is what the wallet holds.
pub restored_balance_of_IsConsistent :
    (s : Service) (w : Wallet)
    → s.wallet ≡ some w
    → IsConsistent s
    → restored_balance w.address s.canonical ≡ w.balance
unfolding restored_balance
restored_balance_of_IsConsistent s w e c = go (subst (λ o. AgreesIf o s.canonical s.replay) e c)
  where
    go :
        Agrees w s.canonical s.replay
        → max_zero (restore_all w.address (pos 0) (values s.canonical)) ≡ w.balance
    go a = rw a.stored (ground (arith, a.nonneg))

-- A call of createWallet, or of one of the three operations.
pub data Event : Type 0 where
  open_wallet : String → Event
  operate : Operation → Event

abbrev unless_thrown : Service × Outcome Bool → Option Service
unless_thrown (s, returned r) = some s
unless_thrown (s, threw) = none

-- Nothing, once a call has thrown.
unfoldable pub happen : Host → Service → Event → Clock → Option Service
unfolding create_wallet perform
happen host s (open_wallet peer_id) now = some (create_wallet host s peer_id now)
happen host s (operate c) now = unless_thrown (perform host s c now)

unfoldable pub happen_each : Host → Service → List (Event × Clock) → Option Service
unfolding happen
happen_each host s [] = some s
happen_each host s ((e, now) ∷ es) = happen host s e now >>= λ s'. happen_each host s' es

first_code : String → ℕ
first_code Text.[] = 0
first_code (Text.◌∷◌ c s) = code c

address-apart : (host : Host) (peer_id : String) → generate_address host peer_id ≢ "SYSTEM"
unfolding generate_address first_code
address-apart host peer_id h =
    let e = cons-append (char 48 tt) "x" (host.digest_start peer_id) in
    omega (arith, ap first_code (sym e ∙ h))

new_service-IsConsistent : IsConsistent new_service
unfolding restore_all values has
new_service-IsConsistent = record { known = λ i h. cc; covered = λ a h. refl }

sound_of_IsConsistent : (s : Service) → IsConsistent s → IsSound s.canonical s.replay
sound_of_IsConsistent s c = go s.wallet c
  where
    go : (o : Option Wallet) → AgreesIf o s.canonical s.replay → IsSound s.canonical s.replay
    go none x = x
    go (some w) x = x.sound

max_zero_of_nonneg : (z : ℤ) → neg_part z ≡ 0 → max_zero z ≡ z
max_zero_of_nonneg z h = ground (arith, h)

create_wallet-IsConsistent :
    (host : Host) (s : Service) (peer_id : String) (now : Clock)
    → IsConsistent s
    → IsConsistent (create_wallet host s peer_id now)
unfolding create_wallet restored_balance
create_wallet-IsConsistent host s peer_id now c =
    let x = sound_of_IsConsistent s c in
    let a = generate_address host peer_id in
    let n = x.covered a (address-apart host peer_id) in
    let e = max_zero_of_nonneg (restore_all a (pos 0) (values s.canonical)) n in
    record {
      named = address-apart host peer_id;
      nonneg = ap neg_part e ∙ n;
      stored = sym e;
      sound = x;
    }

-- Each call is done within the hour that its transaction lives.
abbrev pub IsTimely : Event × Clock → Type 0
IsTimely (e, now) = now 8 < now 1 + one_hour

happen-IsConsistent :
    (host : Host) (s : Service) (e : Event) (now : Clock) {s' : Service}
    → IsTimely (e, now)
    → IsConsistent s
    → happen host s e now ≡ some s'
    → IsConsistent s'
unfolding happen
happen-IsConsistent host s (open_wallet peer_id) now k c h =
    subst (λ o. IsConsistentIf o) h (create_wallet-IsConsistent host s peer_id now c)
happen-IsConsistent host s (operate o) now k c h = go (perform host s o now) refl h
  where
    go :
        (p : Service × Outcome Bool) {s' : Service}
        → perform host s o now ≡ p
        → unless_thrown p ≡ some s'
        → IsConsistent s'
    go (u, returned r) e g =
        subst (λ o. IsConsistentIf o) g (perform-IsConsistent host s now k o c e)
    go (u, threw) e g = cc

happen_each-IsConsistent :
    (host : Host) (s : Service) (es : List (Event × Clock)) {s' : Service}
    → All IsTimely es
    → IsConsistent s
    → happen_each host s es ≡ some s'
    → IsConsistent s'
unfolding happen_each
happen_each-IsConsistent host s [] k c h = subst (λ o. IsConsistentIf o) h c
happen_each-IsConsistent host s ((e, now) ∷ es) k c h =
    let (u, first, rest) = >>=-eq-some (happen host s e now) _ h in
    happen_each-IsConsistent host u es k.1 (happen-IsConsistent host s e now k.0 c first) rest

-- After any calls of createWallet, addBalance, subtractBalance and transfer, of whole amounts, on
-- a service that had stored nothing, none of which threw or took an hour, the balance in memory
-- is the one that createWallet computes from the stored canonical transactions.
pub restart_balance :
    (host : Host) (es : List (Event × Clock)) {s : Service} (w : Wallet)
    → All IsTimely es
    → happen_each host new_service es ≡ some s
    → s.wallet ≡ some w
    → restored_balance w.address s.canonical ≡ w.balance
restart_balance host es {s} w k h e =
    restored_balance_of_IsConsistent s w e
      (happen_each-IsConsistent host new_service es k new_service-IsConsistent h)
