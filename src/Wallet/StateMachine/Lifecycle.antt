-- ===== src/Wallet/StateMachine/Lifecycle.antt =====
-- The lifecycle diagram of a transaction, and that every call of the state machine follows it.
use synpeer.Prelude.{
  ℕ, suc, ◌≤◌, ◌<◌, ◌≡◌, refl, ap, ◌⊎◌, Option, String, arith, List, [], ◌∷◌, ◌++◌,
}
use synpeer.Wallet.Transaction.{
  Status, created, signed, pending, confirmed, failed, expired, Transaction, HistoryEntry,
}
use synpeer.Wallet.StateMachine.{
  Clock, TransitionResult, applied, refused, thrown, Command, step, Refusal, append_history,
  do_fail, do_sign, do_mark_pending, do_confirm, do_expire,
}

infix 40 ◌⟶◌
pub data ◌⟶◌ : Status → Status → Type 0 where
  signing : created ⟶ signed
  submitting : signed ⟶ pending
  confirming : pending ⟶ confirmed
  failing_created : created ⟶ failed
  failing_signed : signed ⟶ failed
  failing_pending : pending ⟶ failed
  expiring_created : created ⟶ expired
  expiring_signed : signed ⟶ expired
  expiring_pending : pending ⟶ expired

pub ruleset edges = (
  signing, submitting, confirming, failing_created, failing_signed, failing_pending,
  expiring_created, expiring_signed, expiring_pending,
)

pub step-⟶ :
    (c : Command) (t : Transaction) (now : Clock) {s : Status} {u : Transaction}
    → step c t now ≡ applied s u
    → (s ≡ t.status) × (t.status ⟶ u.status)
unfolding step
step-⟶ c t now h = grind (arith, edges)

pub step-refused_unchanged :
    (c : Command) (t : Transaction) (now : Clock) {r : Refusal} {u : Transaction}
    → step c t now ≡ refused r u
    → u ≡ t
unfolding step
step-refused_unchanged c t now h = ground arith

abbrev pub statuses : List HistoryEntry → List Status
statuses [] = []
statuses (e ∷ es) = e.status ∷ statuses es

statuses-append :
    (es : List HistoryEntry) (e : HistoryEntry)
    → statuses (es ++ e ∷ []) ≡ statuses es ++ e.status ∷ []
statuses-append [] e = refl
statuses-append (d ∷ es) e = ap (◌∷◌ d.status) (statuses-append es e)

statuses-append_history :
    (t : Transaction) (s : Status) (at : ℕ) (reason : Option String)
    → statuses (append_history t s at reason) ≡ statuses t.history ++ s ∷ []
unfolding append_history
statuses-append_history t s at reason = statuses-append t.history _

pub step-statuses :
    (c : Command) (t : Transaction) (now : Clock) {s : Status} {u : Transaction}
    → step c t now ≡ applied s u
    → statuses u.history ≡ statuses t.history ++ u.status ∷ []
unfolding step
step-statuses c t now h = grind (arith, statuses-append)

-- What a caller holds after a call: a throw leaves its transaction alone.
abbrev pub after : Transaction → TransitionResult → Transaction
after t (applied s u) = u
after t (refused r u) = u
after t thrown = t

abbrev pub IsTerminal : Status → Type 0
IsTerminal s = (s ≡ confirmed) ⊎ (s ≡ failed) ⊎ (s ≡ expired)

pub step_of_IsTerminal :
    (c : Command) (t : Transaction) (now : Clock) → IsTerminal t.status → after t (step c t now) ≡ t
unfolding step
step_of_IsTerminal c t now h = ground arith

abbrev pub IsForward : Clock → Type 0
IsForward now = (n : ℕ) → now n ≤ now (suc n)

-- The status from which each command moves on; `fail` does not look at the clock.
abbrev pub MovesFrom : Command → Status → Type 0
MovesFrom (do_sign signature public_key) s = s ≡ created
MovesFrom do_mark_pending s = s ≡ signed
MovesFrom (do_confirm reference) s = s ≡ pending
MovesFrom do_expire s = (s ≡ created) ⊎ (s ≡ signed) ⊎ (s ≡ pending)
MovesFrom _ s = ⊥

-- With a clock that does not go back, signing, submitting, confirming or expiring a transaction
-- at or after its expiry makes it expired.
pub late_expires :
    (c : Command) (t : Transaction) (now : Clock)
    → IsForward now
    → MovesFrom c t.status
    → t.expires_at ≤ now 0
    → ((after t (step c t now)).status ≡ expired)
      × (step c t now ≡ applied t.status (after t (step c t now)))
unfolding step
late_expires (do_sign signature public_key) t now f p h = ground (arith, f 0)
late_expires do_mark_pending t now f p h = ground (arith, f 0)
late_expires (do_confirm reference) t now f p h = ground (arith, f 0)
late_expires do_expire t now f p h = ground arith
late_expires (do_fail code reason) t now f p h = absurd p

pub step_confirmed_in_time :
    (c : Command) (t : Transaction) (now : Clock) {s : Status} {u : Transaction}
    → step c t now ≡ applied s u
    → u.status ≡ confirmed
    → now 0 < t.expires_at
unfolding step
step_confirmed_in_time c t now h k = ground arith
