-- ===== src/Wallet/StateMachine/Runs.antt =====
-- What holds after any sequence of calls, each at its own clock readings.
use synpeer.Prelude.{◌≡◌, refl, sym, subst, List, [], ◌∷◌, ◌++◌}
use synpeer.Wallet.Transaction.{Status, created, signed, pending, confirmed, Transaction}
use synpeer.Wallet.StateMachine.{Clock, TransitionResult, applied, refused, thrown, Command, step}
use synpeer.Wallet.StateMachine.Lifecycle.{
  ◌⟶◌, signing, submitting, confirming, failing_created, failing_signed, failing_pending,
  expiring_created, expiring_signed, expiring_pending, step-⟶, step-refused_unchanged,
  step-statuses, after, statuses, IsTerminal, step_of_IsTerminal,
}

unfoldable pub run : Transaction → List (Command × Clock) → Transaction
run t [] = t
run t ((c, now) ∷ cs) = run (after t (step c t now)) cs

-- The statuses of a history, oldest first, as a path of the diagram from `created`.
pub data Trail : List Status → Status → Type 0 where
  start : Trail (created ∷ []) created
  extend : {l m : List Status} {s r : Status} → Trail l s → s ⟶ r → m ≡ l ++ r ∷ [] → Trail m r

abbrev pub IsAudited : Transaction → Type 0
IsAudited t = Trail (statuses t.history) t.status

IsAudited-applied :
    (c : Command) (t u : Transaction) (now : Clock) {s : Status}
    → step c t now ≡ applied s u
    → IsAudited t
    → IsAudited u
IsAudited-applied c t u now h a = extend a (step-⟶ c t now h).1 (step-statuses c t now h)

after-IsAudited :
    (c : Command) (t : Transaction) (now : Clock) (r : TransitionResult)
    → step c t now ≡ r
    → IsAudited t
    → IsAudited (after t r)
after-IsAudited c t now (applied s u) h a = IsAudited-applied c t u now h a
after-IsAudited c t now (refused r u) h a =
    subst IsAudited (sym (step-refused_unchanged c t now h)) a
after-IsAudited c t now thrown h a = a

pub run-IsAudited :
    (t : Transaction) (cs : List (Command × Clock)) → IsAudited t → IsAudited (run t cs)
unfolding run
run-IsAudited t [] a = a
run-IsAudited t ((c, now) ∷ cs) a =
    run-IsAudited (after t (step c t now)) cs (after-IsAudited c t now (step c t now) refl a)

-- A confirmed, failed or expired transaction is never changed again.
pub run_of_IsTerminal :
    (t : Transaction) (cs : List (Command × Clock)) → IsTerminal t.status → run t cs ≡ t
unfolding run
run_of_IsTerminal t [] h = refl
run_of_IsTerminal t ((c, now) ∷ cs) h = rw (step_of_IsTerminal c t now h) (run_of_IsTerminal t cs h)

-- The one path of the diagram to each status that is not `failed` or `expired`.
abbrev Straight : Status → List Status → Type 0
Straight created l = l ≡ created ∷ []
Straight signed l = l ≡ created ∷ signed ∷ []
Straight pending l = l ≡ created ∷ signed ∷ pending ∷ []
Straight confirmed l = l ≡ created ∷ signed ∷ pending ∷ confirmed ∷ []
Straight _ l = Unit

Straight-⟶ :
    {s r : Status} (l m : List Status) → s ⟶ r → Straight s l → m ≡ l ++ r ∷ [] → Straight r m
Straight-⟶ l m signing h e = rw h at e
Straight-⟶ l m submitting h e = rw h at e
Straight-⟶ l m confirming h e = rw h at e
Straight-⟶ l m failing_created h e = tt
Straight-⟶ l m failing_signed h e = tt
Straight-⟶ l m failing_pending h e = tt
Straight-⟶ l m expiring_created h e = tt
Straight-⟶ l m expiring_signed h e = tt
Straight-⟶ l m expiring_pending h e = tt

Trail-Straight : {l : List Status} {s : Status} → Trail l s → Straight s l
Trail-Straight start = refl
Trail-Straight (extend {l = l} {m = m} a k e) = Straight-⟶ l m k (Trail-Straight a) e

-- A transaction that `createCanonicalTransaction` has just made.
abbrev pub IsFresh : Transaction → Type 0
IsFresh t = (t.status ≡ created) × (statuses t.history ≡ created ∷ [])

fresh-IsAudited : (t : Transaction) → IsFresh t → IsAudited t
fresh-IsAudited t (s, h) =
    subst (λ l. Trail l t.status) (sym h) (subst (Trail (created ∷ [])) (sym s) start)

-- After any calls on a fresh transaction, the statuses of its history are a path of the lifecycle
-- diagram from created to its present status.
pub run-Trail :
    (t : Transaction) (cs : List (Command × Clock))
    → IsFresh t
    → Trail (statuses (run t cs).history) (run t cs).status
run-Trail t cs f = run-IsAudited t cs (fresh-IsAudited t f)

-- A transaction that ends confirmed has been created, signed and pending before, in this order
-- and nothing else.
pub run_confirmed_path :
    (t : Transaction) (cs : List (Command × Clock))
    → IsFresh t
    → (run t cs).status ≡ confirmed
    → statuses (run t cs).history ≡ created ∷ signed ∷ pending ∷ confirmed ∷ []
run_confirmed_path t cs f h =
    subst (λ s. Straight s (statuses (run t cs).history)) h (Trail-Straight (run-Trail t cs f))
