-- ===== src/Wallet/StateMachine.antt =====
-- src/economy/Wallet/TransactionStateMachine.ts. Each method reads the clock several times; `now`
-- gives the readings of one call in their order, so a clock that moves during a call is covered.
pub mod Lifecycle
pub mod Runs
pub mod Shape
use synpeer.Prelude.{
  ℕ, zero, suc, ◌+◌, String, Option, none, some, List, [], ◌∷◌, ◌++◌, Bool, true, false, ◌==◌, ◌&&◌,
  leb, if◌then◌else◌, ◌≡◌,
}
use synpeer.Wallet.Transaction.{
  Status, created, signed, pending, confirmed, failed, expired, Failure, HistoryEntry, Transaction,
  is_blank, same_option,
}

pub data Refusal : Type 0 where
  already_applied invalid_transition conflict is_expired : Refusal

-- `thrown` is the AppError of a blank signature.
pub data TransitionResult : Type 0 where
  applied : Status → Transaction → TransitionResult
  refused : Refusal → Transaction → TransitionResult
  thrown : TransitionResult

abbrev pub Clock : Type 0
Clock = ℕ → ℕ

-- The readings that are left after the first `k`.
abbrev pub later : ℕ → Clock → Clock
later k now n = now (k + n)

unfoldable pub append_history : Transaction → Status → ℕ → Option String → List HistoryEntry
append_history t status at reason =
    t.history ++ record { status = status; at = at; reason = reason } ∷ []

-- private isExpired
abbrev pub is_past : Transaction → ℕ → Bool
is_past t at = leb t.expires_at at

expire_live : Transaction → Clock → TransitionResult
unfolding append_history
expire_live t now =
    if is_past t (now 0)
    then applied t.status (record t {
      status = expired;
      expired_at = some (now 1);
      history = append_history t expired (now 2) none;
    })
    else refused invalid_transition t

expire_at : Status → Transaction → Clock → TransitionResult
unfolding expire_live
expire_at expired t now = refused already_applied t
expire_at confirmed t now = refused invalid_transition t
expire_at failed t now = refused invalid_transition t
expire_at created t now = expire_live t now
expire_at signed t now = expire_live t now
expire_at pending t now = expire_live t now

unfoldable pub expire : Transaction → Clock → TransitionResult
unfolding expire_at
expire t now = expire_at t.status t now

sign_at : Status → Transaction → String → Option String → Clock → TransitionResult
unfolding expire append_history
sign_at signed t signature public_key now = refused already_applied t
sign_at created t signature public_key now =
    if is_past t (now 0)
    then expire t (later 1 now)
    else if is_blank signature
    then thrown
    else applied t.status (record t {
      status = signed;
      signature = some signature;
      public_key = public_key;
      signed_at = some (now 1);
      history = append_history t signed (now 2) none;
    })
sign_at pending t signature public_key now = refused invalid_transition t
sign_at confirmed t signature public_key now = refused invalid_transition t
sign_at failed t signature public_key now = refused invalid_transition t
sign_at expired t signature public_key now = refused invalid_transition t

unfoldable pub sign : Transaction → String → Option String → Clock → TransitionResult
unfolding sign_at
sign t signature public_key now = sign_at t.status t signature public_key now

mark_pending_at : Status → Transaction → Clock → TransitionResult
unfolding expire append_history
mark_pending_at pending t now = refused already_applied t
mark_pending_at signed t now =
    if is_past t (now 0)
    then expire t (later 1 now)
    else applied t.status (record t {
      status = pending;
      submitted_at = some (now 1);
      history = append_history t pending (now 2) none;
    })
mark_pending_at created t now = refused invalid_transition t
mark_pending_at confirmed t now = refused invalid_transition t
mark_pending_at failed t now = refused invalid_transition t
mark_pending_at expired t now = refused invalid_transition t

unfoldable pub mark_pending : Transaction → Clock → TransitionResult
unfolding mark_pending_at
mark_pending t now = mark_pending_at t.status t now

confirm_at : Status → Transaction → Option String → Clock → TransitionResult
unfolding expire append_history
confirm_at confirmed t reference now =
    if same_option t.confirmation_reference reference
    then refused already_applied t
    else refused conflict t
confirm_at expired t reference now = refused is_expired t
confirm_at pending t reference now =
    if is_past t (now 0)
    then expire t (later 1 now)
    else applied t.status (record t {
      status = confirmed;
      confirmed_at = some (now 1);
      confirmation_reference = reference;
      history = append_history t confirmed (now 2) none;
    })
confirm_at created t reference now = refused invalid_transition t
confirm_at signed t reference now = refused invalid_transition t
confirm_at failed t reference now = refused invalid_transition t

unfoldable pub confirm : Transaction → Option String → Clock → TransitionResult
unfolding confirm_at
confirm t reference now = confirm_at t.status t reference now

-- `transaction.failure.code === code && transaction.failure.reason === reason`
same_failure : Option Failure → String → String → Bool
same_failure none code reason = false
same_failure (some f) code reason = f.code == code && f.reason == reason

fail_live : Transaction → String → String → Clock → TransitionResult
unfolding append_history
fail_live t code reason now = applied t.status (record t {
  status = failed;
  failure = some (record { code = code; reason = reason; failed_at = now 0 });
  history = append_history t failed (now 1) (some reason);
})

fail_at : Status → Transaction → String → String → Clock → TransitionResult
unfolding same_failure fail_live
fail_at failed t code reason now =
    if same_failure t.failure code reason then refused already_applied t else refused conflict t
fail_at confirmed t code reason now = refused invalid_transition t
fail_at expired t code reason now = refused invalid_transition t
fail_at created t code reason now = fail_live t code reason now
fail_at signed t code reason now = fail_live t code reason now
fail_at pending t code reason now = fail_live t code reason now

unfoldable pub fail : Transaction → String → String → Clock → TransitionResult
unfolding fail_at
fail t code reason now = fail_at t.status t code reason now

-- The public methods as values.
pub data Command : Type 0 where
  do_sign : String → Option String → Command
  do_mark_pending : Command
  do_confirm : Option String → Command
  do_fail : String → String → Command
  do_expire : Command

unfoldable pub step : Command → Transaction → Clock → TransitionResult
unfolding sign mark_pending confirm fail expire
step (do_sign signature public_key) t now = sign t signature public_key now
step do_mark_pending t now = mark_pending t now
step (do_confirm reference) t now = confirm t reference now
step (do_fail code reason) t now = fail t code reason now
step do_expire t now = expire t now
