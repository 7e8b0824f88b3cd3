-- ===== src/Tests/Wallet.antt =====
-- The transaction pipeline at concrete inputs (src/economy/Wallet).
use synpeer.Prelude.{
  ℕ, ◌+◌, ◌<◌, ◌≡◌, refl, inl, String, none, some, List, [], ◌∷◌, Bool, true, false, arith, eq_iff,
}
use mathlib.Core.Bool.{false≢true}
use Prim.Native.Nat.{Ordering}
use Prim.Native.String.{compare}
use synpeer.Prelude.Int.{pos}
use synpeer.Dict.{get, has, put}
use synpeer.Wallet.Transaction.{
  created, signed, pending, confirmed, Transaction, finite, transfer, Payload, is_blank,
}
use synpeer.Wallet.Create.{CreateInput, IdInput, create, create-ok, ok, IsValidInput}
use synpeer.Wallet.StateMachine.{
  Clock, Command, do_sign, do_mark_pending, do_confirm, do_fail, step,
}
use synpeer.Wallet.StateMachine.Lifecycle.{statuses}
use synpeer.Wallet.StateMachine.Runs.{
  run, IsFresh, Trail, run-Trail, run_confirmed_path, run_of_IsTerminal,
}
use synpeer.Wallet.StateMachine.Shape.{IsShaped, run-IsShaped}
use synpeer.Wallet.ReplayProtector.{empty, admit, check}
use synpeer.Wallet.ReplayProtector.Order.{let_through, IsOrdered, let_through-IsOrdered}
use synpeer.Wallet.ReplayProtector.Complete.{let_through-empty}
use synpeer.Wallet.ReplayProtector.Snapshot.{
  admit-IsWellKeyed, check-restored, export_snapshot, import_snapshot,
}

abbrev order : CreateInput
order = record {
  type = transfer;
  sender_id = "alice";
  recipient_id = "bob";
  amount = finite (pos 5);
  fee = none;
  description = none;
  created_at = 100;
  expires_at = 200;
  nonce = "n1";
  sequence = 1;
}

abbrev payload_hash_of : Payload → String
payload_hash_of p = "hash"

abbrev id_of : IdInput → String
id_of i = "tx_1"

abbrev made : Transaction
made = record {
  id = "tx_1";
  type = transfer;
  sender_id = "alice";
  recipient_id = "bob";
  created_at = 100;
  expires_at = 200;
  nonce = "n1";
  sequence = 1;
  payload = record { amount = finite (pos 5); fee = finite (pos 0); description = none };
  payload_hash = "hash";
  history = record { status = created; at = 100; reason = none } ∷ [];
  status = created;
  signature = none;
  public_key = none;
  signed_at = none;
  submitted_at = none;
  confirmed_at = none;
  confirmation_reference = none;
  failure = none;
  expired_at = none;
}

order_succeeds : create payload_hash_of id_of order ≡ ok made
unfolding create
order_succeeds = refl

create-ok_example :
    IsValidInput order × IsFresh made × IsShaped made × (made.created_at < made.expires_at)
create-ok_example = create-ok payload_hash_of id_of order order_succeeds

abbrev ticking : ℕ → Clock
ticking k n = k + n

abbrev settling : List (Command × Clock)
settling =
    (do_sign "sig" none, ticking 110)
    ∷ (do_mark_pending, ticking 120)
    ∷ (do_confirm (some "local"), ticking 130)
    ∷ (do_fail "x" "y", ticking 140)
    ∷ []

settled : (run made settling).status ≡ confirmed
unfolding run step is_blank
settled = refl

run-Trail_example : Trail (statuses (run made settling).history) (run made settling).status
run-Trail_example = run-Trail made settling (refl, refl)

run_confirmed_path_example :
    statuses (run made settling).history ≡ created ∷ signed ∷ pending ∷ confirmed ∷ []
run_confirmed_path_example = run_confirmed_path made settling (refl, refl) settled

run-IsShaped_example : IsShaped (run made settling)
run-IsShaped_example = run-IsShaped made settling (refl, refl, refl, refl, refl)

run_of_IsTerminal_example : run (run made settling) settling ≡ run made settling
run_of_IsTerminal_example = run_of_IsTerminal (run made settling) settling (inl settled)

abbrev signing_call : Command
signing_call = do_sign "sig" none

abbrev at_pending : Transaction
at_pending = record made { status = pending }

-- An order of strings for the snapshots.
abbrev by_code : String → String → Bool
by_code a b = elim (compare a b) [ Ordering.gt ↦ false | _ ↦ true ]

abbrev second : Transaction
second = record made { id = "tx_2"; nonce = "n2"; sequence = 2 }

abbrev stale : Transaction
stale = record made { id = "tx_3"; nonce = "n3"; sequence = 1 }

let_through_run : let_through empty (made ∷ made ∷ second ∷ stale ∷ []) ≡ made ∷ second ∷ []
unfolding let_through admit check empty get has put
let_through_run = refl

let_through-IsOrdered_example : IsOrdered (let_through empty (made ∷ made ∷ second ∷ stale ∷ []))
let_through-IsOrdered_example = let_through-IsOrdered empty (made ∷ made ∷ second ∷ stale ∷ [])

let_through-empty_example : let_through empty (made ∷ second ∷ []) ≡ made ∷ second ∷ []
let_through-empty_example = let_through-empty (made ∷ second ∷ []) (
  (
    (
      λ e. false≢true ((eq_iff "tx_1" "tx_2").1 e),
      λ s. (λ e. false≢true ((eq_iff "n1" "n2").1 e), omega arith),
    ),
    tt,
  ),
  (tt, tt),
)

check-restored_example :
    check
      (import_snapshot by_code by_code empty (export_snapshot by_code by_code (admit empty made).0))
      stale
    ≡ check (admit empty made).0 stale
unfolding empty
check-restored_example =
    check-restored by_code by_code (admit empty made).0 empty stale
      (admit-IsWellKeyed empty made (tt, tt))
