-- ===== src/Tests/Offline.antt =====
-- The offline queue at concrete inputs (src/services/offline).
use synpeer.Prelude.{◌≡◌, refl, none, List, [], ◌∷◌, true, false, arith}
use synpeer.Dict.{keys}
use synpeer.Dict.Each.{Each}
use synpeer.Offline.{Queue, Item, Status, Answers}
use synpeer.Offline.Settling.{Round, IsSpaced, IsSettled, process_rounds, rounds_finish}

abbrev message : Item
message = record {
  id = "m";
  operation = "send";
  payload = "hello";
  target_peer = none;
  attempts = 0;
  last_attempt = 0;
  next_attempt = 5;
  status = Status.pending;
  version = "1.0.0";
  updated_at = 5;
  signature = none;
}

-- No handler is registered, so each of the two attempts fails.
abbrev queue : Queue
queue = record {
  config = record {
    max_retries = 2;
    initial_backoff = 10;
    max_backoff = 100;
    backoff_multiplier = 2;
  };
  items = ("m", message) ∷ [];
  handlers = [];
  is_processing = true;
}

abbrev never : Answers
never i = false

abbrev rounds : List Round
rounds =
    record { start = 10; now = λ k n. 11; finish = 20 }
    ∷ record { start = 200; now = λ k n. 205; finish = 210 }
    ∷ []

rounds-IsSpaced : IsSpaced 100 5 rounds
rounds-IsSpaced = (
  record { late = omega arith; ends = λ k n. omega arith },
  (record { late = omega arith; ends = λ k n. omega arith }, tt),
)

rounds_finish_example :
    Each IsSettled (process_rounds queue never rounds).items
    × (keys (process_rounds queue never rounds).items ≡ keys queue.items)
rounds_finish_example =
    rounds_finish queue never rounds 5 (omega arith) rounds-IsSpaced
      (record { known = refl; due = λ p. omega arith; left = λ p. omega arith }, tt)
