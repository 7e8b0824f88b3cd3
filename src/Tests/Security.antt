-- ===== src/Tests/Security.antt =====
-- Replay protection and rate limiting at concrete inputs (src/services/security).
use synpeer.Prelude.{
  ◌↔◌, ◌≤◌, ◌+◌, none, ◌≤◌, ◌≡◌, refl, inl, List, [], ◌∷◌, true, false, arith, ℕ, String,
}
use synpeer.Dict.{get, put}
use synpeer.Security.ReplayProtection.{Guard, Metadata, is_valid_message}
use synpeer.Security.ReplayProtection.Once.{Event, receive, sweep, replay, taken_once}
use synpeer.Security.ReplayProtection.Nonces.{nonce_taken_once, nonce_zero_reused}
use synpeer.Security.RateLimiting.{Limiter, record_request, entry_or_new, roll}
use synpeer.Security.RateLimiting.Window.{allowed_to, window_share, rolled}
use synpeer.Security.RateLimiting.Block as Block
use synpeer.Security.RateLimiting.Block.{
  record_request-allowed, IsBlocked, block_holds, over_limit-IsBlocked, request, query,
}

abbrev guard : Guard
guard = record { max_age = 100; message_history = []; nonce_history = []; is_running = true }

abbrev hello : Metadata
hello = record { message_id = "m1"; nonce = "n"; timestamp = 10; peer_id = "p" }

abbrev again : Metadata
again = record { message_id = "m2"; nonce = "n"; timestamp = 30; peer_id = "p" }

abbrev traffic : List (ℕ × Event)
traffic = (20, receive again) ∷ (50, sweep) ∷ (200, sweep) ∷ []

abbrev heard : Guard
heard = (is_valid_message guard 15 hello).0

hello_accepted : (is_valid_message guard 15 hello).1 ≡ true
unfolding is_valid_message get
hello_accepted = refl

taken_once_example : (is_valid_message (replay heard 15 traffic).0 300 hello).1 ≡ false
taken_once_example =
    taken_once hello guard 15 traffic 300 hello_accepted (omega arith)
      (unfold replay in omega arith)

abbrev short_traffic : List (ℕ × Event)
short_traffic = (20, sweep) ∷ []

nonce_taken_once_example : (is_valid_message (replay heard 15 short_traffic).0 40 again).1 ≡ false
nonce_taken_once_example =
    nonce_taken_once hello again guard 15 short_traffic 40 refl hello_accepted (omega arith)
      (omega arith, tt) (unfold replay in omega arith) (omega arith)

abbrev epoch : Metadata
epoch = record hello { timestamp = 0 }

epoch_accepted : (is_valid_message guard 15 epoch).1 ≡ true
unfolding is_valid_message get
epoch_accepted = refl

nonce_zero_reused_example :
    ((is_valid_message (is_valid_message guard 15 epoch).0 20 again).1 ≡ true) ↔ (
      (20 ≤ again.timestamp + guard.max_age)
      × (get (is_valid_message guard 15 epoch).0.message_history again.message_id ≡ none))
nonce_zero_reused_example = nonce_zero_reused epoch again guard 15 20 refl refl epoch_accepted

abbrev limiter : Limiter
limiter = record { max_requests = 2; window_ms = 100; rate_limits = []; is_running = true }

abbrev burst : List (String × ℕ)
burst = ("a", 6) ∷ ("b", 7) ∷ ("a", 8) ∷ ("a", 9) ∷ []

burst_allowed : allowed_to "a" limiter (("a", 5) ∷ burst) ≡ 2
unfolding allowed_to record_request get put
burst_allowed = refl

window_share_example : allowed_to "a" limiter (("a", 5) ∷ burst) ≤ 2
unfolding get
window_share_example = window_share "a" limiter 5 burst (inl refl) (omega arith)

abbrev full : Limiter
full = record limiter {
  rate_limits =
      ("a", record { requests = 1 ∷ 2 ∷ []; window_start = 1; blocked = false; blocked_until = 0 })
      ∷ [];
}

full-IsBlocked : IsBlocked "a" 103 (record_request full 3 "a").0
unfolding rolled roll entry_or_new get
full-IsBlocked = over_limit-IsBlocked "a" full 3 refl (omega arith)

block_holds_example :
    (record_request
      (Block.replay (record_request full 3 "a").0 ((50, request "a") ∷ (60, query "a") ∷ []))
      102
      "a").1.allowed
    ≡ false
block_holds_example =
    block_holds "a" 103 (record_request full 3 "a").0 ((50, request "a") ∷ (60, query "a") ∷ []) 102
      full-IsBlocked (omega arith) (omega arith)
