-- ===== src/Security/ReplayProtection/Nonces.antt =====
-- On messages that bring a nonce again.
use synpeer.Prelude.{
  ℕ, ◌+◌, ◌≤◌, ◌<◌, ◌≡◌, ◌↔◌, ◌⊎◌, inl, inr, refl, String, none, some, List, [], ◌∷◌, true, false,
  arith, ltb→lt, eq_iff, eq_refl, Bool-cases, ◌∙◌,
}
use synpeer.Dict.{get}
use synpeer.Dict.Laws.{get-put}
use synpeer.Security.ReplayProtection.{
  Metadata, Guard, nonce_key, is_old, is_valid_message, cleanup_old_messages, start, stop,
}
use synpeer.Security.ReplayProtection.Once.{
  Event, receive, sweep, started, stopped, react, replay, IsMonotone, get-retain, max_age-receive,
}

-- At time `now` the nonce is on record with the time `t`, or that time is too old.
abbrev Keeps : String → ℕ → Guard → ℕ → Type 0
Keeps key t g now = (get g.nonce_history key ≡ some t) ⊎ (t + g.max_age < now)

nonce-receive :
    (g : Guard) (at : ℕ) (n : Metadata) (key : String) (t : ℕ)
    → 0 < t
    → get g.nonce_history key ≡ some t
    → get (is_valid_message g at n).0.nonce_history key ≡ some t
unfolding is_valid_message
nonce-receive g at n key t p h =
    ground (arith, get-put g.nonce_history (nonce_key n) n.timestamp key, eq_iff (nonce_key n) key)

receive-Keeps :
    (key : String) (t : ℕ) (n : Metadata) (g : Guard) (at : ℕ)
    → 0 < t
    → Keeps key t g at
    → Keeps key t (is_valid_message g at n).0 at
receive-Keeps key t n g at p (inl e) = inl (nonce-receive g at n key t p e)
receive-Keeps key t n g at p (inr h) = inr (omega (arith, max_age-receive g at n))

sweep-Keeps :
    (key : String) (t : ℕ) (g : Guard) (at : ℕ)
    → Keeps key t g at
    → Keeps key t (cleanup_old_messages g at) at
unfolding cleanup_old_messages
sweep-Keeps key t g at (inl e) = elim (Bool-cases (is_old g.max_age at t)) [
  | inl old ↦ inr (ltb→lt (t + g.max_age) at old)
  | inr young ↦ inl (get-retain _ g.nonce_history key t e young)
]
sweep-Keeps key t g at (inr h) = inr h

react-Keeps :
    (key : String) (t : ℕ) (g : Guard) (at : ℕ) (e : Event)
    → 0 < t
    → Keeps key t g at
    → Keeps key t (react g at e) at
unfolding react start stop
react-Keeps key t g at (receive n) p h = receive-Keeps key t n g at p h
react-Keeps key t g at sweep p h = sweep-Keeps key t g at h
react-Keeps key t g at started p h = h
react-Keeps key t g at stopped p h = h

Keeps-later :
    (key : String) (t : ℕ) (g : Guard) {now at : ℕ}
    → now ≤ at
    → Keeps key t g now
    → Keeps key t g at
Keeps-later key t g le (inl h) = inl h
Keeps-later key t g le (inr h) = inr (omega arith)

replay-Keeps :
    (key : String) (t : ℕ) (g : Guard) (now : ℕ) (es : List (ℕ × Event))
    → 0 < t
    → IsMonotone now es
    → Keeps key t g now
    → Keeps key t (replay g now es).0 (replay g now es).1
unfolding replay
replay-Keeps key t g now [] p o h = h
replay-Keeps key t g now ((at, e) ∷ es) p o h =
    replay-Keeps key t (react g at e) at es p o.1
      (react-Keeps key t g at e p (Keeps-later key t g o.0 h))

max_age-replay :
    (g : Guard) (now : ℕ) (es : List (ℕ × Event)) → (replay g now es).0.max_age ≡ g.max_age
unfolding replay react cleanup_old_messages start stop
max_age-replay g now [] = refl
max_age-replay g now ((at, receive m) ∷ es) =
    max_age-replay (is_valid_message g at m).0 at es ∙ max_age-receive g at m
max_age-replay g now ((at, sweep) ∷ es) = max_age-replay (cleanup_old_messages g at) at es
max_age-replay g now ((at, started) ∷ es) = max_age-replay (start g) at es
max_age-replay g now ((at, stopped) ∷ es) = max_age-replay (stop g) at es

Keeps-rejects :
    (n : Metadata) (t : ℕ) (g : Guard) (now : ℕ)
    → 0 < t
    → now ≤ t + g.max_age
    → Keeps (nonce_key n) t g now
    → (is_valid_message g now n).1 ≡ false
unfolding is_valid_message
Keeps-rejects n t g now p le (inl e) = ground (arith, e)
Keeps-rejects n t g now p le (inr h) = absurd (omega arith)

nonce-accepted :
    (m : Metadata) (g : Guard) (now : ℕ)
    → (is_valid_message g now m).1 ≡ true
    → get (is_valid_message g now m).0.nonce_history (nonce_key m) ≡ some m.timestamp
unfolding is_valid_message
nonce-accepted m g now h =
    ground (
      arith,
      get-put g.nonce_history (nonce_key m) m.timestamp (nonce_key m),
      eq_refl (nonce_key m),
    )

-- A second message of a peer with a nonce that was taken is refused while the first is within the
-- maximum age, if the first has a timestamp other than 0.
pub nonce_taken_once :
    (m n : Metadata) (g : Guard) (now : ℕ) (es : List (ℕ × Event)) (at : ℕ)
    → nonce_key n ≡ nonce_key m
    → (is_valid_message g now m).1 ≡ true
    → 0 < m.timestamp
    → IsMonotone now es
    → (replay (is_valid_message g now m).0 now es).1 ≤ at
    → at ≤ m.timestamp + g.max_age
    → (is_valid_message (replay (is_valid_message g now m).0 now es).0 at n).1 ≡ false
nonce_taken_once m n g now es at k h p o le young =
    let (last, time) = replay (is_valid_message g now m).0 now es in
    Keeps-rejects n m.timestamp last at p
      (omega (arith, max_age-replay (is_valid_message g now m).0 now es, max_age-receive g now m))
      (rw k (
        Keeps-later (nonce_key m) m.timestamp last le (
          replay-Keeps (nonce_key m) m.timestamp (is_valid_message g now m).0 now es p o
            (inl (nonce-accepted m g now h)))))

-- When a message with the timestamp 0 has been taken, a message of the same peer with the same
-- nonce that comes next is taken exactly if it is within the maximum age and its id is not
-- stored: the nonce is not looked at.
pub nonce_zero_reused :
    (m n : Metadata) (g : Guard) (now at : ℕ)
    → m.timestamp ≡ 0
    → nonce_key n ≡ nonce_key m
    → (is_valid_message g now m).1 ≡ true
    → ((is_valid_message (is_valid_message g now m).0 at n).1 ≡ true) ↔ (
        (at ≤ n.timestamp + g.max_age)
        × (get (is_valid_message g now m).0.message_history n.message_id ≡ none))
unfolding is_valid_message
nonce_zero_reused m n g now at z k h = ground (
  arith,
  h,
  get-put g.nonce_history (nonce_key m) m.timestamp (nonce_key n),
  k,
  z,
  eq_refl (nonce_key m),
)
