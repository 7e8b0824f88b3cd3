-- ===== src/Security/ReplayProtection/Once.antt =====
-- On taking a message again, after other messages and sweeps.
use synpeer.Prelude.{
  ℕ, ◌+◌, ◌≤◌, ◌<◌, ◌≡◌, ◌⊎◌, inl, inr, refl, String, none, some, List, [], ◌∷◌, Bool, true, false,
  arith, ltb→lt, ◌↔◌, eq_iff, eq_refl, Bool-cases,
}
use synpeer.Dict.{Dict, get}
use synpeer.Dict.Laws.{get-put}
use synpeer.Security.ReplayProtection.{
  Metadata, Guard, nonce_key, is_old, is_valid_message, retain, cleanup_old_messages, start, stop,
}

-- What happens to a guard, each at its time.
pub data Event : Type 0 where
  receive : Metadata → Event
  sweep : Event
  started : Event
  stopped : Event

unfoldable pub react : Guard → ℕ → Event → Guard
react g now (receive m) = (is_valid_message g now m).0
react g now sweep = cleanup_old_messages g now
react g now started = start g
react g now stopped = stop g

-- The guard after the events, and the time of the last.
unfoldable pub replay : Guard → ℕ → List (ℕ × Event) → Guard × ℕ
replay g now [] = (g, now)
replay g now ((at, e) ∷ es) = replay (react g at e) at es

abbrev pub IsMonotone : ℕ → List (ℕ × Event) → Type 0
IsMonotone now [] = Unit
IsMonotone now ((at, e) ∷ es) = (now ≤ at) × IsMonotone at es

pub get-retain {ℓ} :
    {V : Type ℓ} (old : V → Bool) (d : Dict V) (k : String) (v : V)
    → get d k ≡ some v
    → old v ≡ false
    → get (retain old d) k ≡ some v
unfolding get retain
get-retain old [] k v h o = cc
get-retain old ((j, w) ∷ d) k v h o = ground (arith, get-retain old d k v)

-- At time `now` the guard has the message on record, or the message is too old for good.
abbrev Holds : Metadata → Guard → ℕ → Type 0
Holds m g now =
    ((w : Metadata) × (get g.message_history m.message_id ≡ some w) × (w.timestamp ≡ m.timestamp))
    ⊎ (m.timestamp + g.max_age < now)

Holds-later : (m : Metadata) (g : Guard) {now at : ℕ} → now ≤ at → Holds m g now → Holds m g at
Holds-later m g le (inl h) = inl h
Holds-later m g le (inr h) = inr (omega arith)

pub max_age-receive :
    (g : Guard) (at : ℕ) (n : Metadata) → (is_valid_message g at n).0.max_age ≡ g.max_age
unfolding is_valid_message
max_age-receive g at n = ground arith

-- What is on record stays there when a message arrives.
message-receive :
    (g : Guard) (at : ℕ) (n : Metadata) (k : String) (w : Metadata)
    → get g.message_history k ≡ some w
    → get (is_valid_message g at n).0.message_history k ≡ some w
unfolding is_valid_message
message-receive g at n k w h =
    ground (arith, get-put g.message_history n.message_id n k, eq_iff n.message_id k)

receive-Holds :
    (m n : Metadata) (g : Guard) (at : ℕ) → Holds m g at → Holds m (is_valid_message g at n).0 at
receive-Holds m n g at (inl (w, e, t)) = inl (w, message-receive g at n m.message_id w e, t)
receive-Holds m n g at (inr h) = inr (omega (arith, max_age-receive g at n))

sweep-Holds :
    (m : Metadata) (g : Guard) (at : ℕ) → Holds m g at → Holds m (cleanup_old_messages g at) at
unfolding cleanup_old_messages
sweep-Holds m g at (inl (w, e, t)) = elim (Bool-cases (is_old g.max_age at w.timestamp)) [
  | inl old ↦ inr (omega (arith, ltb→lt (w.timestamp + g.max_age) at old, t))
  | inr young ↦ inl (w, get-retain _ g.message_history m.message_id w e young, t)
]
sweep-Holds m g at (inr h) = inr h

react-Holds :
    (m : Metadata) (g : Guard) (at : ℕ) (e : Event) → Holds m g at → Holds m (react g at e) at
unfolding react start stop
react-Holds m g at (receive n) h = receive-Holds m n g at h
react-Holds m g at sweep h = sweep-Holds m g at h
react-Holds m g at started h = h
react-Holds m g at stopped h = h

replay-Holds :
    (m : Metadata) (g : Guard) (now : ℕ) (es : List (ℕ × Event))
    → IsMonotone now es
    → Holds m g now
    → Holds m (replay g now es).0 (replay g now es).1
unfolding replay
replay-Holds m g now [] o h = h
replay-Holds m g now ((at, e) ∷ es) o h =
    replay-Holds m (react g at e) at es o.1 (react-Holds m g at e (Holds-later m g o.0 h))

Holds-rejects :
    (m : Metadata) (g : Guard) (now : ℕ) → Holds m g now → (is_valid_message g now m).1 ≡ false
unfolding is_valid_message
Holds-rejects m g now (inl (w, e, t)) = ground (arith, e)
Holds-rejects m g now (inr h) = ground arith

accepted-Holds :
    (m : Metadata) (g : Guard) (now : ℕ)
    → (is_valid_message g now m).1 ≡ true
    → Holds m (is_valid_message g now m).0 now
unfolding is_valid_message
accepted-Holds m g now h = inl (
  m,
  ground (arith, get-put g.message_history m.message_id m m.message_id, eq_refl m.message_id),
  refl,
)

-- A message that isValidMessage took is refused at every later time, whatever messages, sweeps,
-- starts and stops come in between.
pub taken_once :
    (m : Metadata) (g : Guard) (now : ℕ) (es : List (ℕ × Event)) (at : ℕ)
    → (is_valid_message g now m).1 ≡ true
    → IsMonotone now es
    → (replay (is_valid_message g now m).0 now es).1 ≤ at
    → (is_valid_message (replay (is_valid_message g now m).0 now es).0 at m).1 ≡ false
taken_once m g now es at h o le =
    let (last, time) = replay (is_valid_message g now m).0 now es in
    Holds-rejects m last at (
      Holds-later m last le
        (replay-Holds m (is_valid_message g now m).0 now es o (accepted-Holds m g now h)))

-- What a refusal or an acceptance stands for.
pub valid_iff :
    (g : Guard) (now : ℕ) (m : Metadata)
    → ((is_valid_message g now m).1 ≡ true) ↔ (
        (now ≤ m.timestamp + g.max_age)
        × (get g.message_history m.message_id ≡ none)
        × ((get g.nonce_history (nonce_key m) ≡ none)
            ⊎ (get g.nonce_history (nonce_key m) ≡ some 0)))
unfolding is_valid_message
valid_iff g now m = ground arith
