-- ===== src/Offline/Settling.antt =====
-- On the items of the queue, round after round.
use synpeer.Prelude.{
  ℕ, ◌+◌, ◌≤◌, ◌<◌, String, ◌≡◌, refl, List, [], ◌∷◌, Bool, true, false, ◌||◌, max, arith, length,
  subst, suc, ap, ◌∙◌, if◌then◌else◌,
}
use synpeer.Dict.{Dict, keys}
use synpeer.Dict.Each.{Each}
use synpeer.Offline.{
  Status, pending, sending, confirmed, failed, Config, Item, Queue, Answers, backoff, sent,
  process_item, is_pending, is_due, process_entries, process_queue,
}

-- Neither confirmed nor failed, after a number of rounds; due by a time.
abbrev pub is_settled : Status → Bool
is_settled confirmed = true
is_settled failed = true
is_settled pending = false
is_settled sending = false

record Progress (c : Config) (rounds by : ℕ) (i : Item) : Type 0 where
  settled : is_settled i.status || is_pending i.status ≡ true
  tried : is_pending i.status ≡ true → rounds ≤ i.attempts
  due : is_pending i.status ≡ true → i.next_attempt ≤ by
  left : is_pending i.status ≡ true → i.attempts < max 1 c.max_retries

backoff_le : (c : Config) (n : ℕ) → backoff c n ≤ c.max_backoff
unfolding backoff
backoff_le c n = omega arith

process_item-Progress :
    (c : Config) (handlers : Dict (Unit {0})) (answer : Answers) (start finish rounds by : ℕ)
    (now : ℕ → ℕ) (i : Item)
    → by ≤ start
    → ((n : ℕ) → now n ≤ finish)
    → Progress c rounds by i
    → Progress c
        (rounds + 1)
        (finish + c.max_backoff)
        (if is_due start i then process_item c handlers answer now i else i)
unfolding process_item is_due sent
process_item-Progress c handlers answer start finish rounds by now i b n p =
    ground (arith, p.settled, p.tried, p.due, p.left, n 1, backoff_le c (i.attempts + 1), b)

process_entries-Progress :
    (c : Config) (handlers : Dict (Unit {0})) (answer : Answers) (start finish rounds by : ℕ)
    (now : String → ℕ → ℕ) (d : Dict Item)
    → by ≤ start
    → ((k : String) (n : ℕ) → now k n ≤ finish)
    → Each (Progress c rounds by) d
    → Each
        (Progress c (rounds + 1) (finish + c.max_backoff))
        (process_entries c handlers answer start now d)
unfolding process_entries
process_entries-Progress c handlers answer start finish rounds by now [] b n h = tt
process_entries-Progress c handlers answer start finish rounds by now ((k, i) ∷ d) b n h = (
  process_item-Progress c handlers answer start finish rounds by (now k) i b (n k) h.0,
  process_entries-Progress c handlers answer start finish rounds by now d b n h.1,
)

-- A round: when it starts, the readings of the clock in it, and a time by which it has ended.
pub record Round : Type 0 where
  pub start : ℕ
  pub now : String → ℕ → ℕ
  pub finish : ℕ

-- The first round starts when all is due, and each waits for the longest backoff after the one before.
pub record IsRound (by : ℕ) (r : Round) : Type 0 where
  pub late : by ≤ r.start
  pub ends : (k : String) (n : ℕ) → r.now k n ≤ r.finish

abbrev pub IsSpaced : ℕ → ℕ → List Round → Type 0
IsSpaced pause by [] = Unit
IsSpaced pause by (r ∷ rs) = IsRound by r × IsSpaced pause (r.finish + pause) rs

unfoldable pub process_rounds : Queue → Answers → List Round → Queue
process_rounds q answer [] = q
process_rounds q answer (r ∷ rs) = process_rounds (process_queue q answer r.start r.now) answer rs

abbrev last_due : ℕ → ℕ → List Round → ℕ
last_due pause by [] = by
last_due pause by (r ∷ rs) = last_due pause (r.finish + pause) rs

process_rounds-Progress :
    (q : Queue) (answer : Answers) (rs : List Round) (rounds by : ℕ)
    → IsSpaced q.config.max_backoff by rs
    → Each (Progress q.config rounds by) q.items
    → Each
        (Progress q.config (length rs + rounds) (last_due q.config.max_backoff by rs))
        (process_rounds q answer rs).items
unfolding process_rounds process_queue
process_rounds-Progress q answer [] rounds by s h =
    let e : rounds ≡ 0 + rounds = omega arith in
    subst (λ m. Each (Progress q.config m by) q.items) e h
process_rounds-Progress q answer (r ∷ rs) rounds by s h =
    let q' = process_queue q answer r.start r.now in
    let e : length rs + (rounds + 1) ≡ suc (length rs) + rounds = omega arith in
    subst
      (λ m.
        Each (Progress q.config m (last_due q.config.max_backoff by (r ∷ rs)))
          (process_rounds q' answer rs).items)
      e
      (process_rounds-Progress q' answer rs (rounds + 1) (r.finish + q.config.max_backoff) s.1 (
        process_entries-Progress q.config q.handlers answer r.start r.finish rounds by r.now q.items
          s.0.late s.0.ends h))

-- An item before the rounds: settled, or pending, due by a time and with an attempt left.
pub record IsWaiting (c : Config) (by : ℕ) (i : Item) : Type 0 where
  pub known : is_settled i.status || is_pending i.status ≡ true
  pub due : is_pending i.status ≡ true → i.next_attempt ≤ by
  pub left : is_pending i.status ≡ true → i.attempts < max 1 c.max_retries

abbrev pub IsSettled : Item → Type 0
IsSettled i = is_settled i.status ≡ true

waiting-Progress :
    (c : Config) (by : ℕ) (d : Dict Item) → Each (IsWaiting c by) d → Each (Progress c 0 by) d
waiting-Progress c by [] h = tt
waiting-Progress c by ((k, i) ∷ d) h = (
  record { settled = h.0.known; tried = λ p. omega arith; due = h.0.due; left = h.0.left },
  waiting-Progress c by d h.1,
)

Progress-IsSettled :
    (c : Config) (rounds by : ℕ) (d : Dict Item)
    → max 1 c.max_retries ≤ rounds
    → Each (Progress c rounds by) d
    → Each IsSettled d
Progress-IsSettled c rounds by [] m h = tt
Progress-IsSettled c rounds by ((k, i) ∷ d) m h =
    (ground (arith, h.0.settled, h.0.tried, h.0.left, m), Progress-IsSettled c rounds by d m h.1)

keys-process_entries :
    (c : Config) (handlers : Dict (Unit {0})) (answer : Answers) (start : ℕ) (now : String → ℕ → ℕ)
    (d : Dict Item)
    → keys (process_entries c handlers answer start now d) ≡ keys d
unfolding process_entries keys
keys-process_entries c handlers answer start now [] = refl
keys-process_entries c handlers answer start now ((k, i) ∷ d) =
    ap (◌∷◌ k) (keys-process_entries c handlers answer start now d)

keys-process_rounds :
    (q : Queue) (answer : Answers) (rs : List Round)
    → keys (process_rounds q answer rs).items ≡ keys q.items
unfolding process_rounds process_queue
keys-process_rounds q answer [] = refl
keys-process_rounds q answer (r ∷ rs) =
    keys-process_rounds (process_queue q answer r.start r.now) answer rs
    ∙ keys-process_entries q.config q.handlers answer r.start r.now q.items

-- If every item is settled or pending, due and with an attempt left, then after as many rounds as
-- there are attempts, each starting the longest backoff after the one before, every item is
-- confirmed or failed and none is lost, whatever the handlers answer.
pub rounds_finish :
    (q : Queue) (answer : Answers) (rs : List Round) (by : ℕ)
    → max 1 q.config.max_retries ≤ length rs
    → IsSpaced q.config.max_backoff by rs
    → Each (IsWaiting q.config by) q.items
    → Each IsSettled (process_rounds q answer rs).items
      × (keys (process_rounds q answer rs).items ≡ keys q.items)
rounds_finish q answer rs by m s h = (
  Progress-IsSettled q.config (length rs + 0) (last_due q.config.max_backoff by rs)
      (process_rounds q answer rs).items (omega (arith, m))
      (process_rounds-Progress q answer rs 0 by s (waiting-Progress q.config by q.items h)),
  keys-process_rounds q answer rs,
)
