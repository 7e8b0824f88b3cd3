-- ===== src/Media/Scheduler/Order.antt =====
-- On sorting the tasks of a queue, and taking the first.
use synpeer.Prelude.{
  Option, none, some, ◌≡◌, true, false, List, [], ◌∷◌, arith, All, All-mono, ◌⊎◌, ◌≤◌,
}
use synpeer.Prelude.Int.{ltb_ℤ}
use synpeer.Prelude.Sort.{sort}
use synpeer.Prelude.Sorted.{IsSortedBy, sort-IsSortedBy}
use synpeer.Media.Scheduler.{Task, Queue, before, advance}

before_total : (l r : Task) → before l r ≡ false → before r l ≡ true
before_total l r h = ground arith

before_trans : (l m r : Task) → before l m ≡ true → before m r ≡ true → before l r ≡ true
before_trans l m r h k = ground arith

-- The other task has a lower priority, or the same and no earlier sequence number.
abbrev pub IsServedFirst : Task → Task → Type 0
IsServedFirst t u =
    (ltb_ℤ u.priority t.priority ≡ true) ⊎ ((u.priority ≡ t.priority) × (t.sequence ≤ u.sequence))

before-IsServedFirst : (t u : Task) → before t u ≡ true → IsServedFirst t u
before-IsServedFirst t u h = ground (arith, h)

-- The task that is taken, and those that are left.
abbrev pub AreLater : Option Task → List Task → Type 0
AreLater none ts = Unit
AreLater (some t) ts = All (IsServedFirst t) ts

-- No task that is left waiting when one is taken has a higher priority than it, or the same and
-- an earlier sequence number.
pub taken_first :
    (q : Queue)
    → AreLater
        (advance true q (sort before q.tasks)).active_task
        (advance true q (sort before q.tasks)).tasks
unfolding advance
taken_first q = go (sort before q.tasks) (sort-IsSortedBy before before_total before_trans q.tasks)
  where
    go :
        (ts : List Task)
        → IsSortedBy before ts
        → AreLater (advance true q ts).active_task (advance true q ts).tasks
    go [] h = tt
    go (t ∷ ts) h =
        All-mono (λ u. before t u ≡ true) (IsServedFirst t) ts (before-IsServedFirst t) h.0
