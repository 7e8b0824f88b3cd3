-- ===== src/Media/Scheduler/Conservation.antt =====
-- Where the accepted frames of a scheduler are.
use synpeer.Prelude.{
  ℕ, ◌+◌, ◌≡◌, refl, ap, String, Bool, true, false, not, ◌&&◌, ◌||◌, Option, none, some, List, [],
  ◌∷◌, ◌++◌, ◌==◌, eq_iff, arith, length, length-append, Bool-cases, Option-cases, inl, inr, subst,
}
use synpeer.Prelude.Sort.{sort}
use synpeer.Dict.{Dict, get, has, put, delete}
use synpeer.Dict.Entries.{IsDistinct, put-IsDistinct, delete-IsDistinct}
use synpeer.Dict.Each.{Each, put-Each, delete-Each}
use synpeer.Media.Scheduler.{
  Task, Queue, Scheduler, FailureKind, advance, before, is_empty, keep_queue, process, rejected_all,
  reject_queued, emptied, is_unavailable, settle_failed, settle_sent, fail_round, finish_task,
  finish_in, finish, cancelled, resolved, rejected,
}
use synpeer.Prelude.Sorted.{length-sort}
use synpeer.Media.Scheduler.Capacity.{busy}

abbrev pub unsettled : Queue → ℕ
unsettled q = length q.tasks + busy q.active_task

unfoldable pub unsettled_at : Option Queue → ℕ
unsettled_at none = 0
unsettled_at (some q) = unsettled q

-- The frames that wait or are being sent.
unfoldable pub pending : Dict Queue → ℕ
pending [] = 0
pending ((peer, q) ∷ d) = unsettled q + pending d

pub pending-put :
    (d : Dict Queue) (k : String) (q : Queue)
    → pending (put d k q) + unsettled_at (get d k) ≡ pending d + unsettled q
unfolding pending put get unsettled_at
pending-put [] k q = omega arith
pending-put ((j, w) ∷ d) k q = elim (Bool-cases (j == k)) [
  | inl b ↦ rw (pending, put, get, b) (omega arith)
  | inr b ↦ rw (pending, put, get, b) (omega (arith, pending-put d k q))
]

pending-delete_missing :
    (d : Dict Queue) (k : String) → has d k ≡ false → pending (delete d k) ≡ pending d
unfolding pending delete has
pending-delete_missing [] k h = refl
pending-delete_missing ((j, w) ∷ d) k h = elim (Bool-cases (j == k)) [
  | inl b ↦ absurd (ground (arith, b, h))
  | inr b ↦ rw (pending, delete, b) (omega (arith, pending-delete_missing d k (rw b at h)))
]

pending-delete :
    (d : Dict Queue) (k : String)
    → IsDistinct d
    → pending (delete d k) + unsettled_at (get d k) ≡ pending d
unfolding pending delete get unsettled_at
pending-delete [] k h = refl
pending-delete ((j, w) ∷ d) k h = elim (Bool-cases (j == k)) [
  | inl b ↦
      rw (pending, delete, get, b)
        (omega
          (arith, pending-delete_missing d k (subst (λ i. has d i ≡ false) ((eq_iff j k).0 b) h.0)))
  | inr b ↦ rw (pending, delete, get, b) (omega (arith, pending-delete d k h.1))
]

-- Only a queue that is processing has an active task.
abbrev pub IsIdle : Queue → Type 0
IsIdle q = q.processing ≡ false → q.active_task ≡ none

pub record IsConserved (s : Scheduler) : Type 0 where
  pub distinct : IsDistinct s.queues
  pub idle : Each IsIdle s.queues
  pub counted : s.sequence ≡ length s.settled + pending s.queues

pub none_unsettled :
    (ts : List Task) (o : Option Task) (p : Bool)
    → (p ≡ false → o ≡ none)
    → not p && is_empty ts ≡ true
    → length ts + busy o ≡ 0
none_unsettled ts o true x b = absurd (ground (arith, b))
none_unsettled (t ∷ ts) o false x b = absurd (ground (arith, b))
none_unsettled [] o false x b = omega (arith, ap busy (x refl))

pub keep_queue-IsDistinct :
    (d : Dict Queue) (k : String) (q : Queue) → IsDistinct d → IsDistinct (keep_queue d k q)
unfolding keep_queue
keep_queue-IsDistinct d k q h = elim (Bool-cases (not q.processing && is_empty q.tasks)) [
  | inl b ↦ rw b (delete-IsDistinct d k h)
  | inr b ↦ rw b (put-IsDistinct d k q h)
]

pub keep_queue-Each :
    (d : Dict Queue) (k : String) (q : Queue)
    → Each IsIdle d
    → IsIdle q
    → Each IsIdle (keep_queue d k q)
unfolding keep_queue
keep_queue-Each d k q h x = elim (Bool-cases (not q.processing && is_empty q.tasks)) [
  | inl b ↦ rw b (delete-Each IsIdle d k h)
  | inr b ↦ rw b (put-Each IsIdle d k q h x)
]

pub pending-keep_queue :
    (d : Dict Queue) (k : String) (q : Queue)
    → IsDistinct d
    → IsIdle q
    → pending (keep_queue d k q) + unsettled_at (get d k) ≡ pending d + unsettled q
unfolding keep_queue
pending-keep_queue d k q h x = elim (Bool-cases (not q.processing && is_empty q.tasks)) [
  | inl b ↦
      rw b
        (omega (arith, pending-delete d k h, none_unsettled q.tasks q.active_task q.processing x b))
  | inr b ↦ rw b (pending-put d k q)
]

pub length-rejected_all :
    (kind : FailureKind) (ts : List Task) → length (rejected_all kind ts) ≡ length ts
length-rejected_all kind [] = refl
length-rejected_all kind (t ∷ ts) = omega (arith, length-rejected_all kind ts)

advance-IsIdle : (running : Bool) (q : Queue) (ts : List Task) → IsIdle (advance running q ts)
unfolding advance
advance-IsIdle running q [] e = refl
advance-IsIdle true q (t ∷ ts) e = absurd (ground (arith, e))
advance-IsIdle false q (t ∷ ts) e = refl

unsettled-advance :
    (running : Bool) (q : Queue) (ts : List Task)
    → length ts ≡ length q.tasks
    → unsettled (advance running q ts) ≡ length q.tasks
unfolding advance
unsettled-advance running q [] l = l
unsettled-advance true q (t ∷ ts) l = omega (arith, l)
unsettled-advance false q (t ∷ ts) l = omega arith

pub process-IsConserved :
    (s : Scheduler) (peer : String) (q : Queue)
    → IsDistinct s.queues
    → Each IsIdle s.queues
    → s.sequence + unsettled_at (get s.queues peer)
      ≡ length s.settled + (pending s.queues + length q.tasks)
    → IsConserved (process s peer q)
unfolding process
process-IsConserved s peer q d i h =
    let ts = sort before q.tasks in
    let q' = advance s.running q ts in
    let idle = advance-IsIdle s.running q ts in
    record {
      distinct = keep_queue-IsDistinct s.queues peer q' d;
      idle = keep_queue-Each s.queues peer q' i idle;
      counted = omega (
        arith,
        h,
        pending-keep_queue s.queues peer q' d idle,
        unsettled-advance s.running q ts (length-sort before q.tasks),
      );
    }

pub at_peer :
    (d : Dict Queue) (peer : String) (q : Queue)
    → get d peer ≡ some q
    → unsettled_at (get d peer) ≡ unsettled q
unfolding unsettled_at
at_peer d peer q e = ap unsettled_at e

fail_round-IsConserved :
    (s : Scheduler) (peer : String) (q : Queue) (t : Task) (kind : FailureKind)
    → IsConserved s
    → get s.queues peer ≡ some q
    → q.active_task ≡ some t
    → IsConserved (fail_round s peer q t kind)
unfolding fail_round settle_failed reject_queued emptied
fail_round-IsConserved s peer q t kind x e a = elim (Bool-cases (is_unavailable kind)) [
  | inl b ↦ rw b (
      process-IsConserved (reject_queued (settle_failed s t kind) q.tasks kind) peer (emptied q)
        x.distinct x.idle
        (omega (
          arith,
          x.counted,
          at_peer s.queues peer q e,
          ap busy a,
          length-append s.settled (rejected t kind ∷ []),
          length-append (s.settled ++ rejected t kind ∷ []) (rejected_all kind q.tasks),
          length-rejected_all kind q.tasks,
        )))
  | inr b ↦ rw b (
      process-IsConserved (settle_failed s t kind) peer q x.distinct x.idle (
        omega (
          arith,
          x.counted,
          at_peer s.queues peer q e,
          ap busy a,
          length-append s.settled (rejected t kind ∷ []),
        )))
]

finish_task-IsConserved :
    (s : Scheduler) (peer : String) (q : Queue) (o : Option Task) (failure : Option FailureKind)
    → IsConserved s
    → get s.queues peer ≡ some q
    → q.active_task ≡ o
    → IsConserved (finish_task s peer q o failure)
unfolding finish_task settle_sent
finish_task-IsConserved s peer q none failure x e a = x
finish_task-IsConserved s peer q (some t) (some kind) x e a =
    fail_round-IsConserved s peer q t kind x e a
finish_task-IsConserved s peer q (some t) none x e a =
    elim (Bool-cases (not s.running || q.cancelled)) [
      | inl b ↦ rw b (fail_round-IsConserved s peer q t cancelled x e a)
      | inr b ↦ rw b (
          process-IsConserved (settle_sent s t) peer q x.distinct x.idle (
            omega (
              arith,
              x.counted,
              at_peer s.queues peer q e,
              ap busy a,
              length-append s.settled (resolved t ∷ []),
            )))
    ]

pub finish-IsConserved :
    (s : Scheduler) (peer : String) (failure : Option FailureKind)
    → IsConserved s
    → IsConserved (finish s peer failure)
unfolding finish finish_in
finish-IsConserved s peer failure x = elim (Option-cases (get s.queues peer)) [
  | inl e ↦ rw e x
  | inr (q, e) ↦ rw e (finish_task-IsConserved s peer q q.active_task failure x e refl)
]
