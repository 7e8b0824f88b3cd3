-- ===== src/Media/Scheduler/Capacity.antt =====
-- On the limits of the queues and the count of their bytes, event by event.
use synpeer.Prelude.{
  ℕ, ◌+◌, ◌≤◌, ◌≡◌, refl, String, Bool, true, false, not, ◌&&◌, ◌||◌, Option, none, some, List, [],
  ◌∷◌, ◌++◌, arith, length, length-append, sum_by, sum_by-append, Bool-cases, Option-cases, inl,
  inr, if◌then◌else◌, ltb, nat_beq,
}
use synpeer.Prelude.Sort.{sort}
use synpeer.Dict.{Dict, get, put, keys, size}
use synpeer.Dict.Each.{Each, put-Each, delete-Each, get-Each}
use synpeer.Media.Scheduler.{
  Policy, Task, Queue, Scheduler, FailureKind, Enqueued, new_queue, queue_or_new, with_active,
  active_bytes, capacity_exceeded, before, advance, is_empty, keep_queue, process,
  process_peer_queue, push, enqueue, reject_queued, emptied, is_unavailable, settle_failed,
  settle_sent, fail_round, finish_task, finish_in, finish, cancel_in, cancel_peer, cancel_peers,
  stop, cancelled, refused, frame_too_large, backpressure, queued,
}
use synpeer.Prelude.Sorted.{sum_by-sort, length-sort}

abbrev pub bytes_of : Task → ℕ
bytes_of t = t.bytes

pub record IsSound (p : Policy) (q : Queue) : Type 0 where
  pub counted : q.queued_bytes ≡ sum_by bytes_of q.tasks
  pub frames : length (with_active q.active_task q.tasks) ≤ p.max_queued_frames
  pub room : q.queued_bytes + active_bytes q.active_task ≤ p.max_queued_bytes

abbrev pub IsWithin : Policy → Scheduler → Type 0
IsWithin p s = Each (IsSound p) s.queues

abbrev pub busy : Option Task → ℕ
busy none = 0
busy (some t) = 1

pub length-with_active :
    (o : Option Task) (ts : List Task) → length (with_active o ts) ≡ busy o + length ts
length-with_active none ts = omega arith
length-with_active (some t) ts = omega arith

module _ (p : Policy) where
  new_queue-IsSound : IsSound p new_queue
  unfolding new_queue
  new_queue-IsSound = record { counted = refl; frames = omega arith; room = omega arith }

  emptied-IsSound : (q : Queue) → IsSound p q → IsSound p (emptied q)
  unfolding emptied
  emptied-IsSound q x = record {
    counted = refl;
    frames = omega (
      arith,
      x.frames,
      length-with_active q.active_task q.tasks,
      length-with_active q.active_task [],
    );
    room = omega (arith, x.room);
  }

  -- The tasks may be taken in any order that loses none.
  advance-IsSound :
      (running : Bool) (q : Queue) (ts : List Task)
      → IsSound p q
      → sum_by bytes_of ts ≡ sum_by bytes_of q.tasks
      → length ts ≡ length q.tasks
      → IsSound p (advance running q ts)
  unfolding advance
  advance-IsSound running q [] x s l = record {
    counted = omega (arith, x.counted, s);
    frames = omega arith;
    room = omega (arith, x.room);
  }
  advance-IsSound true q (t ∷ ts) x s l = record {
    counted = omega (arith, x.counted, s);
    frames = omega (arith, x.frames, l, length-with_active q.active_task q.tasks);
    room = omega (arith, x.room, x.counted, s);
  }
  advance-IsSound false q (t ∷ ts) x s l = record {
    counted = x.counted;
    frames = omega (arith, x.frames, length-with_active q.active_task q.tasks);
    room = omega (arith, x.room);
  }

  keep_queue-IsSound :
      (d : Dict Queue) (peer : String) (q : Queue)
      → Each (IsSound p) d
      → IsSound p q
      → Each (IsSound p) (keep_queue d peer q)
  unfolding keep_queue
  keep_queue-IsSound d peer q h x = elim (Bool-cases (not q.processing && is_empty q.tasks)) [
    | inl b ↦ rw b (delete-Each (IsSound p) d peer h)
    | inr b ↦ rw b (put-Each (IsSound p) d peer q h x)
  ]

  process-IsWithin :
      (s : Scheduler) (peer : String) (q : Queue)
      → IsWithin p s
      → IsSound p q
      → IsWithin p (process s peer q)
  unfolding process
  process-IsWithin s peer q h x =
      keep_queue-IsSound s.queues peer (advance s.running q (sort before q.tasks)) h (
        advance-IsSound s.running q (sort before q.tasks) x (sum_by-sort before bytes_of q.tasks)
          (length-sort before q.tasks))

  queue_or_new-IsSound :
      (s : Scheduler) (peer : String) → IsWithin p s → IsSound p (queue_or_new (get s.queues peer))
  unfolding queue_or_new new_queue
  queue_or_new-IsSound s peer h = elim (Option-cases (get s.queues peer)) [
    | inl e ↦ rw e new_queue-IsSound
    | inr (q, e) ↦ rw e (get-Each (IsSound p) s.queues peer q h e)
  ]

  pushed-IsSound :
      (q : Queue) (t u : Task)
      → t.bytes ≡ u.bytes
      → IsSound p q
      → capacity_exceeded p q t ≡ false
      → IsSound p (record q { tasks = q.tasks ++ u ∷ []; queued_bytes = q.queued_bytes + t.bytes })
  unfolding capacity_exceeded
  pushed-IsSound q t u e x c = record {
    counted = omega (arith, x.counted, sum_by-append bytes_of q.tasks (u ∷ []), e);
    frames = ground (
      arith,
      c,
      length-with_active q.active_task (q.tasks ++ u ∷ []),
      length-with_active q.active_task q.tasks,
      length-append q.tasks (u ∷ []),
    );
    room = ground (arith, c);
  }

  process_peer_queue-IsWithin :
      (s : Scheduler) (peer : String) (q : Queue)
      → IsWithin p s
      → IsSound p q
      → IsWithin p (process_peer_queue s peer q)
  unfolding process_peer_queue
  process_peer_queue-IsWithin s peer q h x = go q.processing
    where
      go :
          (b : Bool)
          → IsWithin p (if b then record s { queues = put s.queues peer q } else process s peer q)
      go true = put-Each (IsSound p) s.queues peer q h x
      go false = process-IsWithin s peer q h x

  push-IsWithin :
      (s : Scheduler) (q : Queue) (t : Task)
      → IsWithin p s
      → IsSound p q
      → capacity_exceeded p q t ≡ false
      → IsWithin p (push s q t)
  unfolding push
  push-IsWithin s q t h x c =
      process_peer_queue-IsWithin (record s { sequence = s.sequence + 1 }) t.peer_id _ h
        (pushed-IsSound q t (record t { sequence = s.sequence }) refl x c)

  abbrev IsWithinFirst : Scheduler × Enqueued → Type 0
  IsWithinFirst r = IsWithin p r.0

  pub enqueue-IsWithin : (s : Scheduler) (t : Task) → IsWithin p s → IsWithin p (enqueue p s t).0
  unfolding enqueue
  enqueue-IsWithin s t h =
      go s.running (nat_beq t.bytes 0) (ltb p.max_frame_bytes t.bytes)
        (capacity_exceeded p (queue_or_new (get s.queues t.peer_id)) t) refl
    where
      go :
          (a b c d : Bool)
          → capacity_exceeded p (queue_or_new (get s.queues t.peer_id)) t ≡ d
          → IsWithinFirst (
              if not a
              then (s, refused cancelled)
              else if b
              then (s, refused frame_too_large)
              else if c
              then (record s { rejected_frames = s.rejected_frames + 1 }, refused frame_too_large)
              else if d
              then (record s { rejected_frames = s.rejected_frames + 1 }, refused backpressure)
              else (push s (queue_or_new (get s.queues t.peer_id)) t, queued))
      go false b c d e = h
      go true true c d e = h
      go true false true d e = h
      go true false false true e = h
      go true false false false e =
          push-IsWithin s (queue_or_new (get s.queues t.peer_id)) t h
            (queue_or_new-IsSound s t.peer_id h) e

  fail_round-IsWithin :
      (s : Scheduler) (peer : String) (q : Queue) (t : Task) (kind : FailureKind)
      → IsWithin p s
      → IsSound p q
      → IsWithin p (fail_round s peer q t kind)
  unfolding fail_round settle_failed reject_queued
  fail_round-IsWithin s peer q t kind h x = elim (Bool-cases (is_unavailable kind)) [
    | inl b ↦ rw b (
        process-IsWithin (reject_queued (settle_failed s t kind) q.tasks kind) peer (emptied q) h
          (emptied-IsSound q x))
    | inr b ↦ rw b (process-IsWithin (settle_failed s t kind) peer q h x)
  ]

  finish_task-IsWithin :
      (s : Scheduler) (peer : String) (q : Queue) (o : Option Task) (failure : Option FailureKind)
      → IsWithin p s
      → IsSound p q
      → IsWithin p (finish_task s peer q o failure)
  unfolding finish_task settle_sent
  finish_task-IsWithin s peer q none failure h x = h
  finish_task-IsWithin s peer q (some t) (some kind) h x = fail_round-IsWithin s peer q t kind h x
  finish_task-IsWithin s peer q (some t) none h x =
      elim (Bool-cases (not s.running || q.cancelled)) [
        | inl b ↦ rw b (fail_round-IsWithin s peer q t cancelled h x)
        | inr b ↦ rw b (process-IsWithin (settle_sent s t) peer q h x)
      ]

  pub finish-IsWithin :
      (s : Scheduler) (peer : String) (failure : Option FailureKind)
      → IsWithin p s
      → IsWithin p (finish s peer failure)
  unfolding finish finish_in
  finish-IsWithin s peer failure h = elim (Option-cases (get s.queues peer)) [
    | inl e ↦ rw e h
    | inr (q, e) ↦ rw e (
        finish_task-IsWithin s peer q q.active_task failure h
          (get-Each (IsSound p) s.queues peer q h e))
  ]

  pub cancel_peer-IsWithin :
      (s : Scheduler) (peer : String) → IsWithin p s → IsWithin p (cancel_peer s peer)
  unfolding cancel_peer cancel_in reject_queued
  cancel_peer-IsWithin s peer h = elim (Option-cases (get s.queues peer)) [
    | inl e ↦ rw e h
    | inr (q, e) ↦
        let x = emptied-IsSound q (get-Each (IsSound p) s.queues peer q h e) in
        rw e (
          keep_queue-IsSound s.queues peer (record (emptied q) { cancelled = true }) h
            (record { counted = x.counted; frames = x.frames; room = x.room }))
  ]

  cancel_peers-IsWithin :
      (s : Scheduler) (peers : List String) → IsWithin p s → IsWithin p (cancel_peers s peers)
  unfolding cancel_peers
  cancel_peers-IsWithin s [] h = h
  cancel_peers-IsWithin s (peer ∷ peers) h =
      cancel_peers-IsWithin (cancel_peer s peer) peers (cancel_peer-IsWithin s peer h)

  pub stop-IsWithin : (s : Scheduler) → IsWithin p s → IsWithin p (stop s)
  unfolding stop
  stop-IsWithin s h = elim (Bool-cases (not s.running && nat_beq (size s.queues) 0)) [
    | inl b ↦ rw b h
    | inr b ↦ rw b (cancel_peers-IsWithin (record s { running = false }) (keys s.queues) h)
  ]
