-- ===== src/Media/Scheduler/Settlement.antt =====
-- What every event does to the number of frames that are not settled.
use synpeer.Prelude.{
  ◌+◌, ◌≡◌, refl, ap, String, Bool, true, false, not, ◌&&◌, Option, none, some, List, [], ◌∷◌, ◌++◌,
  arith, length, length-append, filter, Bool-cases, Option-cases, inl, inr, if◌then◌else◌, nat_beq,
  ltb,
}
use synpeer.Dict.{Dict, get, has, put, keys, size}
use synpeer.Dict.Entries.{IsDistinct, put-IsDistinct}
use synpeer.Dict.Each.{Each, put-Each, get-Each}
use synpeer.Media.Scheduler.{
  Policy, Task, Queue, Scheduler, Enqueued, refused, queued, frame_too_large, backpressure,
  new_queue, queue_or_new, is_empty, process, process_peer_queue, push, enqueue, capacity_exceeded,
  rejected_all, reject_queued, emptied, cancel_in, cancel_peer, cancel_peers, stop, start,
  cancelled,
}
use synpeer.Media.Scheduler.Events.{
  is_of_media, is_not_of_media, without_media, drop_media, media_tasks, cancel_media, Event,
  do_enqueue, do_finish, do_cancel_peer, do_cancel_media, do_stop, do_start, happen, happen_all,
  new,
}
use synpeer.Media.Scheduler.Capacity.{busy}
use synpeer.Media.Scheduler.Conservation.{
  IsConserved, IsIdle, unsettled, unsettled_at, pending, pending-put, pending-keep_queue,
  keep_queue-IsDistinct, keep_queue-Each, process-IsConserved, finish-IsConserved,
  length-rejected_all, at_peer, none_unsettled,
}

-- A push on a queue that is the peer's, or new.
process_peer_queue-IsConserved :
    (s : Scheduler) (peer : String) (q : Queue)
    → IsDistinct s.queues
    → Each IsIdle s.queues
    → IsIdle q
    → s.sequence + unsettled_at (get s.queues peer)
      ≡ length s.settled + (pending s.queues + unsettled q)
    → IsConserved (process_peer_queue s peer q)
unfolding process_peer_queue
process_peer_queue-IsConserved s peer q d i x h = go q.processing refl
  where
    go :
        (b : Bool)
        → q.processing ≡ b
        → IsConserved (if b then record s { queues = put s.queues peer q } else process s peer q)
    go true e = record {
      distinct = put-IsDistinct s.queues peer q d;
      idle = put-Each IsIdle s.queues peer q i x;
      counted = omega (arith, h, pending-put s.queues peer q);
    }
    go false e = process-IsConserved s peer q d i (omega (arith, h, ap busy (x e)))

queue_or_new-IsIdle :
    (o : Option Queue) → ((q : Queue) → o ≡ some q → IsIdle q) → IsIdle (queue_or_new o)
unfolding queue_or_new new_queue
queue_or_new-IsIdle none h = λ e. refl
queue_or_new-IsIdle (some q) h = h q refl

unsettled-queue_or_new : (o : Option Queue) → unsettled (queue_or_new o) ≡ unsettled_at o
unfolding queue_or_new new_queue unsettled_at
unsettled-queue_or_new none = refl
unsettled-queue_or_new (some q) = refl

push-IsConserved :
    (s : Scheduler) (t : Task)
    → IsConserved s
    → IsConserved (push s (queue_or_new (get s.queues t.peer_id)) t)
unfolding push
push-IsConserved s t x =
    let q = queue_or_new (get s.queues t.peer_id) in
    process_peer_queue-IsConserved (record s { sequence = s.sequence + 1 }) t.peer_id
      (record q {
        tasks = q.tasks ++ record t { sequence = s.sequence } ∷ [];
        queued_bytes = q.queued_bytes + t.bytes;
      })
      x.distinct x.idle
      (queue_or_new-IsIdle (get s.queues t.peer_id)
        (λ w e. get-Each IsIdle s.queues t.peer_id w x.idle e))
      (omega (
        arith,
        x.counted,
        unsettled-queue_or_new (get s.queues t.peer_id),
        length-append q.tasks (record t { sequence = s.sequence } ∷ []),
      ))

module _ (p : Policy) where
  abbrev IsConservedFirst : Scheduler × Enqueued → Type 0
  IsConservedFirst r = IsConserved r.0

  enqueue-IsConserved : (s : Scheduler) (t : Task) → IsConserved s → IsConserved (enqueue p s t).0
  unfolding enqueue
  enqueue-IsConserved s t x =
      go s.running (nat_beq t.bytes 0) (ltb p.max_frame_bytes t.bytes)
        (capacity_exceeded p (queue_or_new (get s.queues t.peer_id)) t)
    where
      counted_only : IsConserved (record s { rejected_frames = s.rejected_frames + 1 })
      counted_only = record { distinct = x.distinct; idle = x.idle; counted = x.counted }

      go :
          (a b c d : Bool)
          → IsConservedFirst (
              if not a
              then (s, refused cancelled)
              else if b
              then (s, refused frame_too_large)
              else if c
              then (record s { rejected_frames = s.rejected_frames + 1 }, refused frame_too_large)
              else if d
              then (record s { rejected_frames = s.rejected_frames + 1 }, refused backpressure)
              else (push s (queue_or_new (get s.queues t.peer_id)) t, queued))
      go false b c d = x
      go true true c d = x
      go true false true d = counted_only
      go true false false true = counted_only
      go true false false false = push-IsConserved s t x

cancel_peer-IsConserved :
    (s : Scheduler) (peer : String) → IsConserved s → IsConserved (cancel_peer s peer)
unfolding cancel_peer cancel_in reject_queued emptied
cancel_peer-IsConserved s peer x = elim (Option-cases (get s.queues peer)) [
  | inl e ↦ rw e x
  | inr (q, e) ↦
      let idle = get-Each IsIdle s.queues peer q x.idle e in
      let q' = record (emptied q) { cancelled = true } in
      rw e (record {
        distinct = keep_queue-IsDistinct s.queues peer q' x.distinct;
        idle = keep_queue-Each s.queues peer q' x.idle idle;
        counted = omega (
          arith,
          x.counted,
          at_peer s.queues peer q e,
          pending-keep_queue s.queues peer q' x.distinct idle,
          length-append s.settled (rejected_all cancelled q.tasks),
          length-rejected_all cancelled q.tasks,
        );
      })
]

cancel_peers-IsConserved :
    (s : Scheduler) (peers : List String) → IsConserved s → IsConserved (cancel_peers s peers)
unfolding cancel_peers
cancel_peers-IsConserved s [] x = x
cancel_peers-IsConserved s (peer ∷ peers) x =
    cancel_peers-IsConserved (cancel_peer s peer) peers (cancel_peer-IsConserved s peer x)

stop-IsConserved : (s : Scheduler) → IsConserved s → IsConserved (stop s)
unfolding stop
stop-IsConserved s x = elim (Bool-cases (not s.running && nat_beq (size s.queues) 0)) [
  | inl b ↦ rw b x
  | inr b ↦ rw b (
      cancel_peers-IsConserved (record s { running = false }) (keys s.queues)
        (record { distinct = x.distinct; idle = x.idle; counted = x.counted }))
]

length-media_split :
    (id : String) (ts : List Task)
    → length (filter (is_of_media id) ts) + length (filter (is_not_of_media id) ts) ≡ length ts
length-media_split id [] = refl
length-media_split id (t ∷ ts) = elim (Bool-cases (is_of_media id t)) [
  | inl b ↦ rw b (omega (arith, length-media_split id ts))
  | inr b ↦ rw b (omega (arith, length-media_split id ts))
]

has-drop_media :
    (id : String) (d : Dict Queue) (k : String) → has d k ≡ false → has (drop_media id d) k ≡ false
unfolding drop_media has
has-drop_media id [] k h = refl
has-drop_media id ((peer, q) ∷ d) k h = ground (arith, h, has-drop_media id d k)

drop_media-IsDistinct : (id : String) (d : Dict Queue) → IsDistinct d → IsDistinct (drop_media id d)
unfolding drop_media
drop_media-IsDistinct id [] h = tt
drop_media-IsDistinct id ((peer, q) ∷ d) h =
    go (not q.processing && is_empty (filter (is_not_of_media id) q.tasks))
      (drop_media-IsDistinct id d h.1)
  where
    go :
        (b : Bool)
        → IsDistinct (drop_media id d)
        → IsDistinct (if b then drop_media id d else (peer, without_media id q) ∷ drop_media id d)
    go true rest = rest
    go false rest = (has-drop_media id d peer h.0, rest)

drop_media-IsIdle : (id : String) (d : Dict Queue) → Each IsIdle d → Each IsIdle (drop_media id d)
unfolding drop_media without_media
drop_media-IsIdle id [] h = tt
drop_media-IsIdle id ((peer, q) ∷ d) h =
    go (not q.processing && is_empty (filter (is_not_of_media id) q.tasks))
      (drop_media-IsIdle id d h.1)
  where
    go :
        (b : Bool)
        → Each IsIdle (drop_media id d)
        → Each IsIdle (if b then drop_media id d else (peer, without_media id q) ∷ drop_media id d)
    go true rest = rest
    go false rest = (h.0, rest)

pending-drop_media :
    (id : String) (d : Dict Queue)
    → Each IsIdle d
    → pending (drop_media id d) + length (media_tasks id d) ≡ pending d
unfolding drop_media media_tasks pending without_media
pending-drop_media id [] h = refl
pending-drop_media id ((peer, q) ∷ d) h =
    go (not q.processing && is_empty (filter (is_not_of_media id) q.tasks)) refl
      (pending-drop_media id d h.1)
  where
    go :
        (b : Bool)
        → not q.processing && is_empty (filter (is_not_of_media id) q.tasks) ≡ b
        → pending (drop_media id d) + length (media_tasks id d) ≡ pending d
        → pending (if b then drop_media id d else (peer, without_media id q) ∷ drop_media id d)
            + length (filter (is_of_media id) q.tasks ++ media_tasks id d)
          ≡ unsettled q + pending d
    go true e rest = omega (
      arith,
      rest,
      length-append (filter (is_of_media id) q.tasks) (media_tasks id d),
      length-media_split id q.tasks,
      none_unsettled (filter (is_not_of_media id) q.tasks) q.active_task q.processing h.0 e,
    )
    go false e rest = omega (
      arith,
      rest,
      length-append (filter (is_of_media id) q.tasks) (media_tasks id d),
      length-media_split id q.tasks,
    )

cancel_media-IsConserved :
    (s : Scheduler) (id : String) → IsConserved s → IsConserved (cancel_media s id)
unfolding cancel_media reject_queued
cancel_media-IsConserved s id x = record {
  distinct = drop_media-IsDistinct id s.queues x.distinct;
  idle = drop_media-IsIdle id s.queues x.idle;
  counted = omega (
    arith,
    x.counted,
    pending-drop_media id s.queues x.idle,
    length-append s.settled (rejected_all cancelled (media_tasks id s.queues)),
    length-rejected_all cancelled (media_tasks id s.queues),
  );
}

module _ (p : Policy) where
  happen-IsConserved : (s : Scheduler) (e : Event) → IsConserved s → IsConserved (happen p s e)
  unfolding happen start
  happen-IsConserved s (do_enqueue t) x = enqueue-IsConserved p s t x
  happen-IsConserved s (do_finish peer failure) x = finish-IsConserved s peer failure x
  happen-IsConserved s (do_cancel_peer peer) x = cancel_peer-IsConserved s peer x
  happen-IsConserved s (do_cancel_media id) x = cancel_media-IsConserved s id x
  happen-IsConserved s do_stop x = stop-IsConserved s x
  happen-IsConserved s do_start x = record {
    distinct = x.distinct;
    idle = x.idle;
    counted = x.counted;
  }

  happen_all-IsConserved :
      (s : Scheduler) (es : List Event) → IsConserved s → IsConserved (happen_all p s es)
  unfolding happen_all
  happen_all-IsConserved s [] x = x
  happen_all-IsConserved s (e ∷ es) x =
      happen_all-IsConserved (happen p s e) es (happen-IsConserved s e x)

  -- From a new scheduler, whatever happens in any order, the frames that were accepted are as
  -- many as those settled and those that wait or are being sent.
  pub settled_once :
      (es : List Event)
      → (happen_all p new es).sequence
        ≡ length (happen_all p new es).settled + pending (happen_all p new es).queues
  unfolding new pending
  settled_once es =
      (happen_all-IsConserved new es
        (record { distinct = tt; idle = tt; counted = omega arith })).counted
