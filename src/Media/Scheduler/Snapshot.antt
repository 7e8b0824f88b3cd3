-- ===== src/Media/Scheduler/Snapshot.antt =====
-- getSnapshot and validatePolicy of src/services/media/MediaTransferScheduler.ts. Whether a queue waits for
-- a writable channel is not a part of the model, nor is the count of those waits.
use synpeer.Prelude.{
  ℕ, ◌+◌, ◌*◌, ◌≤◌, Bool, ◌&&◌, ltb, List, [], ◌∷◌, arith, length, sum_by, if◌then◌else◌,
}
use synpeer.Dict.{Dict, values, size}
use synpeer.Dict.Each.{Each}
use synpeer.Media.Scheduler.{Policy, Queue, Scheduler, active_bytes}
use synpeer.Media.Scheduler.Capacity.{IsSound}
use synpeer.Media.Scheduler.Events.{Event, happen_all, new}
use synpeer.Media.Scheduler.Runs.{happen_all-IsWithin}

pub record Snapshot : Type 0 where
  pub running : Bool
  pub active_peers : ℕ
  pub queued_frames : ℕ
  pub queued_bytes : ℕ
  pub in_flight_bytes : ℕ
  pub sent_frames : ℕ
  pub sent_bytes : ℕ
  pub rejected_frames : ℕ
  pub cancelled_frames : ℕ

unfoldable pub get_snapshot : Scheduler → Snapshot
unfolding values
get_snapshot s = record {
  running = s.running;
  active_peers = sum_by (λ (q : Queue). if q.processing then 1 else 0) (values s.queues);
  queued_frames = sum_by (λ (q : Queue). length q.tasks) (values s.queues);
  queued_bytes = sum_by (λ (q : Queue). q.queued_bytes) (values s.queues);
  in_flight_bytes = sum_by (λ (q : Queue). active_bytes q.active_task) (values s.queues);
  sent_frames = s.sent_frames;
  sent_bytes = s.sent_bytes;
  rejected_frames = s.rejected_frames;
  cancelled_frames = s.cancelled_frames;
}

-- The tests on the limits; the ratio of the low water mark is not a part of the model.
unfoldable pub validate_policy : Policy → Bool
validate_policy p =
    ltb 0 p.max_frame_bytes
    && ltb 0 p.max_queued_frames
    && ltb 0 p.max_queued_bytes
    && ltb 0 p.max_queued_objects
    && ltb 0 p.max_queued_chunks

held_bytes :
    (p : Policy) (d : Dict Queue)
    → Each (IsSound p) d
    → sum_by (λ (q : Queue). q.queued_bytes) (values d)
        + sum_by (λ (q : Queue). active_bytes q.active_task) (values d)
      ≤ p.max_queued_bytes * size d
unfolding values size
held_bytes p [] h = omega arith
held_bytes p ((peer, q) ∷ d) h = omega (arith, h.0.room, held_bytes p d h.1)

-- From a new scheduler, whatever happens in any order, the queued bytes and those in flight of a
-- snapshot are together at most the limit of one queue times the number of queues.
pub snapshot_bytes :
    (p : Policy) (es : List Event)
    → (get_snapshot (happen_all p new es)).queued_bytes
        + (get_snapshot (happen_all p new es)).in_flight_bytes
      ≤ p.max_queued_bytes * size (happen_all p new es).queues
unfolding get_snapshot
snapshot_bytes p es = held_bytes p (happen_all p new es).queues (happen_all-IsWithin p es)
