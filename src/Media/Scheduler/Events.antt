-- ===== src/Media/Scheduler/Events.antt =====
-- cancelMedia of src/services/media/MediaTransferScheduler.ts, and what may happen to a scheduler.
use synpeer.Prelude.{
  ◌-◌, String, Option, none, some, List, [], ◌∷◌, ◌++◌, Bool, true, false, not, ◌&&◌, ◌==◌, filter,
  sum_by, if◌then◌else◌,
}
use synpeer.Dict.{Dict}
use synpeer.Media.Scheduler.{
  Policy, Task, Queue, Scheduler, FailureKind, cancelled, is_empty, reject_queued, enqueue, finish,
  cancel_peer, stop, start,
}

abbrev pub is_of_media : String → Task → Bool
is_of_media id t = elim t.media_object_id [ none ↦ false | some m ↦ m == id ]

abbrev pub is_not_of_media : String → Task → Bool
is_not_of_media id t = not (is_of_media id t)

-- What `cancelMedia` leaves of a queue. The active task hears of it where it waits, and ends by `finish`.
unfoldable pub without_media : String → Queue → Queue
without_media id q = record q {
  tasks = filter (is_not_of_media id) q.tasks;
  queued_bytes = q.queued_bytes - sum_by (λ (t : Task). t.bytes) (filter (is_of_media id) q.tasks);
}

unfoldable pub drop_media : String → Dict Queue → Dict Queue
unfolding without_media
drop_media id [] = []
drop_media id ((peer, q) ∷ d) =
    let rest = drop_media id d in
    if not q.processing && is_empty (filter (is_not_of_media id) q.tasks)
    then rest
    else (peer, without_media id q) ∷ rest

unfoldable pub media_tasks : String → Dict Queue → List Task
media_tasks id [] = []
media_tasks id ((peer, q) ∷ d) = filter (is_of_media id) q.tasks ++ media_tasks id d

unfoldable pub cancel_media : Scheduler → String → Scheduler
unfolding drop_media media_tasks reject_queued
cancel_media s id = record (reject_queued s (media_tasks id s.queues) cancelled) {
  queues = drop_media id s.queues;
}

-- What may happen to a scheduler, in any order.
pub data Event : Type 0 where
  do_enqueue : Task → Event
  do_finish : String → Option FailureKind → Event
  do_cancel_peer : String → Event
  do_cancel_media : String → Event
  do_stop do_start : Event

unfoldable pub happen : Policy → Scheduler → Event → Scheduler
unfolding enqueue finish cancel_peer cancel_media stop start
happen p s (do_enqueue t) = (enqueue p s t).0
happen p s (do_finish peer failure) = finish s peer failure
happen p s (do_cancel_peer peer) = cancel_peer s peer
happen p s (do_cancel_media id) = cancel_media s id
happen p s do_stop = stop s
happen p s do_start = start s

unfoldable pub happen_all : Policy → Scheduler → List Event → Scheduler
unfolding happen
happen_all p s [] = s
happen_all p s (e ∷ es) = happen_all p (happen p s e) es

unfoldable pub new : Scheduler
new = record {
  queues = [];
  sequence = 0;
  running = true;
  sent_frames = 0;
  sent_bytes = 0;
  rejected_frames = 0;
  cancelled_frames = 0;
  settled = [];
}
