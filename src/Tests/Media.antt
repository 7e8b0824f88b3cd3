-- ===== src/Tests/Media.antt =====
-- Media transfers at concrete inputs (src/services/media).
use synpeer.Prelude.{length, ℕ, ◌+◌, ◌*◌, ◌≡◌, refl, true, false, none, some, List, [], ◌∷◌, arith}
use synpeer.Prelude.Int.{ℤ, pos, negsuc}
use synpeer.Prelude.Sort.{sort, insert_sorted}
use synpeer.Dict.{get, put, delete, size}
use synpeer.Media.Payload.{
  calculate_max_raw_payload_bytes, search, ceil_div, fits_frame, IsEdge,
  calculate_max_raw_payload_bytes-IsEdge,
}
use synpeer.Media.Scheduler.{
  Policy, Task, Queue, enqueue, push, process_peer_queue, process, advance, keep_queue, finish,
  finish_task, fail_round, settle_failed, settle_sent, cancel_peer, reject_queued, emptied,
  capacity_exceeded, ids_with, add_ids, add_id, new_queue, queue_or_new, before,
}
use synpeer.Media.Scheduler.Events.{
  Event, do_enqueue, do_finish, do_cancel_peer, happen, happen_all, new,
}
use synpeer.Media.Scheduler.Capacity.{IsWithin}
use synpeer.Media.Scheduler.Runs.{happen_all-IsWithin}
use synpeer.Media.Scheduler.Order.{AreLater, taken_first}
use synpeer.Media.Scheduler.Conservation.{pending}
use synpeer.Media.Scheduler.Settlement.{settled_once}

-- A frame of 10 bytes around each part, which takes two bytes for one.
wrapped : ℕ → ℕ → ℕ
wrapped c parts = c * 2 + 10

sixteen : calculate_max_raw_payload_bytes wrapped 100 43 ≡ some 16
unfolding calculate_max_raw_payload_bytes search fits_frame ceil_div wrapped
sixteen = refl

calculate_max_raw_payload_bytes-IsEdge_example :
    (r : ℕ) × ((calculate_max_raw_payload_bytes wrapped 100 43 ≡ some r)
      × IsEdge (fits_frame wrapped 100 43) 100 r)
calculate_max_raw_payload_bytes-IsEdge_example =
    calculate_max_raw_payload_bytes-IsEdge wrapped 100 43 (omega arith)

abbrev policy : Policy
policy = record {
  max_frame_bytes = 100;
  max_queued_frames = 3;
  max_queued_bytes = 150;
  max_queued_objects = 2;
  max_queued_chunks = 2;
}

frame : ℕ → ℤ → Task
frame bytes priority = record {
  peer_id = "p";
  bytes = bytes;
  media_object_id = some "m";
  chunk_id = none;
  priority = priority;
  sequence = 0;
}

-- A peer that disconnects in the middle of a frame, and comes back before the frame has ended.
events : List Event
unfolding frame
events =
    do_enqueue (frame 60 (pos 0))
    ∷ do_cancel_peer "p"
    ∷ do_enqueue (frame 20 (pos 5))
    ∷ do_finish "p" none
    ∷ do_finish "p" none
    ∷ []

happen_all-IsWithin_example : IsWithin policy (happen_all policy new events)
happen_all-IsWithin_example = happen_all-IsWithin policy events

-- The second frame is sent, and its caller hears that it was cancelled.
sent_and_cancelled : (happen_all policy new events).sent_frames ≡ 0
unfolding happen_all happen events frame new enqueue push process_peer_queue process advance
    keep_queue finish finish_task fail_round settle_failed settle_sent cancel_peer reject_queued
    emptied capacity_exceeded ids_with add_ids add_id new_queue queue_or_new get put delete size
    sort insert_sorted
sent_and_cancelled = refl

abbrev waiting : Queue
unfolding frame
waiting = record {
  tasks = frame 10 (negsuc 9) ∷ frame 20 (pos 3) ∷ [];
  queued_bytes = 30;
  processing = true;
  cancelled = false;
  active_task = none;
}

taken_first_example :
    AreLater
      (advance true waiting (sort before waiting.tasks)).active_task
      (advance true waiting (sort before waiting.tasks)).tasks
taken_first_example = taken_first waiting

settled_once_example :
    (happen_all policy new events).sequence
    ≡ length (happen_all policy new events).settled + pending (happen_all policy new events).queues
settled_once_example = settled_once policy events
