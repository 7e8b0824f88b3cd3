-- ===== src/Media/Scheduler.antt =====
-- MediaTransferScheduler in src/services/media/MediaTransferScheduler.ts. A task is sent by a
-- promise: `finish` is what happens when it settles, at any later time. What the tasks' callers hear is
-- the list of the settled tasks. The wait for a writable channel is a part of the sending.
pub mod Order
pub mod Capacity
pub mod Events
pub mod Runs
pub mod Conservation
pub mod Settlement
pub mod Snapshot
use synpeer.Prelude.{
  ℕ, ◌+◌, ◌-◌, ◌≤◌, String, ◌≡◌, Option, none, some, List, [], ◌∷◌, ◌++◌, Bool, true, false, not,
  ◌&&◌, ◌||◌, ◌==◌, ltb, leb, nat_beq, filter, length, sum_by, map, if◌then◌else◌,
}
use synpeer.Prelude.Int.{ℤ, ltb_ℤ}
use synpeer.Prelude.Sort.{sort}
use synpeer.Dict.{Dict, get, has, put, delete, size, keys}

pub data FailureKind : Type 0 where
  timeout unavailable corrupt cancelled storage_full backpressure frame_too_large : FailureKind

pub record Policy : Type 0 where
  pub max_frame_bytes : ℕ
  pub max_queued_frames : ℕ
  pub max_queued_bytes : ℕ
  pub max_queued_objects : ℕ
  pub max_queued_chunks : ℕ

pub record Task : Type 0 where
  pub peer_id : String
  pub bytes : ℕ
  pub media_object_id : Option String
  pub chunk_id : Option String
  pub priority : ℤ
  pub sequence : ℕ

pub record Queue : Type 0 where
  pub tasks : List Task
  pub queued_bytes : ℕ
  pub processing : Bool
  pub cancelled : Bool
  pub active_task : Option Task

pub data Settled : Type 0 where
  resolved : Task → Settled
  rejected : Task → FailureKind → Settled

pub record Scheduler : Type 0 where
  pub queues : Dict Queue
  pub sequence : ℕ
  pub running : Bool
  pub sent_frames : ℕ
  pub sent_bytes : ℕ
  pub rejected_frames : ℕ
  pub cancelled_frames : ℕ
  pub settled : List Settled

unfoldable pub new_queue : Queue
new_queue = record {
  tasks = [];
  queued_bytes = 0;
  processing = false;
  cancelled = false;
  active_task = none;
}

unfoldable pub queue_or_new : Option Queue → Queue
unfolding new_queue
queue_or_new none = new_queue
queue_or_new (some q) = q

-- `[queue.activeTask, ...queue.tasks]`
abbrev pub with_active : Option Task → List Task → List Task
with_active none ts = ts
with_active (some t) ts = t ∷ ts

abbrev pub active_bytes : Option Task → ℕ
active_bytes none = 0
active_bytes (some t) = t.bytes

-- `ids.add(id)`, for an id that is defined and not empty.
unfoldable pub add_id : Option String → Dict (Unit {0}) → Dict (Unit {0})
add_id none ids = ids
add_id (some id) ids = if id == "" then ids else put ids id tt

unfoldable pub add_ids : (Task → Option String) → List Task → Dict (Unit {0}) → Dict (Unit {0})
unfolding add_id
add_ids of [] ids = ids
add_ids of (t ∷ ts) ids = add_ids of ts (add_id (of t) ids)

-- The number of different ids of the waiting tasks and the new one.
unfoldable pub ids_with : (Task → Option String) → List Task → Task → ℕ
unfolding add_ids size
ids_with of ts t = size (add_id (of t) (add_ids of ts []))

unfoldable pub capacity_exceeded : Policy → Queue → Task → Bool
unfolding ids_with
capacity_exceeded p q t =
    let waiting = with_active q.active_task q.tasks in
    leb p.max_queued_frames (length waiting)
    || ltb p.max_queued_bytes (q.queued_bytes + active_bytes q.active_task + t.bytes)
    || ltb p.max_queued_objects (ids_with (λ (u : Task). u.media_object_id) waiting t)
    || ltb p.max_queued_chunks (ids_with (λ (u : Task). u.chunk_id) waiting t)

-- The comparison of `takeNextTask`.
abbrev pub before : Task → Task → Bool
before l r =
    ltb_ℤ r.priority l.priority || (not (ltb_ℤ l.priority r.priority) && leb l.sequence r.sequence)

-- The head of the processing loop on the sorted tasks. With none left, or after `stop`, the loop is
-- over.
unfoldable pub advance : Bool → Queue → List Task → Queue
advance running q [] = record q { tasks = []; processing = false; active_task = none }
advance running q (t ∷ ts) =
    if running
    then record q {
      tasks = ts;
      queued_bytes = q.queued_bytes - t.bytes;
      processing = true;
      active_task = some t;
    }
    else record q { processing = false; active_task = none }

abbrev pub is_empty {ℓ} : {A : Type ℓ} → List A → Bool
is_empty [] = true
is_empty (x ∷ xs) = false

-- A queue without work leaves the map.
unfoldable pub keep_queue : Dict Queue → String → Queue → Dict Queue
keep_queue d peer q = if not q.processing && is_empty q.tasks then delete d peer else put d peer q

unfoldable pub process : Scheduler → String → Queue → Scheduler
unfolding advance keep_queue
process s peer q = record s {
  queues = keep_queue s.queues peer (advance s.running q (sort before q.tasks));
}

-- `processPeerQueue`, up to its first wait.
unfoldable pub process_peer_queue : Scheduler → String → Queue → Scheduler
unfolding process
process_peer_queue s peer q =
    if q.processing then record s { queues = put s.queues peer q } else process s peer q

pub data Enqueued : Type 0 where
  queued : Enqueued
  refused : FailureKind → Enqueued

-- `tasks.push`, with the sequence number, and the processing that it starts.
unfoldable pub push : Scheduler → Queue → Task → Scheduler
unfolding process_peer_queue
push s q t =
    process_peer_queue (record s { sequence = s.sequence + 1 }) t.peer_id
      (record q {
        tasks = q.tasks ++ record t { sequence = s.sequence } ∷ [];
        queued_bytes = q.queued_bytes + t.bytes;
      })

unfoldable pub enqueue : Policy → Scheduler → Task → Scheduler × Enqueued
unfolding push capacity_exceeded
enqueue p s t =
    if not s.running
    then (s, refused cancelled)
    else if nat_beq t.bytes 0
    then (s, refused frame_too_large)
    else if ltb p.max_frame_bytes t.bytes
    then (record s { rejected_frames = s.rejected_frames + 1 }, refused frame_too_large)
    else if capacity_exceeded p (queue_or_new (get s.queues t.peer_id)) t
    then (record s { rejected_frames = s.rejected_frames + 1 }, refused backpressure)
    else (push s (queue_or_new (get s.queues t.peer_id)) t, queued)

abbrev pub rejected_all : FailureKind → List Task → List Settled
rejected_all kind [] = []
rejected_all kind (t ∷ ts) = rejected t kind ∷ rejected_all kind ts

-- `rejectQueuedTasks`: what becomes of the scheduler and of the queue.
unfoldable pub reject_queued : Scheduler → List Task → FailureKind → Scheduler
reject_queued s ts kind = record s {
  cancelled_frames = s.cancelled_frames + length ts;
  settled = s.settled ++ rejected_all kind ts;
}

unfoldable pub emptied : Queue → Queue
emptied q = record q { tasks = []; queued_bytes = 0 }

abbrev is_cancelled : FailureKind → Bool
is_cancelled cancelled = true
is_cancelled _ = false

abbrev is_unavailable : FailureKind → Bool
is_unavailable unavailable = true
is_unavailable _ = false

-- The counters and the rejection of a task that failed.
unfoldable pub settle_failed : Scheduler → Task → FailureKind → Scheduler
settle_failed s t kind = record s {
  cancelled_frames = s.cancelled_frames + (if is_cancelled kind then 1 else 0);
  rejected_frames = s.rejected_frames + (if is_cancelled kind then 0 else 1);
  settled = s.settled ++ rejected t kind ∷ [];
}

unfoldable pub settle_sent : Scheduler → Task → Scheduler
settle_sent s t = record s {
  sent_frames = s.sent_frames + 1;
  sent_bytes = s.sent_bytes + t.bytes;
  settled = s.settled ++ resolved t ∷ [];
}

-- The end of a round in which the task failed; an unavailable peer fails the rest as well.
unfoldable pub fail_round : Scheduler → String → Queue → Task → FailureKind → Scheduler
unfolding settle_failed reject_queued emptied process
fail_round s peer q t kind =
    if is_unavailable kind
    then process (reject_queued (settle_failed s t kind) q.tasks kind) peer (emptied q)
    else process (settle_failed s t kind) peer q

-- How the sending of the active task ends: none for success.
unfoldable pub finish_task :
    Scheduler → String → Queue → Option Task → Option FailureKind → Scheduler
unfolding fail_round settle_sent process
finish_task s peer q none failure = s
finish_task s peer q (some t) (some kind) = fail_round s peer q t kind
finish_task s peer q (some t) none =
    if not s.running || q.cancelled
    then fail_round s peer q t cancelled
    else process (settle_sent s t) peer q

finish_in : Scheduler → String → Option FailureKind → Option Queue → Scheduler
unfolding finish_task
finish_in s peer failure none = s
finish_in s peer failure (some q) = finish_task s peer q q.active_task failure

unfoldable pub finish : Scheduler → String → Option FailureKind → Scheduler
unfolding finish_in
finish s peer failure = finish_in s peer failure (get s.queues peer)

cancel_in : Scheduler → String → Option Queue → Scheduler
unfolding reject_queued emptied keep_queue
cancel_in s peer none = s
cancel_in s peer (some q) =
    let s' = reject_queued s q.tasks cancelled in
    record s' { queues = keep_queue s'.queues peer (record (emptied q) { cancelled = true }) }

unfoldable pub cancel_peer : Scheduler → String → Scheduler
unfolding cancel_in
cancel_peer s peer = cancel_in s peer (get s.queues peer)

cancel_peers : Scheduler → List String → Scheduler
unfolding cancel_peer
cancel_peers s [] = s
cancel_peers s (peer ∷ peers) = cancel_peers (cancel_peer s peer) peers

unfoldable pub stop : Scheduler → Scheduler
unfolding cancel_peers
stop s =
    if not s.running && nat_beq (size s.queues) 0
    then s
    else cancel_peers (record s { running = false }) (keys s.queues)

unfoldable pub start : Scheduler → Scheduler
start s = record s { running = true }
