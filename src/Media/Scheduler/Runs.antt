-- ===== src/Media/Scheduler/Runs.antt =====
-- On the limits of the queues over any sequence of events.
use synpeer.Prelude.{
  ◌+◌, ◌≤◌, ◌≡◌, refl, String, Bool, true, false, not, ◌&&◌, List, [], ◌∷◌, arith, length, sum_by,
  filter, Bool-cases, inl, inr, if◌then◌else◌,
}
use synpeer.Dict.{Dict}
use synpeer.Dict.Each.{Each}
use synpeer.Media.Scheduler.{Policy, Task, Queue, Scheduler, is_empty, reject_queued, start}
use synpeer.Media.Scheduler.Events.{
  is_of_media, is_not_of_media, without_media, drop_media, cancel_media, Event, do_enqueue,
  do_finish, do_cancel_peer, do_cancel_media, do_stop, do_start, happen, happen_all, new,
}
use synpeer.Media.Scheduler.Capacity.{
  IsSound, IsWithin, bytes_of, length-with_active, enqueue-IsWithin, finish-IsWithin,
  cancel_peer-IsWithin, stop-IsWithin,
}

sum_by-filter :
    (id : String) (ts : List Task)
    → sum_by bytes_of (filter (is_of_media id) ts)
        + sum_by bytes_of (filter (is_not_of_media id) ts)
      ≡ sum_by bytes_of ts
sum_by-filter id [] = refl
sum_by-filter id (t ∷ ts) = elim (Bool-cases (is_of_media id t)) [
  | inl b ↦ rw b (omega (arith, sum_by-filter id ts))
  | inr b ↦ rw b (omega (arith, sum_by-filter id ts))
]

length-filter_not :
    (id : String) (ts : List Task) → length (filter (is_not_of_media id) ts) ≤ length ts
length-filter_not id [] = omega arith
length-filter_not id (t ∷ ts) = ground (arith, length-filter_not id ts)

module _ (p : Policy) where
  without_media-IsSound : (id : String) (q : Queue) → IsSound p q → IsSound p (without_media id q)
  unfolding without_media
  without_media-IsSound id q x = record {
    counted = omega (arith, x.counted, sum_by-filter id q.tasks);
    frames = omega (
      arith,
      x.frames,
      length-filter_not id q.tasks,
      length-with_active q.active_task q.tasks,
      length-with_active q.active_task (filter (is_not_of_media id) q.tasks),
    );
    room = omega (arith, x.room);
  }

  drop_media-Each :
      (id : String) (d : Dict Queue) → Each (IsSound p) d → Each (IsSound p) (drop_media id d)
  unfolding drop_media
  drop_media-Each id [] h = tt
  drop_media-Each id ((peer, q) ∷ d) h =
      go (not q.processing && is_empty (filter (is_not_of_media id) q.tasks))
        (drop_media-Each id d h.1)
    where
      go :
          (b : Bool)
          → Each (IsSound p) (drop_media id d)
          → Each
              (IsSound p)
              (if b then drop_media id d else (peer, without_media id q) ∷ drop_media id d)
      go true rest = rest
      go false rest = (without_media-IsSound id q h.0, rest)

  happen-IsWithin : (s : Scheduler) (e : Event) → IsWithin p s → IsWithin p (happen p s e)
  unfolding happen start cancel_media reject_queued
  happen-IsWithin s (do_enqueue t) h = enqueue-IsWithin p s t h
  happen-IsWithin s (do_finish peer failure) h = finish-IsWithin p s peer failure h
  happen-IsWithin s (do_cancel_peer peer) h = cancel_peer-IsWithin p s peer h
  happen-IsWithin s (do_cancel_media id) h = drop_media-Each id s.queues h
  happen-IsWithin s do_stop h = stop-IsWithin p s h
  happen-IsWithin s do_start h = h

  happen_all-IsWithin_from :
      (s : Scheduler) (es : List Event) → IsWithin p s → IsWithin p (happen_all p s es)
  unfolding happen_all
  happen_all-IsWithin_from s [] h = h
  happen_all-IsWithin_from s (e ∷ es) h =
      happen_all-IsWithin_from (happen p s e) es (happen-IsWithin s e h)

  -- From a new scheduler, whatever is enqueued, settled, cancelled, stopped and started in any
  -- order, every queue counts the bytes of its waiting tasks, and with the active task stays
  -- within the limits of frames and bytes.
  pub happen_all-IsWithin : (es : List Event) → IsWithin p (happen_all p new es)
  unfolding new
  happen_all-IsWithin es = happen_all-IsWithin_from new es tt
