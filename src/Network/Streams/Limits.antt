-- ===== src/Network/Streams/Limits.antt =====
-- On the limits of the streams, and on retrying one.
use synpeer.Prelude.{
  ℕ, zero, suc, ◌+◌, ◌-◌, ◌≤◌, ◌<◌, String, Option, none, some, List, [], ◌∷◌, Bool, true, false,
  ◌≡◌, refl, leb, nat_beq, arith, Bool-cases, inl, inr,
}
use synpeer.Dict.{Dict, get, put, delete, size}
use synpeer.Dict.Each.{Each, put-Each, delete-Each, get-Each}
use synpeer.Network.Streams.{
  Config, Stream, Streams, set_stream_opener, drop_id, clean_found, cleanup_stream, open_stream,
  is_error, close_stream, renew, sent, missed, attempt_from, send_data, retry_stream, cancel_stream,
  receive_data, keep_alive, time_out, close_peer_streams, close_all_streams,
}

-- The calls of the manager, its timers among them.
pub data Call : Type 0 where
  do_opener : Call
  do_close_all : (String → Bool) → Call
  do_open : (ℕ → ℕ) → String → Option String → Bool → Call
  do_close do_cancel : String → Bool → Call
  do_close_peer : String → (String → Bool) → Call
  do_send : (ℕ → ℕ) → String → ℕ → (ℕ → Bool) → Call
  do_retry : (ℕ → ℕ) → String → Bool → Call
  do_receive : ℕ → String → ℕ → Call
  do_keep_alive : ℕ → String → Call
  do_time_out : ℕ → String → Bool → Call

module _ (id_of : String → ℕ → ℕ → String) where
  unfoldable pub perform : Streams → Call → Streams
  unfolding set_stream_opener open_stream close_stream cancel_stream send_data retry_stream
      receive_data keep_alive time_out close_peer_streams close_all_streams
  perform m do_opener = set_stream_opener m
  perform m (do_close_all closes) = close_all_streams m closes
  perform m (do_open now peer protocol opens) = (open_stream id_of m now peer protocol opens).0
  perform m (do_close id closes) = (close_stream m id closes).0
  perform m (do_cancel id aborts) = (cancel_stream m id aborts).0
  perform m (do_close_peer peer closes) = close_peer_streams m peer closes
  perform m (do_send now id bytes accepts) = (send_data m now id bytes accepts).0
  perform m (do_retry now id opens) = (retry_stream m now id opens).0
  perform m (do_receive now id bytes) = (receive_data m now id bytes).0
  perform m (do_keep_alive now id) = keep_alive m now id
  perform m (do_time_out now id closes) = time_out m now id closes

  unfoldable pub perform_all : Streams → List Call → Streams
  unfolding perform
  perform_all m [] = m
  perform_all m (c ∷ cs) = perform_all (perform m c) cs

pub size-put : (d : Dict (Unit {0})) (k : String) → size (put d k tt) ≤ size d + 1
unfolding size put
size-put [] k = omega arith
size-put ((j, u) ∷ d) k = ground (arith, size-put d k)

size-delete : (d : Dict (Unit {0})) (k : String) → size (delete d k) ≤ size d
unfolding size delete
size-delete [] k = omega arith
size-delete ((j, u) ∷ d) k = ground (arith, size-delete d k)

abbrev pub IsCounted : Config → Dict (Unit {0}) → Type 0
IsCounted c ids = size ids ≤ c.max_concurrent_streams

-- Within the rate, and in error only after the last attempt.
pub record IsSound (c : Config) (s : Stream) : Type 0 where
  pub rate : s.window_bytes_sent ≤ c.max_bytes_per_second
  pub spent : is_error s.status ≡ true → c.max_retries < s.retry_count

pub record IsLimited (m : Streams) : Type 0 where
  pub counted : Each (IsCounted m.config) m.peer_streams
  pub sound : Each (IsSound m.config) m.streams

drop_id-Each :
    (c : Config) (d : Dict (Dict (Unit {0}))) (peer id : String) (o : Option (Dict (Unit {0})))
    → get d peer ≡ o
    → Each (IsCounted c) d
    → Each (IsCounted c) (drop_id d peer id o)
unfolding drop_id
drop_id-Each c d peer id none e h = h
drop_id-Each c d peer id (some ids) e h = elim (Bool-cases (nat_beq (size (delete ids id)) 0)) [
  | inl b ↦ rw b (delete-Each (IsCounted c) d peer h)
  | inr b ↦
      let held : IsCounted c ids = get-Each (IsCounted c) d peer ids h e in
      rw b
        (put-Each (IsCounted c) d peer (delete ids id) h (omega (arith, held, size-delete ids id)))
]

pub cleanup-IsLimited : (m : Streams) (id : String) → IsLimited m → IsLimited (cleanup_stream m id)
unfolding cleanup_stream clean_found
cleanup-IsLimited m id h = go (get m.streams id)
  where
    go : (o : Option Stream) → IsLimited (clean_found m id o)
    go none = h
    go (some s) = record {
      counted = drop_id-Each m.config m.peer_streams s.peer_id id _ refl h.counted;
      sound = delete-Each (IsSound m.config) m.streams id h.sound;
    }

-- A stream in place of the one that was found.
pub put-IsLimited :
    (m : Streams) (id : String) (s : Stream)
    → IsSound m.config s
    → IsLimited m
    → IsLimited (record m { streams = put m.streams id s })
put-IsLimited m id s x h = record {
  counted = h.counted;
  sound = put-Each (IsSound m.config) m.streams id s h.sound x;
}

pub found-IsSound :
    (m : Streams) (id : String) (s : Stream)
    → get m.streams id ≡ some s
    → IsLimited m
    → IsSound m.config s
found-IsSound m id s e h = get-Each (IsSound m.config) m.streams id s h.sound e

pub renew-IsSound :
    (c : Config) (now later : ℕ) (s : Stream) → IsSound c s → IsSound c (renew now later s)
unfolding renew
renew-IsSound c now later s h = elim (Bool-cases (leb 1000 (now - s.last_rate_limit_reset))) [
  | inl b ↦ rw b (record { rate = omega arith; spent = h.spent })
  | inr b ↦ rw b h
]

pub renew-status : (now later : ℕ) (s : Stream) → (renew now later s).status ≡ s.status
unfolding renew
renew-status now later s = ground arith

pub attempt_from-IsSound :
    (c : Config) (accepts : ℕ → Bool) (now : ℕ → ℕ) (bytes attempt left : ℕ) (s : Stream)
    → is_error s.status ≡ false
    → s.window_bytes_sent + bytes ≤ c.max_bytes_per_second
    → attempt + left ≡ c.max_retries
    → IsSound c (attempt_from accepts now bytes attempt left s).0
unfolding attempt_from sent missed
attempt_from-IsSound c accepts now bytes attempt zero s a w e =
    elim (Bool-cases (accepts attempt)) [
      | inl b ↦ rw b (record { rate = w; spent = λ x. absurd (ground (arith, a, x)) })
      | inr b ↦ rw b (record { rate = omega (arith, w); spent = λ x. omega (arith, e) })
    ]
attempt_from-IsSound c accepts now bytes attempt (suc left) s a w e =
    let rest =
      attempt_from-IsSound c accepts now bytes (attempt + 1) left (missed (now attempt) attempt s) a
        w (omega (arith, e)) in
    elim (Bool-cases (accepts attempt)) [
      | inl b ↦ rw b (record { rate = w; spent = λ x. absurd (ground (arith, a, x)) })
      | inr b ↦ rw b rest
    ]
