-- ===== src/Network/Streams/Guarantees.antt =====
-- On runs of the stream manager.
use synpeer.Prelude.{
  ℕ, ◌+◌, ◌≤◌, String, Option, none, some, List, [], ◌∷◌, Bool, true, false, not, ◌≡◌, leb,
  if◌then◌else◌, arith, Bool-cases, Option-cases, inl, inr, subst, sym,
}
use synpeer.Dict.{get, put, keys, size}
use synpeer.Dict.Each.{put-Each, get-Each}
use synpeer.Network.Streams.{
  or_protocol, Config, active, Stream, Streams, Outcome, threw, make, set_stream_opener, ids_of,
  get_peer_stream_count, cleanup_stream, open_stream, retry_stream, close_peer_streams,
  close_all_streams,
}
use synpeer.Network.Streams.Limits.{
  Call, do_opener, do_close_all, do_open, do_close, do_cancel, do_close_peer, do_send, do_retry,
  do_receive, do_keep_alive, do_time_out, perform, perform_all, IsCounted, IsSound, IsLimited,
  size-put, cleanup-IsLimited, found-IsSound,
}
use synpeer.Network.Streams.Runs.{
  close-IsLimited, cancel-IsLimited, close_each-IsLimited, send-IsLimited, receive-IsLimited,
  keep_alive-IsLimited, time_out-IsLimited, retry_stream-refused,
}

module _ (id_of : String → ℕ → ℕ → String) where
  open-IsLimited :
      (m : Streams) (now : ℕ → ℕ) (peer : String) (protocol : Option String) (opens : Bool)
      → IsLimited m
      → IsLimited (open_stream id_of m now peer protocol opens).0
  unfolding open_stream get_peer_stream_count
  open-IsLimited m now peer protocol opens h =
      let id = id_of peer (now 0) (m.counter + 1) in
      let ids = ids_of (get m.peer_streams peer) in
      let fresh : Stream = record {
        peer_id = peer;
        protocol = or_protocol protocol m.config.protocol;
        created_at = now 1;
        last_activity = now 2;
        bytes_sent = 0;
        bytes_received = 0;
        status = active;
        window_bytes_sent = 0;
        last_rate_limit_reset = now 3;
        is_cancelled = false;
        retry_count = 0;
        last_retry = 0;
      } in
      let added : Streams = record m {
        counter = m.counter + 1;
        streams = put m.streams id fresh;
        peer_streams = put m.peer_streams peer (put ids id tt);
      } in
      let kept : IsLimited (record m { counter = m.counter + 1 }) = record {
        counted = h.counted;
        sound = h.sound;
      } in
      let limited : leb m.config.max_concurrent_streams (size ids) ≡ false → IsLimited added = λ b.
        record {
          counted =
              put-Each (IsCounted m.config) m.peer_streams peer (put ids id tt) h.counted
                (ground (arith, b, size-put ids id));
          sound =
              put-Each (IsSound m.config) m.streams id fresh h.sound
                (record { rate = omega arith; spent = λ e. cc });
        } in
      elim (Bool-cases (leb m.config.max_concurrent_streams (size ids))) [
        | inl b ↦ rw b kept
        | inr b ↦ rw b (go m.has_opener opens added id (limited b))
      ]
    where
      first : Streams × Option String → Type 0
      first x = IsLimited x.0

      go :
          (a b : Bool) (n : Streams) (i : String)
          → IsLimited n
          → first (
              if not a
              then (n, some i)
              else if b
              then (record n { managed = put n.managed i tt }, some i)
              else (cleanup_stream n i, none))
      go false b n i x = x
      go true true n i x = record { counted = x.counted; sound = x.sound }
      go true false n i x = cleanup-IsLimited n i x

  perform-IsLimited : (m : Streams) (c : Call) → IsLimited m → IsLimited (perform id_of m c)
  unfolding perform set_stream_opener close_peer_streams close_all_streams
  perform-IsLimited m do_opener h = record { counted = h.counted; sound = h.sound }
  perform-IsLimited m (do_close_all closes) h = close_each-IsLimited m closes (keys m.streams) h
  perform-IsLimited m (do_open now peer protocol opens) h =
      open-IsLimited m now peer protocol opens h
  perform-IsLimited m (do_close id closes) h = close-IsLimited m id closes h
  perform-IsLimited m (do_cancel id aborts) h = cancel-IsLimited m id aborts h
  perform-IsLimited m (do_close_peer peer closes) h =
      close_each-IsLimited m closes (keys (ids_of (get m.peer_streams peer))) h
  perform-IsLimited m (do_send now id bytes accepts) h = send-IsLimited m now id bytes accepts h
  perform-IsLimited m (do_retry now id opens) h =
      subst (λ (x : Streams × Outcome). IsLimited x.0) (sym (retry_stream-refused m now id opens h))
        h
  perform-IsLimited m (do_receive now id bytes) h = receive-IsLimited m now id bytes h
  perform-IsLimited m (do_keep_alive now id) h = keep_alive-IsLimited m now id h
  perform-IsLimited m (do_time_out now id closes) h = time_out-IsLimited m now id closes h

  perform_all-IsLimited :
      (m : Streams) (cs : List Call) → IsLimited m → IsLimited (perform_all id_of m cs)
  unfolding perform_all
  perform_all-IsLimited m [] h = h
  perform_all-IsLimited m (c ∷ cs) h =
      perform_all-IsLimited (perform id_of m c) cs (perform-IsLimited m c h)

  make-IsLimited : (c : Config) → IsLimited (make c)
  unfolding make
  make-IsLimited c = record { counted = tt; sound = tt }

  -- After any calls on a new manager, each run to its end before the next, no peer has more
  -- streams than the limit, and no stream has sent more bytes in its window than the limit of a
  -- second.
  pub limits_hold :
      (c : Config) (cs : List Call) (peer id : String) (s : Stream)
      → get (perform_all id_of (make c) cs).streams id ≡ some s
      → (get_peer_stream_count (perform_all id_of (make c) cs) peer
          ≤ (perform_all id_of (make c) cs).config.max_concurrent_streams)
        × (s.window_bytes_sent ≤ (perform_all id_of (make c) cs).config.max_bytes_per_second)
  unfolding get_peer_stream_count size
  limits_hold c cs peer id s e =
      let m = perform_all id_of (make c) cs in
      let h : IsLimited m = perform_all-IsLimited (make c) cs (make-IsLimited c) in
      (
        elim (Option-cases (get m.peer_streams peer)) [
          | inl n ↦ rw n (omega arith)
          | inr (ids, n) ↦ rw n (get-Each (IsCounted m.config) m.peer_streams peer ids h.counted n)
        ],
        (found-IsSound m id s e h).rate,
      )

  -- After any calls on a new manager, each run to its end before the next, retryStream throws and
  -- changes nothing, whatever the stream.
  pub retry_never_succeeds :
      (c : Config) (cs : List Call) (now : ℕ → ℕ) (id : String) (opens : Bool)
      → retry_stream (perform_all id_of (make c) cs) now id opens
        ≡ (perform_all id_of (make c) cs, threw)
  retry_never_succeeds c cs now id opens =
      retry_stream-refused (perform_all id_of (make c) cs) now id opens
        (perform_all-IsLimited (make c) cs (make-IsLimited c))
