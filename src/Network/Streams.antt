-- ===== src/Network/Streams.antt =====
-- src/network/StreamManager.ts. A call runs to its end before the next one: what the opener of streams
-- and the streams answer is an argument of the call. The texts of ids are a parameter.
pub mod Limits
pub mod Runs
pub mod Guarantees
use synpeer.Prelude.{
  ℕ, zero, suc, ◌+◌, ◌-◌, String, Option, none, some, List, [], ◌∷◌, Bool, true, false, not, ◌&&◌,
  ◌||◌, ltb, leb, nat_beq, if◌then◌else◌, filter,
}
use synpeer.Dict.{Dict, get, has, put, delete, keys, values, size}

pub record Config : Type 0 where
  pub protocol : String
  pub timeout : ℕ
  pub max_concurrent_streams : ℕ
  pub flow_control_window : ℕ
  pub max_bytes_per_second : ℕ
  pub max_retries : ℕ

pub data Status : Type 0 where
  active closing closed error cancelled : Status

pub record Stream : Type 0 where
  pub peer_id : String
  pub protocol : String
  pub created_at : ℕ
  pub last_activity : ℕ
  pub bytes_sent : ℕ
  pub bytes_received : ℕ
  pub status : Status
  pub window_bytes_sent : ℕ
  pub last_rate_limit_reset : ℕ
  pub is_cancelled : Bool
  pub retry_count : ℕ
  pub last_retry : ℕ

-- `managed` names the streams that an opener has opened.
pub record Streams : Type 0 where
  pub config : Config
  pub streams : Dict Stream
  pub peer_streams : Dict (Dict (Unit {0}))
  pub managed : Dict (Unit {0})
  pub counter : ℕ
  pub has_opener : Bool

-- A call throws, or returns.
pub data Outcome : Type 0 where
  returned threw : Outcome

unfoldable pub make : Config → Streams
make c = record {
  config = c;
  streams = [];
  peer_streams = [];
  managed = [];
  counter = 0;
  has_opener = false;
}

unfoldable pub set_stream_opener : Streams → Streams
set_stream_opener m = record m { has_opener = true }

abbrev pub ids_of : Option (Dict (Unit {0})) → Dict (Unit {0})
ids_of none = []
ids_of (some ids) = ids

unfoldable pub get_peer_stream_count : Streams → String → ℕ
unfolding size
get_peer_stream_count m peer = size (ids_of (get m.peer_streams peer))

-- The peer's set without an id; an empty set is taken out.
unfoldable pub drop_id :
    Dict (Dict (Unit {0})) → String → String → Option (Dict (Unit {0})) → Dict (Dict (Unit {0}))
unfolding size
drop_id d peer id none = d
drop_id d peer id (some ids) =
    if nat_beq (size (delete ids id)) 0 then delete d peer else put d peer (delete ids id)

unfoldable pub clean_found : Streams → String → Option Stream → Streams
unfolding drop_id
clean_found m id none = m
clean_found m id (some s) = record m {
  peer_streams = drop_id m.peer_streams s.peer_id id (get m.peer_streams s.peer_id);
  streams = delete m.streams id;
  managed = delete m.managed id;
}

unfoldable pub cleanup_stream : Streams → String → Streams
unfolding clean_found
cleanup_stream m id = clean_found m id (get m.streams id)

abbrev pub or_protocol : Option String → String → String
or_protocol none p = p
or_protocol (some p) _ = p

-- `opens` is the opener's answer; `id_of` the text of an id, made of the peer, a time and the counter.
unfoldable pub open_stream :
    (String → ℕ → ℕ → String)
    → Streams
    → (ℕ → ℕ)
    → String
    → Option String
    → Bool
    → Streams × Option String
unfolding get_peer_stream_count cleanup_stream
open_stream id_of m now peer protocol opens =
    let id = id_of peer (now 0) (m.counter + 1) in
    let n : Streams = record m { counter = m.counter + 1 } in
    let added : Streams = record n {
      streams = put m.streams id (record {
        peer_id = peer;
        protocol = or_protocol protocol m.config.protocol;
        created_at = now 1;
        last_activity = now 2;
        bytes_sent = 0;
        bytes_received = 0;
        status = active;
        window_bytes_sent = 0;
        last_rate_limit_reset = now 3;
        is_cancelled = false;
        retry_count = 0;
        last_retry = 0;
      });
      peer_streams = put m.peer_streams peer (put (ids_of (get m.peer_streams peer)) id tt);
    } in
    if leb m.config.max_concurrent_streams (get_peer_stream_count m peer)
    then (n, none)
    else if not m.has_opener
    then (added, some id)
    else if opens
    then (record added { managed = put added.managed id tt }, some id)
    else (cleanup_stream added id, none)

abbrev pub is_active : Status → Bool
is_active active = true
is_active _ = false

abbrev pub is_closed : Status → Bool
is_closed closed = true
is_closed _ = false

abbrev pub is_over : Status → Bool
is_over closed = true
is_over cancelled = true
is_over _ = false

abbrev pub is_error : Status → Bool
is_error error = true
is_error _ = false

-- A stream whose status is changed.
unfoldable pub marked : Streams → String → Stream → Status → Streams
marked m id s status = record m { streams = put m.streams id (record s { status = status }) }

-- `closes` is whether the stream, if an opener has opened one, closes without an error; with an error
-- the call throws while the stream is closing.
unfoldable pub close_found : Streams → String → Bool → Option Stream → Streams × Outcome
unfolding cleanup_stream marked
close_found m id closes none = (m, threw)
close_found m id closes (some s) =
    if is_closed s.status
    then (m, returned)
    else if has m.managed id && not closes
    then (marked m id s closing, threw)
    else (cleanup_stream m id, returned)

unfoldable pub close_stream : Streams → String → Bool → Streams × Outcome
unfolding close_found
close_stream m id closes = close_found m id closes (get m.streams id)

-- The window starts again after a second.
unfoldable pub renew : ℕ → ℕ → Stream → Stream
renew now later s =
    if leb 1000 (now - s.last_rate_limit_reset)
    then record s { window_bytes_sent = 0; last_rate_limit_reset = later }
    else s

unfoldable pub sent : ℕ → ℕ → Stream → Stream
sent now bytes s = record s {
  bytes_sent = s.bytes_sent + bytes;
  window_bytes_sent = s.window_bytes_sent + bytes;
  last_activity = now;
  retry_count = 0;
}

unfoldable pub missed : ℕ → ℕ → Stream → Stream
missed now attempt s = record s { retry_count = attempt + 1; last_retry = now }

-- The attempts that are left after this one; `accepts` answers each.
unfoldable pub attempt_from : (ℕ → Bool) → (ℕ → ℕ) → ℕ → ℕ → ℕ → Stream → Stream × Outcome
unfolding sent missed
attempt_from accepts now bytes attempt zero s =
    if accepts attempt
    then (sent (now attempt) bytes s, returned)
    else (record (missed (now attempt) attempt s) { status = error }, threw)
attempt_from accepts now bytes attempt (suc left) s =
    let rest = attempt_from accepts now bytes (attempt + 1) left (missed (now attempt) attempt s) in
    if accepts attempt then (sent (now attempt) bytes s, returned) else rest

-- On the stream that was found; a stream that no opener has opened accepts everything.
unfoldable pub send_on : Config → (ℕ → ℕ) → ℕ → Bool → (ℕ → Bool) → Stream → Stream × Outcome
unfolding renew attempt_from
send_on c now bytes managed accepts s =
    let first =
      if ltb c.flow_control_window (s.window_bytes_sent + bytes)
      then renew (now 0) (now 1) s
      else s in
    let second = renew (now 2) (now 3) first in
    if not (is_active s.status)
    then (s, threw)
    else if s.is_cancelled
    then (s, threw)
    else if ltb c.flow_control_window (s.window_bytes_sent + bytes)
        && not (leb 1000 (now 0 - s.last_rate_limit_reset))
    then (s, threw)
    else if ltb c.max_bytes_per_second (second.window_bytes_sent + bytes)
    then (second, threw)
    else attempt_from (λ k. not managed || accepts k) (λ k. now (4 + k)) bytes 0 c.max_retries
        second

unfoldable pub send_found :
    Streams → (ℕ → ℕ) → String → ℕ → (ℕ → Bool) → Option Stream → Streams × Outcome
unfolding send_on
send_found m now id bytes accepts none = (m, threw)
send_found m now id bytes accepts (some s) =
    let x = send_on m.config now bytes (has m.managed id) accepts s in
    (record m { streams = put m.streams id x.0 }, x.1)

unfoldable pub send_data : Streams → (ℕ → ℕ) → String → ℕ → (ℕ → Bool) → Streams × Outcome
unfolding send_found
send_data m now id bytes accepts = send_found m now id bytes accepts (get m.streams id)

unfoldable pub retry_found : Streams → (ℕ → ℕ) → String → Bool → Option Stream → Streams × Outcome
retry_found m now id opens none = (m, threw)
retry_found m now id opens (some s) =
    let again = record m {
      streams =
          put m.streams id
            (record s { status = active; last_retry = now 0; last_activity = now 1 });
    } in
    if not (is_error s.status)
    then (m, threw)
    else if leb m.config.max_retries s.retry_count
    then (m, threw)
    else if not m.has_opener
    then (again, returned)
    else if opens
    then (record again { managed = put again.managed id tt }, returned)
    else (again, threw)

unfoldable pub retry_stream : Streams → (ℕ → ℕ) → String → Bool → Streams × Outcome
unfolding retry_found
retry_stream m now id opens = retry_found m now id opens (get m.streams id)

-- `aborts` is whether the abort of the stream, if there is one, returns; if it throws, the stream stays.
unfoldable pub cancel_found : Streams → String → Bool → Option Stream → Streams × Outcome
unfolding cleanup_stream
cancel_found m id aborts none = (m, threw)
cancel_found m id aborts (some s) =
    if is_over s.status
    then (m, returned)
    else if has m.managed id && not aborts
    then (
      record m {
        streams = put m.streams id (record s { is_cancelled = true; status = cancelled });
      },
      threw,
    )
    else (cleanup_stream m id, returned)

unfoldable pub cancel_stream : Streams → String → Bool → Streams × Outcome
unfolding cancel_found
cancel_stream m id aborts = cancel_found m id aborts (get m.streams id)

unfoldable pub receive_found : Streams → ℕ → String → ℕ → Option Stream → Streams × Outcome
receive_found m now id bytes none = (m, threw)
receive_found m now id bytes (some s) =
    if is_active s.status
    then (
      record m {
        streams =
            put m.streams id
              (record s { bytes_received = s.bytes_received + bytes; last_activity = now });
      },
      returned,
    )
    else (m, threw)

unfoldable pub receive_data : Streams → ℕ → String → ℕ → Streams × Outcome
unfolding receive_found
receive_data m now id bytes = receive_found m now id bytes (get m.streams id)

-- A tick of the keep-alive timer.
unfoldable pub keep_found : Streams → ℕ → String → Option Stream → Streams
keep_found m now id none = m
keep_found m now id (some s) =
    if is_active s.status
    then record m { streams = put m.streams id (record s { last_activity = now }) }
    else m

unfoldable pub keep_alive : Streams → ℕ → String → Streams
unfolding keep_found
keep_alive m now id = keep_found m now id (get m.streams id)

-- The tick of the timeout; what the close throws is caught.
unfoldable pub time_found : Streams → ℕ → String → Bool → Option Stream → Streams
unfolding close_stream
time_found m now id closes none = m
time_found m now id closes (some s) =
    if is_active s.status && ltb m.config.timeout (now - s.last_activity)
    then (close_stream m id closes).0
    else m

unfoldable pub time_out : Streams → ℕ → String → Bool → Streams
unfolding time_found
time_out m now id closes = time_found m now id closes (get m.streams id)

-- What a close throws is caught, stream by stream.
unfoldable pub close_each : Streams → (String → Bool) → List String → Streams
unfolding close_stream
close_each m closes [] = m
close_each m closes (id ∷ ids) = close_each (close_stream m id (closes id)).0 closes ids

unfoldable pub close_peer_streams : Streams → String → (String → Bool) → Streams
unfolding close_each keys
close_peer_streams m peer closes = close_each m closes (keys (ids_of (get m.peer_streams peer)))

unfoldable pub close_all_streams : Streams → (String → Bool) → Streams
unfolding close_each keys
close_all_streams m closes = close_each m closes (keys m.streams)

unfoldable pub get_all_streams : Streams → List Stream
unfolding values
get_all_streams m = filter (λ (s : Stream). is_active s.status) (values m.streams)
