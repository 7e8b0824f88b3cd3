-- ===== src/Tests/Streams.antt =====
-- Streams at concrete inputs (src/network/StreamManager.ts).
use synpeer.Prelude.{ℕ, ◌+◌, ◌≤◌, String, none, some, List, [], ◌∷◌, true, false, ◌≡◌, refl}
use synpeer.Dict.{get, has, put, size}
use synpeer.Network.Streams.{
  Config, active, Stream, threw, make, set_stream_opener, get_peer_stream_count, open_stream,
  send_data, send_found, send_on, renew, sent, attempt_from, retry_stream,
}
use synpeer.Network.Streams.Limits.{Call, do_opener, do_open, do_send, perform, perform_all}
use synpeer.Network.Streams.Guarantees.{limits_hold, retry_never_succeeds}

abbrev by_peer : String → ℕ → ℕ → String
by_peer peer now n = peer

abbrev config : Config
config = record {
  protocol = "chunk";
  timeout = 30000;
  max_concurrent_streams = 2;
  flow_control_window = 100;
  max_bytes_per_second = 50;
  max_retries = 1;
}

abbrev clock : ℕ → ℕ
clock n = 100 + n

abbrev sending : List Call
sending =
    do_opener
    ∷ do_open clock "p" none true
    ∷ do_send clock "p" 10 (λ k. true)
    ∷ do_send clock "p" 45 (λ k. true)
    ∷ []

abbrev sender : Stream
sender = record {
  peer_id = "p";
  protocol = "chunk";
  created_at = 101;
  last_activity = 104;
  bytes_sent = 10;
  bytes_received = 0;
  status = active;
  window_bytes_sent = 10;
  last_rate_limit_reset = 103;
  is_cancelled = false;
  retry_count = 0;
  last_retry = 0;
}

sender_found : get (perform_all by_peer (make config) sending).streams "p" ≡ some sender
unfolding perform_all perform make set_stream_opener open_stream get_peer_stream_count send_data
    send_found send_on renew sent attempt_from get has put size
sender_found = refl

limits_hold_example :
    (get_peer_stream_count (perform_all by_peer (make config) sending) "p"
      ≤ (perform_all by_peer (make config) sending).config.max_concurrent_streams)
    × (10 ≤ (perform_all by_peer (make config) sending).config.max_bytes_per_second)
limits_hold_example = limits_hold by_peer config sending "p" "p" sender sender_found

-- Both attempts fail, and the stream is in error.
abbrev failing : List Call
failing = do_opener ∷ do_open clock "p" none true ∷ do_send clock "p" 10 (λ k. false) ∷ []

retry_never_succeeds_example :
    retry_stream (perform_all by_peer (make config) failing) clock "p" true
    ≡ (perform_all by_peer (make config) failing, threw)
retry_never_succeeds_example = retry_never_succeeds by_peer config failing clock "p" true
