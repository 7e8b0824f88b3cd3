-- ===== src/Network/Streams/Runs.antt =====
-- On the single calls of the stream manager.
use synpeer.Prelude.{
  ℕ, ◌+◌, ◌-◌, String, Option, none, some, List, [], ◌∷◌, Bool, true, false, not, ◌&&◌, ◌||◌, ◌≡◌,
  refl, ltb, leb, if◌then◌else◌, arith, Bool-cases, inl, inr,
}
use synpeer.Dict.{get, has, put}
use synpeer.Network.Streams.{
  marked, is_closed, is_over, Config, Status, active, closing, closed, error, cancelled, Stream,
  Streams, Outcome, threw, is_active, is_error, close_stream, renew, send_on, send_data,
  retry_stream, close_found, send_found, retry_found, cancel_found, receive_found, keep_found,
  time_found, cancel_stream, receive_data, keep_alive, time_out, close_each,
}
use synpeer.Network.Streams.Limits.{
  IsSound, IsLimited, cleanup-IsLimited, put-IsLimited, found-IsSound, renew-IsSound, renew-status,
  attempt_from-IsSound,
}

choose :
    (c : Config) (b : Bool) (x y : Stream × Outcome)
    → IsSound c x.0
    → (b ≡ false → IsSound c y.0)
    → IsSound c (if b then x else y).0
choose c true x y h k = h
choose c false x y h k = k refl

send_on-IsSound :
    (c : Config) (now : ℕ → ℕ) (bytes : ℕ) (managed : Bool) (accepts : ℕ → Bool) (s : Stream)
    → IsSound c s
    → IsSound c (send_on c now bytes managed accepts s).0
unfolding send_on
send_on-IsSound c now bytes managed accepts s h =
    let wide = ltb c.flow_control_window (s.window_bytes_sent + bytes) in
    let first : Stream = if wide then renew (now 0) (now 1) s else s in
    let second = renew (now 2) (now 3) first in
    let first_sound : IsSound c first = elim (Bool-cases wide) [
      | inl b ↦ rw b (renew-IsSound c (now 0) (now 1) s h)
      | inr b ↦ rw b h
    ] in
    let second_sound = renew-IsSound c (now 2) (now 3) first first_sound in
    let status : second.status ≡ s.status =
      ground (arith, renew-status (now 2) (now 3) first, renew-status (now 0) (now 1) s) in
    elim (Bool-cases (is_active s.status)) [
      | inl a ↦ rw a (
          choose c s.is_cancelled _ _ h (λ b.
            choose c (wide && not (leb 1000 (now 0 - s.last_rate_limit_reset))) _ _ h (λ d.
              choose c (ltb c.max_bytes_per_second (second.window_bytes_sent + bytes)) _ _
                second_sound
                (λ e.
                  attempt_from-IsSound c (λ k. not managed || accepts k) (λ k. now (4 + k)) bytes 0
                    c.max_retries second (rw status (not_error s.status a)) (ground (arith, e))
                    (omega arith)))))
      | inr a ↦ rw a h
    ]
  where
    not_error : (t : Status) → is_active t ≡ true → is_error t ≡ false
    not_error active a = refl
    not_error closing a = cc
    not_error closed a = cc
    not_error error a = cc
    not_error cancelled a = cc

-- A stream that was found, with a status other than an error.
ended-IsLimited :
    (m : Streams) (id : String) (s t : Stream)
    → get m.streams id ≡ some s
    → s.window_bytes_sent ≡ t.window_bytes_sent
    → is_error t.status ≡ false
    → IsLimited m
    → IsLimited (record m { streams = put m.streams id t })
ended-IsLimited m id s t e a b h =
    let x = found-IsSound m id s e h in
    put-IsLimited m id t
      (record { rate = omega (arith, x.rate, a); spent = λ k. absurd (ground (arith, b, k)) }) h

-- The three ways in which a stream is ended.
three :
    (a b : Bool) (x y z : Streams × Outcome)
    → IsLimited x.0
    → IsLimited y.0
    → IsLimited z.0
    → IsLimited (if a then x else if b then y else z).0
three true b x y z h k l = h
three false true x y z h k l = k
three false false x y z h k l = l

pub close-IsLimited :
    (m : Streams) (id : String) (closes : Bool)
    → IsLimited m
    → IsLimited (close_stream m id closes).0
unfolding close_stream close_found marked
close-IsLimited m id closes h = go (get m.streams id) refl
  where
    go : (o : Option Stream) → get m.streams id ≡ o → IsLimited (close_found m id closes o).0
    go none e = h
    go (some s) e =
        three (is_closed s.status) (has m.managed id && not closes) _ _ _ h
          (ended-IsLimited m id s (record s { status = closing }) e refl refl h)
          (cleanup-IsLimited m id h)

pub cancel-IsLimited :
    (m : Streams) (id : String) (aborts : Bool)
    → IsLimited m
    → IsLimited (cancel_stream m id aborts).0
unfolding cancel_stream cancel_found
cancel-IsLimited m id aborts h = go (get m.streams id) refl
  where
    go : (o : Option Stream) → get m.streams id ≡ o → IsLimited (cancel_found m id aborts o).0
    go none e = h
    go (some s) e =
        three (is_over s.status) (has m.managed id && not aborts) _ _ _ h
          (ended-IsLimited m id s (record s { is_cancelled = true; status = cancelled }) e refl refl
            h)
          (cleanup-IsLimited m id h)

pub close_each-IsLimited :
    (m : Streams) (closes : String → Bool) (ids : List String)
    → IsLimited m
    → IsLimited (close_each m closes ids)
unfolding close_each
close_each-IsLimited m closes [] h = h
close_each-IsLimited m closes (id ∷ ids) h =
    close_each-IsLimited (close_stream m id (closes id)).0 closes ids
      (close-IsLimited m id (closes id) h)

pub send-IsLimited :
    (m : Streams) (now : ℕ → ℕ) (id : String) (bytes : ℕ) (accepts : ℕ → Bool)
    → IsLimited m
    → IsLimited (send_data m now id bytes accepts).0
unfolding send_data send_found
send-IsLimited m now id bytes accepts h = go (get m.streams id) refl
  where
    go :
        (o : Option Stream)
        → get m.streams id ≡ o
        → IsLimited (send_found m now id bytes accepts o).0
    go none e = h
    go (some s) e =
        put-IsLimited m id (send_on m.config now bytes (has m.managed id) accepts s).0
          (send_on-IsSound m.config now bytes (has m.managed id) accepts s
            (found-IsSound m id s e h))
          h

-- The stream that was found, with other fields changed.
touched-IsLimited :
    (m : Streams) (id : String) (s t : Stream)
    → get m.streams id ≡ some s
    → s.window_bytes_sent ≡ t.window_bytes_sent
    → s.status ≡ t.status
    → s.retry_count ≡ t.retry_count
    → IsLimited m
    → IsLimited (record m { streams = put m.streams id t })
touched-IsLimited m id s t e a b c h =
    let x = found-IsSound m id s e h in
    put-IsLimited m id t
      (record { rate = omega (arith, x.rate, a); spent = λ k. omega (arith, c, x.spent (rw b k)) })
      h

pub receive-IsLimited :
    (m : Streams) (now : ℕ) (id : String) (bytes : ℕ)
    → IsLimited m
    → IsLimited (receive_data m now id bytes).0
unfolding receive_data receive_found
receive-IsLimited m now id bytes h = go (get m.streams id) refl
  where
    go : (o : Option Stream) → get m.streams id ≡ o → IsLimited (receive_found m now id bytes o).0
    go none e = h
    go (some s) e = elim (Bool-cases (is_active s.status)) [
      | inl b ↦ rw (receive_found, b) (touched-IsLimited m id s _ e refl refl refl h)
      | inr b ↦ rw (receive_found, b) h
    ]

pub keep_alive-IsLimited :
    (m : Streams) (now : ℕ) (id : String) → IsLimited m → IsLimited (keep_alive m now id)
unfolding keep_alive keep_found
keep_alive-IsLimited m now id h = go (get m.streams id) refl
  where
    go : (o : Option Stream) → get m.streams id ≡ o → IsLimited (keep_found m now id o)
    go none e = h
    go (some s) e = elim (Bool-cases (is_active s.status)) [
      | inl b ↦ rw (keep_found, b) (touched-IsLimited m id s _ e refl refl refl h)
      | inr b ↦ rw (keep_found, b) h
    ]

pub time_out-IsLimited :
    (m : Streams) (now : ℕ) (id : String) (closes : Bool)
    → IsLimited m
    → IsLimited (time_out m now id closes)
unfolding time_out time_found
time_out-IsLimited m now id closes h = go (get m.streams id)
  where
    go : (o : Option Stream) → IsLimited (time_found m now id closes o)
    go none = h
    go (some s) =
        elim (Bool-cases (is_active s.status && ltb m.config.timeout (now - s.last_activity))) [
          | inl b ↦ rw (time_found, b) (close-IsLimited m id closes h)
          | inr b ↦ rw (time_found, b) h
        ]

-- A stream in error has used up its attempts.
pub retry_stream-refused :
    (m : Streams) (now : ℕ → ℕ) (id : String) (opens : Bool)
    → IsLimited m
    → retry_stream m now id opens ≡ (m, threw)
unfolding retry_stream retry_found
retry_stream-refused m now id opens h = go (get m.streams id) refl
  where
    go : (o : Option Stream) → get m.streams id ≡ o → retry_found m now id opens o ≡ (m, threw)
    go none e = refl
    go (some s) e =
        let x = found-IsSound m id s e h in
        elim (Bool-cases (is_error s.status)) [
          | inl b ↦
              let spent : leb m.config.max_retries s.retry_count ≡ true =
                ground (arith, x.spent b) in
              rw (retry_found, b, spent) refl
          | inr b ↦ rw (retry_found, b) refl
        ]
