-- ===== src/Security/RateLimiting.antt =====
-- src/services/security/RateLimitingService.ts. `Date.now()` is an argument of each method; the
-- timer only decides when `cleanup_old_entries` runs. An entry is mutated in place, so the map
-- holds each change of it.
pub mod Window
pub mod Block
use synpeer.Prelude.{
  ℕ, ◌+◌, ◌-◌, ◌*◌, String, Option, none, some, List, [], ◌∷◌, ◌++◌, Bool, true, false, not, ◌&&◌,
  ltb, length, sum_by, filter, if◌then◌else◌,
}
use synpeer.Dict.{Dict, get, put, values, size}

pub record Entry : Type 0 where
  pub requests : List ℕ
  pub window_start : ℕ
  pub blocked : Bool
  pub blocked_until : ℕ

pub record Limiter : Type 0 where
  pub max_requests : ℕ
  pub window_ms : ℕ
  pub rate_limits : Dict Entry
  pub is_running : Bool

abbrev pub or_default : Option ℕ → ℕ → ℕ
or_default none d = d
or_default (some n) d = n

unfoldable pub make : Option ℕ → Option ℕ → Limiter
make max_requests window_ms = record {
  max_requests = or_default max_requests 100;
  window_ms = or_default window_ms 60000;
  rate_limits = [];
  is_running = false;
}

unfoldable pub start : Limiter → Limiter
start l = record l { is_running = true }

unfoldable pub stop : Limiter → Limiter
stop l = record l { is_running = false }

limited_at : Limiter → String → ℕ → Option Entry → Limiter × Bool
limited_at l peer now none = (l, false)
limited_at l peer now (some e) =
    if e.blocked && ltb e.blocked_until now
    then (
      record l {
        rate_limits = put l.rate_limits peer (record e { blocked = false; blocked_until = 0 });
      },
      false,
    )
    else (l, e.blocked)

unfoldable pub is_rate_limited : Limiter → ℕ → String → Limiter × Bool
unfolding limited_at
is_rate_limited l now peer = limited_at l peer now (get l.rate_limits peer)

pub record Reply : Type 0 where
  pub allowed : Bool
  pub remaining : ℕ
  pub reset_at : ℕ

unfoldable pub entry_or_new : ℕ → Option Entry → Entry
entry_or_new now none = record {
  requests = [];
  window_start = now;
  blocked = false;
  blocked_until = 0;
}
entry_or_new now (some e) = e

-- The window starts again once `now - windowStart > windowMs`.
unfoldable pub roll : ℕ → ℕ → Entry → Entry
roll window_ms now e =
    if ltb (e.window_start + window_ms) now
    then record e { requests = []; window_start = now }
    else e

-- What a request does to the entry of its peer.
unfoldable pub admit : ℕ → ℕ → ℕ → Entry → Entry × Reply
admit max_requests window_ms now e =
    if e.blocked && ltb now e.blocked_until
    then (e, record { allowed = false; remaining = 0; reset_at = e.blocked_until })
    else if ltb max_requests (length (e.requests ++ now ∷ []))
    then (
      record e {
        requests = e.requests ++ now ∷ [];
        blocked = true;
        blocked_until = now + window_ms;
      },
      record { allowed = false; remaining = 0; reset_at = now + window_ms },
    )
    else (
      record e { requests = e.requests ++ now ∷ [] },
      record {
        allowed = true;
        remaining = max_requests - length (e.requests ++ now ∷ []);
        reset_at = e.window_start + window_ms;
      },
    )

unfoldable pub record_request : Limiter → ℕ → String → Limiter × Reply
unfolding entry_or_new roll admit
record_request l now peer =
    let (e, reply) =
      admit l.max_requests l.window_ms now
        (roll l.window_ms now (entry_or_new now (get l.rate_limits peer))) in
    (record l { rate_limits = put l.rate_limits peer e }, reply)

reset_at_peer : Limiter → String → ℕ → Option Entry → Limiter
reset_at_peer l peer now none = l
reset_at_peer l peer now (some e) = record l {
  rate_limits =
      put l.rate_limits peer
        (record { requests = []; window_start = now; blocked = false; blocked_until = 0 });
}

unfoldable pub reset_rate_limit : Limiter → ℕ → String → Limiter
unfolding reset_at_peer
reset_rate_limit l now peer = reset_at_peer l peer now (get l.rate_limits peer)

-- `!entry.blocked && now - entry.windowStart > windowMs * 2`
abbrev pub is_stale : ℕ → ℕ → Entry → Bool
is_stale window_ms now e = not e.blocked && ltb (e.window_start + window_ms * 2) now

unfoldable pub retain : (Entry → Bool) → Dict Entry → Dict Entry
retain stale [] = []
retain stale ((k, e) ∷ d) = let rest = retain stale d in if stale e then rest else (k, e) ∷ rest

unfoldable pub cleanup_old_entries : Limiter → ℕ → Limiter
unfolding retain
cleanup_old_entries l now = record l {
  rate_limits = retain (is_stale l.window_ms now) l.rate_limits;
}

unfoldable pub clear_all : Limiter → Limiter
clear_all l = record l { rate_limits = [] }

pub record Statistics : Type 0 where
  pub total_peers : ℕ
  pub blocked_peers : ℕ
  pub total_requests : ℕ

unfoldable pub get_statistics : Limiter → Statistics
unfolding values
get_statistics l = record {
  total_peers = length (values l.rate_limits);
  blocked_peers = length (filter (λ (e : Entry). e.blocked) (values l.rate_limits));
  total_requests = sum_by (λ (e : Entry). length e.requests) (values l.rate_limits);
}
