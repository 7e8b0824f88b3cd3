-- ===== src/Security/RateLimiting/Block.antt =====
-- On blocks: who is allowed, and for how long not.
use synpeer.Prelude.{
  ℕ, ◌+◌, ◌≤◌, ◌<◌, ◌≡◌, ◌↔◌, ◌⊎◌, refl, sym, ap, subst, ◌∙◌, inl, inr, String, Option, none, some,
  List, [], ◌∷◌, Bool, true, false, arith, eq_iff, ◌==◌, length, length-append, Bool-cases, All,
}
use synpeer.Dict.{Dict, get}
use synpeer.Dict.Laws.{get-put}
use synpeer.Security.RateLimiting.{
  Entry, Limiter, entry_or_new, roll, admit, record_request, is_rate_limited, limited_at,
  cleanup_old_entries, retain, is_stale, start, stop,
}
use synpeer.Security.RateLimiting.Window.{record_request_other, rolled, rolled-record_request}

admit-allowed :
    (m w now : ℕ) (e : Entry)
    → ((admit m w now e).1.allowed ≡ true)
      ↔ ((e.blocked ≡ false) ⊎ (e.blocked_until ≤ now)) × (length e.requests < m)
unfolding admit
admit-allowed m w now e = ground (arith, length-append e.requests (now ∷ []))

-- A request is allowed exactly when no block is running and the window has room.
pub record_request-allowed :
    (l : Limiter) (now : ℕ) (peer : String)
    → ((record_request l now peer).1.allowed ≡ true)
      ↔ (((rolled l now peer).blocked ≡ false) ⊎ ((rolled l now peer).blocked_until ≤ now))
        × (length (rolled l now peer).requests < l.max_requests)
record_request-allowed l now peer =
    rw (rolled-record_request l now peer).1
      (admit-allowed l.max_requests l.window_ms now (rolled l now peer))

-- What a limiter sees.
pub data Event : Type 0 where
  request : String → Event
  query : String → Event
  sweep started stopped : Event

unfoldable pub react : Limiter → ℕ → Event → Limiter
react l now (request p) = (record_request l now p).0
react l now (query p) = (is_rate_limited l now p).0
react l now sweep = cleanup_old_entries l now
react l now started = start l
react l now stopped = stop l

unfoldable pub replay : Limiter → List (ℕ × Event) → Limiter
replay l [] = l
replay l ((at, e) ∷ es) = replay (react l at e) es

-- The peer is blocked until the given time.
abbrev pub IsBlocked : String → ℕ → Limiter → Type 0
IsBlocked peer until l =
    (e : Entry) × (get l.rate_limits peer ≡ some e) × (e.blocked ≡ true) × (e.blocked_until ≡ until)

admit-blocked :
    (m w now : ℕ) (e : Entry) → e.blocked ≡ true → now < e.blocked_until → (admit m w now e).0 ≡ e
unfolding admit
admit-blocked m w now e b lt = ground arith

admit-refused :
    (m w now : ℕ) (e : Entry)
    → e.blocked ≡ true
    → now < e.blocked_until
    → (admit m w now e).1.allowed ≡ false
unfolding admit
admit-refused m w now e b lt = ground arith

admit-over :
    (m w now : ℕ) (e : Entry)
    → e.blocked ≡ false
    → m ≤ length e.requests
    → ((admit m w now e).0.blocked ≡ true) × ((admit m w now e).0.blocked_until ≡ now + w)
unfolding admit
admit-over m w now e b h = ground (arith, length-append e.requests (now ∷ []))

rolled-blocked :
    (l : Limiter) (now : ℕ) (peer : String) {e : Entry}
    → get l.rate_limits peer ≡ some e
    → ((rolled l now peer).blocked ≡ e.blocked)
      × ((rolled l now peer).blocked_until ≡ e.blocked_until)
unfolding rolled roll entry_or_new
rolled-blocked l now peer h = rw (h, entry_or_new) (ground arith)

request-own :
    (peer : String) (until : ℕ) (l : Limiter) (at : ℕ)
    → at < until
    → IsBlocked peer until l
    → IsBlocked peer until (record_request l at peer).0
request-own peer until l at lt (e, h, b, u) =
    let (rb, ru) = rolled-blocked l at peer h in
    let r = rolled l at peer in
    (
      r,
      (rolled-record_request l at peer).0
          ∙ ap (λ (x : Entry). some x)
              (admit-blocked l.max_requests l.window_ms at r (rb ∙ b) (omega (arith, ru, u))),
      rb ∙ b,
      ru ∙ u,
    )

request-IsBlocked :
    (peer : String) (until : ℕ) (l : Limiter) (at : ℕ) (p : String)
    → at < until
    → IsBlocked peer until l
    → IsBlocked peer until (record_request l at p).0
request-IsBlocked peer until l at p lt (e, h, b, u) = elim (Bool-cases (p == peer)) [
  | inl q ↦
      subst (λ x. IsBlocked peer until (record_request l at x).0) (sym ((eq_iff p peer).0 q))
        (request-own peer until l at lt (e, h, b, u))
  | inr q ↦ (e, record_request_other l at p peer (λ x. cc ((eq_iff p peer).1 x, q)) ∙ h, b, u)
]

get-limited_at :
    (peer : String) (l : Limiter) (at : ℕ) (p : String) (e : Entry) (o : Option Entry)
    → get l.rate_limits p ≡ o
    → get l.rate_limits peer ≡ some e
    → e.blocked ≡ true
    → at < e.blocked_until
    → get (limited_at l p at o).0.rate_limits peer ≡ some e
unfolding limited_at
get-limited_at peer l at p e none g h b lt = h
get-limited_at peer l at p e (some f) g h b lt = ground (
  arith,
  eq_iff p peer,
  get-put l.rate_limits p (record f { blocked = false; blocked_until = 0 }) peer,
)

query-IsBlocked :
    (peer : String) (until : ℕ) (l : Limiter) (at : ℕ) (p : String)
    → at < until
    → IsBlocked peer until l
    → IsBlocked peer until (is_rate_limited l at p).0
unfolding is_rate_limited
query-IsBlocked peer until l at p lt (e, h, b, u) =
    (e, get-limited_at peer l at p e (get l.rate_limits p) refl h b (omega (arith, lt, u)), b, u)

get-retain :
    (stale : Entry → Bool) (d : Dict Entry) (k : String) (e : Entry)
    → get d k ≡ some e
    → stale e ≡ false
    → get (retain stale d) k ≡ some e
unfolding get retain
get-retain stale [] k e h f = cc
get-retain stale ((j, w) ∷ d) k e h f = ground (arith, get-retain stale d k e)

sweep-IsBlocked :
    (peer : String) (until : ℕ) (l : Limiter) (at : ℕ)
    → IsBlocked peer until l
    → IsBlocked peer until (cleanup_old_entries l at)
unfolding cleanup_old_entries
sweep-IsBlocked peer until l at (e, h, b, u) =
    (e, get-retain (is_stale l.window_ms at) l.rate_limits peer e h (rw b), b, u)

react-IsBlocked :
    (peer : String) (until : ℕ) (l : Limiter) (at : ℕ) (c : Event)
    → at < until
    → IsBlocked peer until l
    → IsBlocked peer until (react l at c)
unfolding react start stop
react-IsBlocked peer until l at (request p) lt h = request-IsBlocked peer until l at p lt h
react-IsBlocked peer until l at (query p) lt h = query-IsBlocked peer until l at p lt h
react-IsBlocked peer until l at sweep lt h = sweep-IsBlocked peer until l at h
react-IsBlocked peer until l at started lt h = h
react-IsBlocked peer until l at stopped lt h = h

replay-IsBlocked :
    (peer : String) (until : ℕ) (l : Limiter) (es : List (ℕ × Event))
    → All (λ (e : ℕ × Event). e.0 < until) es
    → IsBlocked peer until l
    → IsBlocked peer until (replay l es)
unfolding replay
replay-IsBlocked peer until l [] o h = h
replay-IsBlocked peer until l ((at, c) ∷ es) o h =
    replay-IsBlocked peer until (react l at c) es o.1 (react-IsBlocked peer until l at c o.0 h)

IsBlocked-refuses :
    (peer : String) (until : ℕ) (l : Limiter) (at : ℕ)
    → at < until
    → IsBlocked peer until l
    → (record_request l at peer).1.allowed ≡ false
IsBlocked-refuses peer until l at lt (e, h, b, u) =
    let (rb, ru) = rolled-blocked l at peer h in
    rw (rolled-record_request l at peer).1 (
      admit-refused l.max_requests l.window_ms at (rolled l at peer) (rb ∙ b)
        (omega (arith, ru, u)))

-- Until a block ends every request of the peer is refused, whatever requests, queries and sweeps
-- come in between.
pub block_holds :
    (peer : String) (until : ℕ) (l : Limiter) (es : List (ℕ × Event)) (at : ℕ)
    → IsBlocked peer until l
    → All (λ (e : ℕ × Event). e.0 < until) es
    → at < until
    → (record_request (replay l es) at peer).1.allowed ≡ false
block_holds peer until l es at h o lt =
    IsBlocked-refuses peer until (replay l es) at lt (replay-IsBlocked peer until l es o h)

-- The request that goes over the limit blocks its peer for one window.
pub over_limit-IsBlocked :
    (peer : String) (l : Limiter) (now : ℕ)
    → (rolled l now peer).blocked ≡ false
    → l.max_requests ≤ length (rolled l now peer).requests
    → IsBlocked peer (now + l.window_ms) (record_request l now peer).0
over_limit-IsBlocked peer l now b full =
    let r = rolled l now peer in
    let (nb, nu) = admit-over l.max_requests l.window_ms now r b full in
    ((admit l.max_requests l.window_ms now r).0, (rolled-record_request l now peer).0, nb, nu)
