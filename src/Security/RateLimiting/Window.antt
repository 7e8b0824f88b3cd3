-- ===== src/Security/RateLimiting/Window.antt =====
-- On the requests of a peer within a window.
use synpeer.Prelude.{
  ℕ, ◌+◌, ◌≤◌, ◌<◌, ◌≡◌, ◌≢◌, refl, sym, subst, ap, ◌∙◌, inl, inr, String, none, some, List, [],
  ◌∷◌, Bool, true, false, arith, ltb, le→ltb, max, ◌⊎◌, eq_iff, eq_refl, ◌==◌, if◌then◌else◌,
  length, length-append, Bool-cases, All,
}
use synpeer.Dict.{get}
use synpeer.Dict.Laws.{get-put_self, get-put_ne}
use synpeer.Security.RateLimiting.{Entry, Limiter, Reply, entry_or_new, roll, admit, record_request}

-- A peer's entry does not depend on the requests of others.
pub record_request_other :
    (l : Limiter) (now : ℕ) (peer other : String)
    → peer ≢ other
    → get (record_request l now peer).0.rate_limits other ≡ get l.rate_limits other
unfolding record_request
record_request_other l now peer other h = get-put_ne l.rate_limits peer _ other h

entry-record_request :
    (l : Limiter) (now : ℕ) (peer : String) {e : Entry}
    → get l.rate_limits peer ≡ some e
    → now ≤ e.window_start + l.window_ms
    → (get (record_request l now peer).0.rate_limits peer
        ≡ some (admit l.max_requests l.window_ms now e).0)
      × ((record_request l now peer).1 ≡ (admit l.max_requests l.window_ms now e).1)
unfolding record_request entry_or_new roll
entry-record_request l now peer {e} h le =
    let same : (if ltb (e.window_start + l.window_ms) now
          then record e { requests = []; window_start = now }
          else e)
        ≡ e =
      rw (le→ltb _ _ le) in
    (
      get-put_self l.rate_limits peer _
          ∙ rw (h, entry_or_new) (ap (λ x. some (admit l.max_requests l.window_ms now x).0) same),
      rw (h, entry_or_new) (ap (λ x. (admit l.max_requests l.window_ms now x).1) same),
    )

limits-record_request :
    (l : Limiter) (now : ℕ) (peer : String)
    → ((record_request l now peer).0.max_requests ≡ l.max_requests)
      × ((record_request l now peer).0.window_ms ≡ l.window_ms)
unfolding record_request
limits-record_request l now peer = (refl, refl)

-- How a request moves the entry.
admit_allowed :
    (m w now : ℕ) (e : Entry)
    → (admit m w now e).1.allowed ≡ true
    → (length (admit m w now e).0.requests ≡ length e.requests + 1)
      × (length (admit m w now e).0.requests ≤ m)
unfolding admit
admit_allowed m w now e h = ground (arith, length-append e.requests (now ∷ []))

admit_refused :
    (m w now : ℕ) (e : Entry)
    → (admit m w now e).1.allowed ≡ false
    → (length (admit m w now e).0.requests ≡ length e.requests)
      ⊎ (m < length (admit m w now e).0.requests)
unfolding admit
admit_refused m w now e h = ground (arith, length-append e.requests (now ∷ []))

admit_grows : (m w now : ℕ) (e : Entry) → length e.requests ≤ length (admit m w now e).0.requests
unfolding admit
admit_grows m w now e = ground (arith, length-append e.requests (now ∷ []))

window_start-admit : (m w now : ℕ) (e : Entry) → (admit m w now e).0.window_start ≡ e.window_start
unfolding admit
window_start-admit m w now e = ground arith

abbrev allowed_count : Bool → ℕ
allowed_count true = 1
allowed_count false = 0

-- How many of the requests are allowed to the peer; a request is a peer and a time.
unfoldable pub allowed_to : String → Limiter → List (String × ℕ) → ℕ
allowed_to peer l [] = 0
allowed_to peer l ((p, now) ∷ rs) =
    (if p == peer then allowed_count (record_request l now p).1.allowed else 0)
    + allowed_to peer (record_request l now p).0 rs

abbrev pub Before : ℕ → List (String × ℕ) → Type 0
Before at rs = All (λ (r : String × ℕ). r.1 ≤ at) rs

share_step :
    (m w now : ℕ) (e : Entry) (rest : ℕ)
    → rest + length (admit m w now e).0.requests ≤ max m (length (admit m w now e).0.requests)
    → allowed_count (admit m w now e).1.allowed + rest + length e.requests
      ≤ max m (length e.requests)
share_step m w now e rest h = elim (Bool-cases (admit m w now e).1.allowed) [
  | inl a ↦ rw a (omega (arith, admit_allowed m w now e a))
  | inr a ↦ rw a (omega (arith, admit_refused m w now e a, admit_grows m w now e))
]

share_left :
    (peer : String) (l : Limiter) (e : Entry) (rs : List (String × ℕ))
    → get l.rate_limits peer ≡ some e
    → Before (e.window_start + l.window_ms) rs
    → allowed_to peer l rs + length e.requests ≤ max l.max_requests (length e.requests)
unfolding allowed_to
share_left peer l e [] h b = omega arith
share_left peer l e ((p, now) ∷ rs) h b = elim (Bool-cases (p == peer)) [
  | inl q ↦
      rw q (subst (λ x. Goal x) (sym ((eq_iff p peer).0 q)) (own (share_left peer (l' peer) e' rs)))
  | inr q ↦ rw q (
      other q (
        share_left peer (l' p) e rs
          (record_request_other l now p peer (λ x. cc ((eq_iff p peer).1 x, q)) ∙ h)))
]
  where
    l' : String → Limiter
    l' x = (record_request l now x).0

    e' : Entry
    e' = (admit l.max_requests l.window_ms now e).0

    Goal : String → Type 0
    Goal x =
        allowed_count (record_request l now x).1.allowed
          + allowed_to peer (l' x) rs
          + length e.requests
        ≤ max l.max_requests (length e.requests)

    own :
        (get (l' peer).rate_limits peer ≡ some e'
          → Before (e'.window_start + (l' peer).window_ms) rs
          → allowed_to peer (l' peer) rs + length e'.requests
            ≤ max (l' peer).max_requests (length e'.requests))
        → Goal peer
    own ih =
        let (g, r) = entry-record_request l now peer h b.0 in
        let (m, w) = limits-record_request l now peer in
        rw (ap (λ (x : Reply). x.allowed) r) (
          share_step l.max_requests l.window_ms now e (allowed_to peer (l' peer) rs) (
            subst
              (λ x. allowed_to peer (l' peer) rs + length e'.requests ≤ max x (length e'.requests))
              m (ih g (rw (w, window_start-admit l.max_requests l.window_ms now e) b.1))))

    other :
        p == peer ≡ false
        → (Before (e.window_start + (l' p).window_ms) rs
            → allowed_to peer (l' p) rs + length e.requests
              ≤ max (l' p).max_requests (length e.requests))
        → 0 + allowed_to peer (l' p) rs + length e.requests ≤ max l.max_requests (length e.requests)
    other q ih = let (m, w) = limits-record_request l now p in omega (arith, m, ih (rw w b.1))

-- The entry that a request finds.
unfoldable pub rolled : Limiter → ℕ → String → Entry
rolled l now peer = roll l.window_ms now (entry_or_new now (get l.rate_limits peer))

pub rolled-record_request :
    (l : Limiter) (now : ℕ) (peer : String)
    → (get (record_request l now peer).0.rate_limits peer
        ≡ some (admit l.max_requests l.window_ms now (rolled l now peer)).0)
      × ((record_request l now peer).1
          ≡ (admit l.max_requests l.window_ms now (rolled l now peer)).1)
unfolding record_request rolled
rolled-record_request l now peer = (get-put_self l.rate_limits peer _, refl)

rolled_start :
    (l : Limiter) (now : ℕ) (peer : String)
    → (get l.rate_limits peer ≡ none)
      ⊎ ((e : Entry) × (get l.rate_limits peer ≡ some e) × (e.window_start + l.window_ms < now))
    → ((rolled l now peer).requests ≡ []) × ((rolled l now peer).window_start ≡ now)
unfolding rolled roll entry_or_new
rolled_start l now peer (inl h) = rw (h, entry_or_new) (ground arith)
rolled_start l now peer (inr (e, h, lt)) = rw (h, entry_or_new) (ground arith)

-- From the request that starts a window on, a peer is allowed at most maxRequests requests until
-- the window is over, under any interleaving with other peers.
pub window_share :
    (peer : String) (l : Limiter) (now : ℕ) (rs : List (String × ℕ))
    → (get l.rate_limits peer ≡ none)
      ⊎ ((e : Entry) × (get l.rate_limits peer ≡ some e) × (e.window_start + l.window_ms < now))
    → Before (now + l.window_ms) rs
    → allowed_to peer l ((peer, now) ∷ rs) ≤ l.max_requests
unfolding allowed_to
window_share peer l now rs start b =
    let r = rolled l now peer in
    let (none_yet, from_now) = rolled_start l now peer start in
    let (m, w) = limits-record_request l now peer in
    let e' = (admit l.max_requests l.window_ms now r).0 in
    let rest = allowed_to peer (record_request l now peer).0 rs in
    let ih =
      share_left peer (record_request l now peer).0 e' rs (rolled-record_request l now peer).0
        (rw (w, window_start-admit l.max_requests l.window_ms now r, from_now) b) in
    let step =
      share_step l.max_requests l.window_ms now r rest
        (subst (λ x. rest + length e'.requests ≤ max x (length e'.requests)) m ih) in
    rw (eq_refl peer, (rolled-record_request l now peer).1)
      (omega (arith, step, ap (length {A = ℕ}) none_yet))
