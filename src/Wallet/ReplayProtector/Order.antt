-- ===== src/Wallet/ReplayProtector/Order.antt =====
-- Which transactions get through, over any sequence of calls of `record`.
use synpeer.Prelude.{
  ℕ, ◌≤◌, ap, max, eq_refl, String, Option, none, some, List, [], ◌∷◌, true, ◌≡◌, ◌≢◌, refl, arith,
  All, ◌==◌, eq_iff, if◌then◌else◌, inl, inr, Bool-cases,
}
use synpeer.Dict.{Dict, get, has, put}
use synpeer.Dict.Laws.{get-put, has-put}
use synpeer.Wallet.Transaction.{Transaction}
use synpeer.Wallet.ReplayProtector.{
  Protector, ReplayCheck, accepted, duplicate_id, nonce_reused, sequence_regression, holds_nonce,
  check, enter, admit, record_at, nonces_or_new, sequence_or,
}

-- What the protector has on record of a transaction.
pub record Covers (p : Protector) (t : Transaction) : Type 0 where
  pub id_seen : has p.processed_ids t.id ≡ true
  pub nonce_seen : holds_nonce (get p.nonce_by_sender t.sender_id) t.nonce ≡ true
  pub sequence_seen : (n : ℕ) × (get p.sequence_by_sender t.sender_id ≡ some n) × (t.sequence ≤ n)

-- `u` may come after `t`.
abbrev pub Follows : Transaction → Transaction → Type 0
Follows t u =
    (t.id ≢ u.id) × (t.sender_id ≡ u.sender_id → (t.nonce ≢ u.nonce) × (t.sequence ≤ u.sequence))

has-nonces_or_new :
    (o : Option (Dict (Unit {0}))) (n : String) → has (nonces_or_new o) n ≡ holds_nonce o n
unfolding has
has-nonces_or_new none n = refl
has-nonces_or_new (some d) n = refl

pub nonce-enter :
    (p : Protector) (t : Transaction) (s n : String)
    → holds_nonce (get (enter p t).nonce_by_sender s) n ≡ (
        if t.sender_id == s
        then (if t.nonce == n then true else holds_nonce (get p.nonce_by_sender s) n)
        else holds_nonce (get p.nonce_by_sender s) n)
unfolding enter
nonce-enter p t s n = ground (
  arith,
  get-put p.nonce_by_sender t.sender_id
      (put (nonces_or_new (get p.nonce_by_sender t.sender_id)) t.nonce tt) s,
  has-put (nonces_or_new (get p.nonce_by_sender t.sender_id)) t.nonce tt n,
  has-nonces_or_new (get p.nonce_by_sender t.sender_id) n,
  eq_iff t.sender_id s,
)

pub sequence-enter :
    (p : Protector) (t : Transaction) (s : String)
    → get (enter p t).sequence_by_sender s ≡ (
        if t.sender_id == s
        then some (max t.sequence (sequence_or (get p.sequence_by_sender t.sender_id) t.sequence))
        else get p.sequence_by_sender s)
unfolding enter
sequence-enter p t s = get-put p.sequence_by_sender t.sender_id _ s

pub id-enter :
    (p : Protector) (t : Transaction) (i : String)
    → has (enter p t).processed_ids i ≡ (if t.id == i then true else has p.processed_ids i)
unfolding enter
id-enter p t i = has-put p.processed_ids t.id tt i

-- What has been entered is covered, and stays so.
enter-Covers : (p : Protector) (t : Transaction) → Covers (enter p t) t
enter-Covers p t = record {
  id_seen = rw (id-enter p t t.id, eq_refl t.id);
  nonce_seen = rw (nonce-enter p t t.sender_id t.nonce, eq_refl t.sender_id, eq_refl t.nonce);
  sequence_seen = (
    max t.sequence (sequence_or (get p.sequence_by_sender t.sender_id) t.sequence),
    rw (sequence-enter p t t.sender_id, eq_refl t.sender_id),
    omega arith,
  );
}

Covers-enter : (p : Protector) (t u : Transaction) → Covers p t → Covers (enter p u) t
Covers-enter p t u c = record {
  id_seen = ground (arith, id-enter p u t.id, c.id_seen);
  nonce_seen = ground (arith, nonce-enter p u t.sender_id t.nonce, c.nonce_seen);
  sequence_seen = elim (Bool-cases (u.sender_id == t.sender_id)) [
    | inl e ↦ (
      max u.sequence (sequence_or (get p.sequence_by_sender u.sender_id) u.sequence),
      rw (sequence-enter p u t.sender_id, e),
      rw ((eq_iff u.sender_id t.sender_id).0 e, c.sequence_seen.1)
          (omega (arith, c.sequence_seen.2)),
    )
    | inr e ↦ (
      c.sequence_seen.0,
      rw (sequence-enter p u t.sender_id, e) c.sequence_seen.1,
      c.sequence_seen.2,
    )
  ];
}

check-Follows :
    (p : Protector) (t u : Transaction) → Covers p t → check p u ≡ accepted → Follows t u
unfolding check
check-Follows p t u c h = (λ e. ground (arith, c.id_seen, ap (has p.processed_ids) e), λ e. later e)
  where
    later : t.sender_id ≡ u.sender_id → (t.nonce ≢ u.nonce) × (t.sequence ≤ u.sequence)
    later e = (
      λ k. ground (arith, c.nonce_seen, e, k),
      ground (arith, c.sequence_seen.1, c.sequence_seen.2, e),
    )

admit-Covers : (p : Protector) (t u : Transaction) → Covers p t → Covers (admit p u).0 t
unfolding admit
admit-Covers p t u c = elim-check (check p u)
  where
    elim-check : (r : ReplayCheck) → Covers (record_at r p u) t
    elim-check accepted = Covers-enter p t u c
    elim-check duplicate_id = c
    elim-check nonce_reused = c
    elim-check sequence_regression = c

abbrev pub keep : ReplayCheck → Transaction → List Transaction → List Transaction
keep accepted t ts = t ∷ ts
keep duplicate_id t ts = ts
keep nonce_reused t ts = ts
keep sequence_regression t ts = ts

-- The transactions that a sequence of calls of `record` lets through, oldest first.
unfoldable pub let_through : Protector → List Transaction → List Transaction
let_through p [] = []
let_through p (t ∷ ts) = keep (check p t) t (let_through (admit p t).0 ts)

-- Each may come after every earlier one.
abbrev pub IsOrdered : List Transaction → Type 0
IsOrdered [] = Unit
IsOrdered (t ∷ ts) = All (Follows t) ts × IsOrdered ts

let_through-Follows :
    (p : Protector) (t : Transaction) (ts : List Transaction)
    → Covers p t
    → All (Follows t) (let_through p ts)
unfolding let_through
let_through-Follows p t [] c = tt
let_through-Follows p t (u ∷ us) c =
    go (check p u) refl (let_through-Follows (admit p u).0 t us (admit-Covers p t u c))
  where
    go :
        (r : ReplayCheck)
        → check p u ≡ r
        → All (Follows t) (let_through (admit p u).0 us)
        → All (Follows t) (keep r u (let_through (admit p u).0 us))
    go accepted h a = (check-Follows p t u c h, a)
    go duplicate_id h a = a
    go nonce_reused h a = a
    go sequence_regression h a = a

admit_accepted-Covers :
    (p : Protector) (t : Transaction) → check p t ≡ accepted → Covers (admit p t).0 t
unfolding admit
admit_accepted-Covers p t h = rw (h, record_at) (enter-Covers p t)

-- Over any sequence of record calls, the transactions let through have different ids, and of one
-- sender different nonces and non-decreasing sequences.
pub let_through-IsOrdered : (p : Protector) (ts : List Transaction) → IsOrdered (let_through p ts)
unfolding let_through
let_through-IsOrdered p [] = tt
let_through-IsOrdered p (t ∷ ts) = go (check p t) refl (let_through-IsOrdered (admit p t).0 ts)
  where
    go :
        (r : ReplayCheck)
        → check p t ≡ r
        → IsOrdered (let_through (admit p t).0 ts)
        → IsOrdered (keep r t (let_through (admit p t).0 ts))
    go accepted h a = (let_through-Follows (admit p t).0 t ts (admit_accepted-Covers p t h), a)
    go duplicate_id h a = a
    go nonce_reused h a = a
    go sequence_regression h a = a

-- A refused call changes nothing.
pub admit-refused : (p : Protector) (t : Transaction) → check p t ≢ accepted → (admit p t).0 ≡ p
unfolding admit
admit-refused p t h = go (check p t) refl
  where
    go : (r : ReplayCheck) → check p t ≡ r → record_at r p t ≡ p
    go accepted e = absurd (h e)
    go duplicate_id e = refl
    go nonce_reused e = refl
    go sequence_regression e = refl

pub admit-accepted :
    (p : Protector) (t : Transaction) → check p t ≡ accepted → (admit p t).0 ≡ enter p t
unfolding admit
admit-accepted p t h = rw (h, record_at)
