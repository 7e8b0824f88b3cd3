-- ===== src/Wallet/ReplayProtector/Snapshot.antt =====
-- `exportSnapshot` and `importSnapshot`. The two string orders that the export sorts by are
-- parameters. A snapshot's list of strings is a dictionary of units with keys as they stand.
use synpeer.Prelude.{ℕ, String, ◌≡◌, refl, ◌∙◌, ap, Bool, Option, none, some, [], arith}
use mathlib.Core.Option
use synpeer.Prelude.Sort.{sort}
use synpeer.Dict.{Dict, get, has}
use synpeer.Dict.Entries.{
  IsDistinct, put-IsDistinct, put_all, or_else, get-put_all, has-put_all, has-sort, sort-IsDistinct,
  get-sort, map_values, get-map_values, map_values-IsDistinct,
}
use synpeer.Wallet.Transaction.{Transaction}
use synpeer.Wallet.ReplayProtector.{
  Protector, ReplayCheck, check, enter, admit, record_at, accepted, duplicate_id, nonce_reused,
  sequence_regression, holds_nonce,
}

pub record Snapshot : Type 0 where
  pub processed_ids : Dict (Unit {0})
  pub nonce_by_sender : Dict (Dict (Unit {0}))
  pub sequence_by_sender : Dict ℕ

-- The maps of a protector hold each sender once.
abbrev pub IsWellKeyed : Protector → Type 0
IsWellKeyed p = IsDistinct p.nonce_by_sender × IsDistinct p.sequence_by_sender

pub admit-IsWellKeyed :
    (p : Protector) (t : Transaction) → IsWellKeyed p → IsWellKeyed (admit p t).0
unfolding admit enter
admit-IsWellKeyed p t h = go (check p t)
  where
    go : (r : ReplayCheck) → IsWellKeyed (record_at r p t)
    go accepted = (
      put-IsDistinct p.nonce_by_sender t.sender_id _ h.0,
      put-IsDistinct p.sequence_by_sender t.sender_id _ h.1,
    )
    go duplicate_id = h
    go nonce_reused = h
    go sequence_regression = h

check_cong :
    (p q : Protector) (t : Transaction)
    → has p.processed_ids t.id ≡ has q.processed_ids t.id
    → holds_nonce (get p.nonce_by_sender t.sender_id) t.nonce
      ≡ holds_nonce (get q.nonce_by_sender t.sender_id) t.nonce
    → get p.sequence_by_sender t.sender_id ≡ get q.sequence_by_sender t.sender_id
    → check p t ≡ check q t
unfolding check
check_cong p q t i n s = rw (i, n, s)

or_else-none {ℓ} : {A : Type ℓ} (o : Option A) → or_else o none ≡ o
or_else-none none = refl
or_else-none (some a) = refl

get-restored {ℓ} :
    {V : Type ℓ} (d : Dict V) (k : String) → IsDistinct d → get (put_all [] d) k ≡ get d k
unfolding get
get-restored d k h = get-put_all [] d k h ∙ or_else-none (get d k)

-- `before` is the default order of `sort`, and `locale_before` that of `localeCompare`.
module _ (before locale_before : String → String → Bool) where
  sort_ids : Dict (Unit {0}) → Dict (Unit {0})
  sort_ids ids = sort (λ a b. before a.0 b.0) ids

  unfoldable pub export_snapshot : Protector → Snapshot
  unfolding sort_ids
  export_snapshot p = record {
    processed_ids = sort_ids p.processed_ids;
    nonce_by_sender = sort (λ a b. locale_before a.0 b.0) (map_values sort_ids p.nonce_by_sender);
    sequence_by_sender = sort (λ a b. locale_before a.0 b.0) p.sequence_by_sender;
  }

  -- The maps are cleared and filled again.
  unfoldable pub import_snapshot : Protector → Snapshot → Protector
  import_snapshot p s = record {
    processed_ids = put_all [] s.processed_ids;
    nonce_by_sender = put_all [] (map_values (λ ids. put_all [] ids) s.nonce_by_sender);
    sequence_by_sender = put_all [] s.sequence_by_sender;
  }

  has-restored : (d : Dict (Unit {0})) (k : String) → has (put_all [] (sort_ids d)) k ≡ has d k
  unfolding sort_ids has
  has-restored d k =
      ground (arith, has-put_all [] (sort_ids d) k, has-sort (λ a b. before a.0 b.0) d k)

  ids-restored :
      (p q : Protector) (i : String)
      → has (import_snapshot q (export_snapshot p)).processed_ids i ≡ has p.processed_ids i
  unfolding import_snapshot export_snapshot
  ids-restored p q i = has-restored p.processed_ids i

  holds_nonce-restored :
      (o : Option (Dict (Unit {0}))) (n : String)
      → holds_nonce (Option.map (λ ids. put_all [] ids) (Option.map sort_ids o)) n ≡ holds_nonce o n
  holds_nonce-restored none n = refl
  holds_nonce-restored (some d) n = has-restored d n

  get-sequences :
      (p q : Protector) (s : String)
      → IsWellKeyed p
      → get (import_snapshot q (export_snapshot p)).sequence_by_sender s
        ≡ get p.sequence_by_sender s
  unfolding import_snapshot export_snapshot
  get-sequences p q s h =
      get-restored _ s (sort-IsDistinct (λ a b. locale_before a.0 b.0) p.sequence_by_sender h.1)
      ∙ get-sort (λ a b. locale_before a.0 b.0) p.sequence_by_sender s h.1

  nonces-restored :
      (p q : Protector) (s n : String)
      → IsWellKeyed p
      → holds_nonce (get (import_snapshot q (export_snapshot p)).nonce_by_sender s) n
        ≡ holds_nonce (get p.nonce_by_sender s) n
  unfolding import_snapshot export_snapshot
  nonces-restored p q s n h =
      ap (λ o. holds_nonce o n)
        (get-restored (map_values refill sorted) s (map_values-IsDistinct refill sorted keyed)
          ∙ get-map_values refill sorted s
          ∙ ap (Option.map refill) (
              get-sort (λ a b. locale_before a.0 b.0) flat s flat_keyed
              ∙ get-map_values sort_ids p.nonce_by_sender s))
      ∙ holds_nonce-restored (get p.nonce_by_sender s) n
    where
      refill : Dict (Unit {0}) → Dict (Unit {0})
      refill ids = put_all [] ids

      flat : Dict (Dict (Unit {0}))
      flat = map_values sort_ids p.nonce_by_sender

      flat_keyed : IsDistinct flat
      flat_keyed = map_values-IsDistinct sort_ids p.nonce_by_sender h.0

      sorted : Dict (Dict (Unit {0}))
      sorted = sort (λ a b. locale_before a.0 b.0) flat

      keyed : IsDistinct sorted
      keyed = sort-IsDistinct (λ a b. locale_before a.0 b.0) flat flat_keyed

  -- A protector restored from an exported snapshot gives every transaction the same verdict.
  pub check-restored :
      (p q : Protector) (t : Transaction)
      → IsWellKeyed p
      → check (import_snapshot q (export_snapshot p)) t ≡ check p t
  check-restored p q t h =
      check_cong (import_snapshot q (export_snapshot p)) p t (ids-restored p q t.id)
        (nonces-restored p q t.sender_id t.nonce h) (get-sequences p q t.sender_id h)
