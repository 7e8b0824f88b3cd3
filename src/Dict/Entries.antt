-- ===== src/Dict/Entries.antt =====
-- Maps written out as lists of entries, sorted, and read back.
use synpeer.Prelude.{
  String, ◌≡◌, refl, ◌∙◌, ap, Bool, true, false, Option, none, some, List, [], ◌∷◌, ◌==◌, eq_iff,
  eq_refl, All, if◌then◌else◌, arith,
}
use mathlib.Core.Option
use synpeer.Prelude.Sort.{insert_sorted, sort}
use synpeer.Dict.{Dict, get, has, put, delete}
use synpeer.Dict.Laws.{get-put, has-put, has-delete, has-eq-get}

-- No key stands twice.
abbrev pub IsDistinct {ℓ} : {V : Type ℓ} → Dict V → Type 0
IsDistinct [] = Unit
IsDistinct ((k, v) ∷ d) = (has d k ≡ false) × IsDistinct d

pub put-IsDistinct {ℓ} :
    {V : Type ℓ} (d : Dict V) (k : String) (v : V) → IsDistinct d → IsDistinct (put d k v)
unfolding put has
put-IsDistinct [] k v h = (refl, tt)
put-IsDistinct ((j, w) ∷ d) k v h =
    ground (arith, has-put d k v j, eq_iff k j, eq_iff j k, put-IsDistinct d k v)

-- `for (const [k, v] of entries) map.set(k, v)`
unfoldable pub put_all {ℓ} : {V : Type ℓ} → Dict V → List (String × V) → Dict V
put_all d [] = d
put_all d ((k, v) ∷ es) = put_all (put d k v) es

abbrev pub or_else {ℓ} : {A : Type ℓ} → Option A → Option A → Option A
or_else none b = b
or_else (some a) b = some a

pub get-put_all {ℓ} :
    {V : Type ℓ} (d es : Dict V) (k : String)
    → IsDistinct es
    → get (put_all d es) k ≡ or_else (get es k) (get d k)
unfolding put_all get
get-put_all d [] k h = refl
get-put_all d ((j, v) ∷ es) k h = ground (
  arith,
  get-put_all (put d j v) es k,
  get-put d j v k,
  eq_iff j k,
  has-eq-get es j,
  has-eq-get es k,
)

pub has-put_all {ℓ} :
    {V : Type ℓ} (d es : Dict V) (k : String)
    → has (put_all d es) k ≡ (if has es k then true else has d k)
unfolding put_all has
has-put_all d [] k = refl
has-put_all d ((j, v) ∷ es) k = ground (arith, has-put_all (put d j v) es k, has-put d j v k)

module _ {ℓ} {V : Type ℓ} (before : String × V → String × V → Bool) where
  pub has-insert_sorted :
      (e : String × V) (d : Dict V) (k : String)
      → has (insert_sorted before e d) k ≡ (if e.0 == k then true else has d k)
  unfolding insert_sorted has
  has-insert_sorted e [] k = refl
  has-insert_sorted e (f ∷ d) k = ground (arith, has-insert_sorted e d k)

  pub has-sort : (d : Dict V) (k : String) → has (sort before d) k ≡ has d k
  unfolding sort has
  has-sort [] k = refl
  has-sort (e ∷ d) k = ground (arith, has-insert_sorted e (sort before d) k, has-sort d k)

  get-insert_sorted :
      (e : String × V) (d : Dict V) (k : String)
      → has d e.0 ≡ false
      → get (insert_sorted before e d) k ≡ (if e.0 == k then some e.1 else get d k)
  unfolding insert_sorted has get
  get-insert_sorted e [] k h = refl
  get-insert_sorted e (f ∷ d) k h =
      ground (arith, get-insert_sorted e d k, eq_iff e.0 k, eq_iff f.0 k, eq_iff f.0 e.0)

  insert_sorted-IsDistinct :
      (e : String × V) (d : Dict V)
      → has d e.0 ≡ false
      → IsDistinct d
      → IsDistinct (insert_sorted before e d)
  unfolding insert_sorted has
  insert_sorted-IsDistinct e [] h i = (refl, tt)
  insert_sorted-IsDistinct e (f ∷ d) h i = ground (
    arith,
    insert_sorted-IsDistinct e d,
    has-insert_sorted e d f.0,
    eq_iff f.0 e.0,
    eq_iff e.0 f.0,
  )

  pub sort-IsDistinct : (d : Dict V) → IsDistinct d → IsDistinct (sort before d)
  unfolding sort
  sort-IsDistinct [] h = tt
  sort-IsDistinct (e ∷ d) h =
      insert_sorted-IsDistinct e (sort before d) (has-sort d e.0 ∙ h.0) (sort-IsDistinct d h.1)

  pub get-sort : (d : Dict V) (k : String) → IsDistinct d → get (sort before d) k ≡ get d k
  unfolding sort get
  get-sort [] k h = refl
  get-sort (e ∷ d) k h =
      get-insert_sorted e (sort before d) k (has-sort d e.0 ∙ h.0)
      ∙ ap (λ r. if e.0 == k then some e.1 else r) (get-sort d k h.1)

-- `map.entries().map(([key, value]) => [key, f(value)])`
module _ {ℓ κ} {V : Type ℓ} {W : Type κ} (f : V → W) where
  unfoldable pub map_values : Dict V → Dict W
  map_values [] = []
  map_values ((k, v) ∷ d) = (k, f v) ∷ map_values d

  pub has-map_values : (d : Dict V) (k : String) → has (map_values d) k ≡ has d k
  unfolding map_values has
  has-map_values [] k = refl
  has-map_values ((j, v) ∷ d) k = ap (λ b. if j == k then true else b) (has-map_values d k)

  pub get-map_values : (d : Dict V) (k : String) → get (map_values d) k ≡ Option.map f (get d k)
  unfolding map_values get
  get-map_values [] k = refl
  get-map_values ((j, v) ∷ d) k = ground (arith, get-map_values d k)

  pub map_values-IsDistinct : (d : Dict V) → IsDistinct d → IsDistinct (map_values d)
  unfolding map_values
  map_values-IsDistinct [] h = tt
  map_values-IsDistinct ((j, v) ∷ d) h = (has-map_values d j ∙ h.0, map_values-IsDistinct d h.1)

pub delete-IsDistinct {ℓ} :
    {V : Type ℓ} (d : Dict V) (k : String) → IsDistinct d → IsDistinct (delete d k)
unfolding delete
delete-IsDistinct [] k h = tt
delete-IsDistinct ((j, v) ∷ d) k h =
    ground (arith, has-delete d k j, eq_iff j k, eq_iff k j, h.0, delete-IsDistinct d k h.1)

found_past {ℓ} :
    {V : Type ℓ} (f d : Dict V) (k : String) (v : V)
    → has d k ≡ false
    → All (λ e. get f e.0 ≡ some e.1) d
    → All (λ e. get ((k, v) ∷ f) e.0 ≡ some e.1) d
unfolding get has
found_past f [] k v n h = tt
found_past f ((j, w) ∷ d) k v n h =
    (ground (arith, h.0, eq_iff k j, eq_iff j k, n), found_past f d k v (ground (arith, n)) h.1)

-- Every entry of a map is found under its key.
pub found_each {ℓ} : {V : Type ℓ} (d : Dict V) → IsDistinct d → All (λ e. get d e.0 ≡ some e.1) d
unfolding get
found_each [] h = tt
found_each ((k, v) ∷ d) h = (ground (arith, eq_refl k), found_past d d k v h.0 (found_each d h.1))
