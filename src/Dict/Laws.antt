-- ===== src/Dict/Laws.antt =====
-- The laws of `Map`, without side conditions: what a key holds after a write or a removal.
use synpeer.Prelude.{
  String, ◌≡◌, refl, Bool, true, false, Option, none, some, [], ◌∷◌, ◌==◌, eq_iff, eq_refl, ◌≢◌,
  if◌then◌else◌, arith, ◌++◌, ap, inl, inr, Bool-cases,
}
use synpeer.Dict.{values, Dict, get, has, put, delete}

module _ {ℓ} {V : Type ℓ} where
  pub get-put :
      (d : Dict V) (k : String) (v : V) (j : String)
      → get (put d k v) j ≡ (if k == j then some v else get d j)
  unfolding get put
  get-put [] k v j = refl
  get-put ((i, w) ∷ d) k v j = ground (arith, eq_iff k j, eq_iff i k, eq_iff i j, get-put d k v j)

  pub get-delete :
      (d : Dict V) (k j : String) → get (delete d k) j ≡ (if k == j then none else get d j)
  unfolding get delete
  get-delete [] k j = ground arith
  get-delete ((i, w) ∷ d) k j = ground (arith, eq_iff k j, eq_iff i k, eq_iff i j, get-delete d k j)

abbrev pub is_some {ℓ} : {A : Type ℓ} → Option A → Bool
is_some none = false
is_some (some _) = true

pub has-eq-get {ℓ} : {V : Type ℓ} (d : Dict V) (k : String) → has d k ≡ is_some (get d k)
unfolding has get
has-eq-get [] k = refl
has-eq-get ((i, w) ∷ d) k = ground (arith, has-eq-get d k)

pub has-put {ℓ} :
    {V : Type ℓ} (d : Dict V) (k : String) (v : V) (j : String)
    → has (put d k v) j ≡ (if k == j then true else has d j)
unfolding has put
has-put [] k v j = refl
has-put ((i, w) ∷ d) k v j = ground (arith, eq_iff k j, eq_iff i k, eq_iff i j, has-put d k v j)

pub has-delete {ℓ} :
    {V : Type ℓ} (d : Dict V) (k j : String)
    → has (delete d k) j ≡ (if k == j then false else has d j)
unfolding has delete
has-delete [] k j = ground arith
has-delete ((i, w) ∷ d) k j = ground (arith, eq_iff k j, eq_iff i k, eq_iff i j, has-delete d k j)

pub ruleset dict_laws = (get-put, get-delete, has-put, has-delete)

-- A new key is appended.
pub values-put_fresh {ℓ} :
    {V : Type ℓ} (d : Dict V) (k : String) (v : V)
    → has d k ≡ false
    → values (put d k v) ≡ values d ++ v ∷ []
unfolding values put has
values-put_fresh [] k v h = refl
values-put_fresh ((j, w) ∷ d) k v h = elim (Bool-cases (j == k)) [
  | inl e ↦ absurd (ground (arith, e))
  | inr e ↦ rw e (ap (◌∷◌ w) (values-put_fresh d k v (rw e at h)))
]

pub get-put_self {ℓ} : {V : Type ℓ} (d : Dict V) (k : String) (v : V) → get (put d k v) k ≡ some v
get-put_self d k v = simp (get-put, eq_refl)

pub get-put_ne {ℓ} :
    {V : Type ℓ} (d : Dict V) (k : String) (v : V) (j : String)
    → k ≢ j
    → get (put d k v) j ≡ get d j
get-put_ne d k v j h = rw get-put (ground (arith, eq_iff k j))
