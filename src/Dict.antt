-- ===== src/Dict.antt =====
-- JavaScript's `Map` with string keys, in insertion order: `set` replaces in place, and appends
-- a key that is not there. A `Set` of strings is a `Dict` whose values carry nothing.
pub mod Laws
pub mod Entries
pub mod Each
use synpeer.Prelude.{
  ℕ, String, Bool, true, false, Option, none, some, List, [], ◌∷◌, ◌==◌, if◌then◌else◌, length, map,
}

abbrev pub Dict {ℓ} : Type ℓ → Type ℓ
Dict V = List (String × V)

module _ {ℓ} {V : Type ℓ} where
  unfoldable pub get : Dict V → String → Option V
  get [] k = none
  get ((j, v) ∷ d) k = if j == k then some v else get d k

  unfoldable pub has : Dict V → String → Bool
  has [] k = false
  has ((j, v) ∷ d) k = if j == k then true else has d k

  unfoldable pub put : Dict V → String → V → Dict V
  put [] k v = (k, v) ∷ []
  put ((j, w) ∷ d) k v = if j == k then (j, v) ∷ d else (j, w) ∷ put d k v

  unfoldable pub delete : Dict V → String → Dict V
  delete [] k = []
  delete ((j, v) ∷ d) k = let rest = delete d k in if j == k then rest else (j, v) ∷ rest

  unfoldable pub values : Dict V → List V
  values d = map (λ e. e.1) d

  unfoldable pub keys : Dict V → List String
  keys d = map (λ e. e.0) d

  unfoldable pub size : Dict V → ℕ
  size d = length d
