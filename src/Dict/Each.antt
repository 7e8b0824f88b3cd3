-- ===== src/Dict/Each.antt =====
-- A predicate on every value of a map.
use synpeer.Prelude.{String, ◌≡◌, some, [], ◌∷◌, ◌==◌, All, Bool-cases, inl, inr, subst}
use mathlib.Core.Option.{some-injective}
use synpeer.Dict.{Dict, get, put, delete}

abbrev pub Each {ℓ κ} : {V : Type ℓ} → (V → Type κ) → Dict V → Type κ
Each P d = All (λ e. P e.1) d

module _ {ℓ κ} {V : Type ℓ} (P : V → Type κ) where
  pub put-Each : (d : Dict V) (k : String) (v : V) → Each P d → P v → Each P (put d k v)
  unfolding put
  put-Each [] k v h x = (x, tt)
  put-Each ((j, w) ∷ d) k v h x = elim (Bool-cases (j == k)) [
    | inl b ↦ rw (All, put, b) (x, h.1)
    | inr b ↦ rw (All, put, b) (h.0, put-Each d k v h.1 x)
  ]

  pub delete-Each : (d : Dict V) (k : String) → Each P d → Each P (delete d k)
  unfolding delete
  delete-Each [] k h = tt
  delete-Each ((j, w) ∷ d) k h = elim (Bool-cases (j == k)) [
    | inl b ↦ rw (All, delete, b) (delete-Each d k h.1)
    | inr b ↦ rw (All, delete, b) (h.0, delete-Each d k h.1)
  ]

  pub get-Each : (d : Dict V) (k : String) (v : V) → Each P d → get d k ≡ some v → P v
  unfolding get
  get-Each [] k v h e = cc
  get-Each ((j, w) ∷ d) k v h e = elim (Bool-cases (j == k)) [
    | inl b ↦ subst P (some-injective _ _ (rw b at e)) h.0
    | inr b ↦ get-Each d k v h.1 (rw b at e)
  ]
