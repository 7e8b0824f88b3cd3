-- ===== src/Ledger/Export.antt =====
-- On exporting a ledger and importing it into a new one.
use synpeer.Prelude.{
  String, ◌≡◌, refl, sym, ap, ◌∙◌, List, [], ◌∷◌, ◌++◌, true, false, ◌==◌, eq_iff, eq_refl, arith,
  Bool-cases, inl, inr, if◌then◌else◌, All,
}
use mathlib.Core.List.{append_assoc, append-nil}
use synpeer.Dict.{Dict, has, put}
use synpeer.Dict.Entries.{IsDistinct, put_all}
use synpeer.Ledger.{Entry, Snapshot, Ledger}

module _ {ℓ} {V : Type ℓ} where
  put_fresh : (d : Dict V) (k : String) (v : V) → has d k ≡ false → put d k v ≡ d ++ (k, v) ∷ []
  unfolding put has
  put_fresh [] k v h = refl
  put_fresh ((j, w) ∷ d) k v h = elim (Bool-cases (j == k)) [
    | inl b ↦ absurd (ground (arith, b, h))
    | inr b ↦ rw b (ap (◌∷◌ (j, w)) (put_fresh d k v (rw b at h)))
  ]

  has-snoc :
      (d : Dict V) (k : String) (v : V) (j : String)
      → has (d ++ (k, v) ∷ []) j ≡ (if k == j then true else has d j)
  unfolding has
  has-snoc [] k v j = refl
  has-snoc ((i, w) ∷ d) k v j = ground (arith, has-snoc d k v j)

  put_all_after :
      (acc d : Dict V)
      → IsDistinct d
      → ((j : String) → has d j ≡ true → has acc j ≡ false)
      → put_all acc d ≡ acc ++ d
  unfolding put_all has
  put_all_after acc [] h n = sym (append-nil acc)
  put_all_after acc ((k, v) ∷ d) h n =
      ap (λ x. put_all x d) (put_fresh acc k v (n k (ground (arith, eq_refl k))))
      ∙ put_all_after (acc ++ (k, v) ∷ []) d h.1
          (λ j m. ground (arith, has-snoc acc k v j, n j, eq_iff k j, h.0, m))
      ∙ append_assoc acc ((k, v) ∷ []) d

  pub put_all_self : (d : Dict V) → IsDistinct d → put_all [] d ≡ d
  put_all_self d h = put_all_after [] d h (λ j m. unfold has in refl)

abbrev IsOwnEntry : {A : Type 0} → String × Entry A → Type 0
IsOwnEntry (k, e) = e.id ≡ k

abbrev IsOwnSnapshot : {A : Type 0} → String × Snapshot A → Type 0
IsOwnSnapshot (k, s) = s.id ≡ k

record IsKeyed {A : Type 0} (l : Ledger A) : Type 0 where
  entries_distinct : IsDistinct l.entries
  snapshots_distinct : IsDistinct l.snapshots
  balances_distinct : IsDistinct l.balances
  entries_own : All IsOwnEntry l.entries
  snapshots_own : All IsOwnSnapshot l.snapshots
