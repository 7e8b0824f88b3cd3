-- ===== src/Ledger/Integrity.antt =====
-- On `verifyIntegrity` (src/economy/Ledger/LedgerEngine.ts), where addition is exact.
use synpeer.Prelude.{◌≡◌, [], ◌∷◌, true}
use synpeer.Dict.{Dict}
use synpeer.Ledger.{Arithmetic, Ledger}

-- The laws that doubles keep only while every sum is exact.
pub record IsExact {A : Type 0} (ar : Arithmetic A) : Type 0 where
  pub plus_comm : (x y : A) → ar.plus x y ≡ ar.plus y x
  pub plus_assoc : (x y z : A) → ar.plus (ar.plus x y) z ≡ ar.plus x (ar.plus y z)
  pub plus-nought : (x : A) → ar.plus x ar.nought ≡ x
  pub or_nought_lem : (x : A) → ar.or_nought x ≡ x
  pub is_same_refl : (x : A) → ar.is_same x x ≡ true

module _ {A : Type 0} (ar : Arithmetic A) (x : IsExact ar) where
  unfoldable total : Dict A → A
  total [] = ar.nought
  total ((k, z) ∷ d) = ar.plus z (total d)

  abbrev IsEven : Ledger A → Type 0
  IsEven l = l.total_supply ≡ total l.balances
