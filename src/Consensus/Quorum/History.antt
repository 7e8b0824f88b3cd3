-- ===== src/Consensus/Quorum/History.antt =====
-- The recorded results.
use synpeer.Prelude.{
  ℕ, ◌-◌, String, ◌≡◌, refl, true, not, List, [], ◌∷◌, some, arith, length, filter,
  length-filter-le, Bool-cases, inl, inr,
}
use synpeer.Dict.{Dict, get, put, values}
use synpeer.Dict.Laws.{get-put}
use synpeer.Consensus.Quorum.{
  QuorumResult, Requirements, validate_quorum, import_entries, get_statistics,
}

failed_count :
    (qs : List QuorumResult)
    → length (filter (λ (q : QuorumResult). not q.reached) qs)
      ≡ length qs - length (filter (λ (q : QuorumResult). q.reached) qs)
failed_count [] = refl
failed_count (q ∷ qs) =
    ground (arith, failed_count qs, length-filter-le (λ (q : QuorumResult). q.reached) qs)

pub get_statistics-failed :
    (h : Dict QuorumResult)
    → (get_statistics h).failed ≡ length (filter (λ (q : QuorumResult). not q.reached) (values h))
unfolding get_statistics
get_statistics-failed h = omega (arith, failed_count (values h))

-- Every result of the map passes the test of the manager at the time.
abbrev pub IsValidated : Requirements → ℕ → Dict QuorumResult → Type 0
IsValidated r now h =
    (c : String) (q : QuorumResult) → get h c ≡ some q → validate_quorum r now q ≡ true

-- After an import every recorded result is valid, if those recorded before are valid at that
-- time.
pub import_entries-IsValidated :
    (r : Requirements) (now : ℕ) (h : Dict QuorumResult) (es : List (String × QuorumResult))
    → IsValidated r now h
    → IsValidated r now (import_entries r now h es)
unfolding import_entries
import_entries-IsValidated r now h [] v = v
import_entries-IsValidated r now h ((c, q) ∷ es) v = elim (Bool-cases (validate_quorum r now q)) [
  | inl b ↦ rw b (
      import_entries-IsValidated r now (put h c q) es
        (λ d p g. ground (arith, get-put h c q d, v d p, b, g)))
  | inr b ↦ rw b (import_entries-IsValidated r now h es v)
]
