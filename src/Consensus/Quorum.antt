-- ===== src/Consensus/Quorum.antt =====
-- src/consensus/QuorumManager.ts. The quotients stay fractions: `a / b` is the pair of `a` and `b`,
-- and a comparison is that of the rational numbers; a required agreement is a fraction as well, and
-- percentages are exact fractions of 100, where the code divides doubles and so rounds.
pub mod Agreement
pub mod History
use synpeer.Prelude.{
  ℕ, ◌+◌, ◌-◌, ◌*◌, ◌/◌, ◌≤◌, String, ◌≡◌, Option, none, some, List, [], ◌∷◌, Bool, true, false,
  not, ◌&&◌, ◌||◌, ltb, leb, min, max, filter, length, if◌then◌else◌,
}
use synpeer.Dict.{Dict, get, put, delete, values, size}

pub record Fraction : Type 0 where
  pub num : ℕ
  pub den : ℕ

-- `a / b >= c / d`
unfoldable pub at_least : Fraction → Fraction → Bool
at_least p q = leb (q.num * p.den) (p.num * q.den)

-- `a / b > c / d`
unfoldable pub more_than : Fraction → Fraction → Bool
more_than p q = ltb (q.num * p.den) (p.num * q.den)

-- `total > 0 ? count / total : 0`
unfoldable pub share : ℕ → ℕ → Fraction
share count total =
    if ltb 0 total then record { num = count; den = total } else record { num = 0; den = 1 }

pub record Requirements : Type 0 where
  pub min_peers : ℕ
  pub required_agreement : Fraction
  pub min_trust_score : ℕ
  pub timeout : ℕ

pub record QuorumResult : Type 0 where
  pub reached : Bool
  pub required_peers : ℕ
  pub actual_peers : ℕ
  pub required_agreement : Fraction
  pub actual_agreement : Fraction
  pub reject_share : Fraction
  pub abstain_share : Fraction
  pub timestamp : ℕ

unfoldable pub calculate_quorum : Requirements → ℕ → ℕ → ℕ → ℕ → QuorumResult
unfolding share at_least more_than
calculate_quorum r now approve reject abstain =
    let total = approve + reject + abstain in
    record {
      reached =
          leb r.min_peers total
          && at_least (share approve total) r.required_agreement
          && more_than (share approve total) (share reject total);
      required_peers = r.min_peers;
      actual_peers = total;
      required_agreement = r.required_agreement;
      actual_agreement = share approve total;
      reject_share = share reject total;
      abstain_share = share abstain total;
      timestamp = now;
    }

unfoldable pub validate_quorum : Requirements → ℕ → QuorumResult → Bool
unfolding at_least
validate_quorum r now q =
    if ltb (q.timestamp + r.timeout) now
    then false
    else if not q.reached
    then false
    else if ltb q.actual_peers q.required_peers
    then false
    else at_least q.actual_agreement q.required_agreement

-- `Math.max(required, size > 1000 ? 0.6 : 0.66)`
unfoldable pub max_fraction : Fraction → Fraction → Fraction
unfolding at_least
max_fraction p q = if at_least p q then p else q

unfoldable pub dynamic_requirements : Requirements → ℕ → Requirements
unfolding max_fraction
dynamic_requirements r network_size = record {
  min_peers = min (max (network_size / 100) r.min_peers) 100;
  required_agreement = max_fraction r.required_agreement (
      if ltb 1000 network_size
      then record { num = 60; den = 100 }
      else record { num = 66; den = 100 });
  min_trust_score = r.min_trust_score;
  timeout = r.timeout;
}

-- `estimateTimeToQuorum`: the milliseconds as a fraction, none for `Infinity`.
unfoldable pub estimate_time : ℕ → ℕ → ℕ → Option Fraction
estimate_time current required rate =
    if leb required current
    then some (record { num = 0; den = 1 })
    else if leb rate 0
    then none
    else some (record { num = (required - current) * 1000; den = rate })

unfoldable pub estimated_within : Option Fraction → ℕ → Bool
unfolding at_least
estimated_within none remaining = false
estimated_within (some t) remaining = at_least (record { num = remaining; den = 1 }) t

-- `isQuorumLikely`; a remaining time below 0 is below every estimate.
unfoldable pub is_quorum_likely : Requirements → ℕ → ℕ → ℕ → ℕ → Bool
unfolding estimate_time estimated_within
is_quorum_likely r current required rate elapsed =
    if ltb r.timeout elapsed
    then false
    else estimated_within (estimate_time current required rate) (r.timeout - elapsed)

-- `quorumHistory`, a map from the contribution.
unfoldable pub record_quorum : Dict QuorumResult → String → QuorumResult → Dict QuorumResult
record_quorum h c q = put h c q

-- `importFromJSON`, on the entries that were parsed.
unfoldable pub import_entries :
    Requirements → ℕ → Dict QuorumResult → List (String × QuorumResult) → Dict QuorumResult
import_entries r now h [] = h
import_entries r now h ((c, q) ∷ es) =
    import_entries r now (if validate_quorum r now q then put h c q else h) es

-- `restoreSnapshotEntries`; an entry that is not a quorum result has none.
unfoldable pub restore_entries :
    Dict QuorumResult → List (String × Option QuorumResult) → Dict QuorumResult
restore_entries h [] = h
restore_entries h ((c, none) ∷ es) = restore_entries h es
restore_entries h ((c, some q) ∷ es) = restore_entries (put h c q) es

pub record Statistics : Type 0 where
  pub total : ℕ
  pub successful : ℕ
  pub failed : ℕ

unfoldable pub get_statistics : Dict QuorumResult → Statistics
get_statistics h =
    let results = values h in
    let reached = length (filter (λ (q : QuorumResult). q.reached) results) in
    record { total = length results; successful = reached; failed = length results - reached }
