-- ===== src/Consensus/Quorum/Agreement.antt =====
-- When a tally reaches a quorum.
use synpeer.Prelude.{
  ℕ, ◌+◌, ◌*◌, ◌≤◌, ◌<◌, ◌≡◌, ◌↔◌, true, false, ◌&&◌, ltb, leb, arith, Bool-cases, ltb→lt, inl, inr,
}
use synpeer.Consensus.Quorum.{
  Fraction, Requirements, share, at_least, more_than, calculate_quorum, validate_quorum,
  dynamic_requirements,
}
use native.Mathlib.Nat.{lt_of_mul-lt-mul_right, mul-lt-mul_of_pos_right, mul-le-mul_right}

mul_cancel : (a b k : ℕ) → 0 < k → (a * k < b * k) ↔ (a < b)
mul_cancel a b k h = (λ x. lt_of_mul-lt-mul_right k x, λ x. mul-lt-mul_of_pos_right x h)

-- In exact arithmetic a quorum is reached exactly if enough votes were cast, the approvals are at
-- least the required share of them, and there are more approvals than rejections.
pub reached_iff :
    (r : Requirements) (now approve reject abstain : ℕ)
    → ((calculate_quorum r now approve reject abstain).reached ≡ true) ↔ (
        (r.min_peers ≤ approve + reject + abstain)
        × ((r.required_agreement.num * (approve + reject + abstain)
              ≤ approve * r.required_agreement.den)
            × (reject < approve)))
unfolding calculate_quorum share at_least more_than
reached_iff r now approve reject abstain = elim (Bool-cases (ltb 0 (approve + reject + abstain))) [
  | inl b ↦
      rw b (ground (arith, mul_cancel reject approve (approve + reject + abstain) (ltb→lt _ _ b)))
  | inr b ↦ rw b (ground (arith, b))
]

-- If a tally reaches a quorum, the tally with approvals and rejections exchanged reaches none,
-- whatever its requirements.
pub not_reached_both :
    (r s : Requirements) (now later approve reject abstain : ℕ)
    → (calculate_quorum r now approve reject abstain).reached ≡ true
    → (calculate_quorum s later reject approve abstain).reached ≡ false
not_reached_both r s now later approve reject abstain h =
    elim (Bool-cases (calculate_quorum s later reject approve abstain).reached) [
      | inl b ↦ absurd (
          omega (
            arith,
            ((reached_iff r now approve reject abstain).0 h).1.1,
            ((reached_iff s later reject approve abstain).0 b).1.1,
          ))
      | inr b ↦ b
    ]

agreement_mono : (p q a t k : ℕ) → p ≤ q → p * t ≤ a * q → p * (t + k) ≤ (a + k) * q
agreement_mono p q a t k h x = omega (arith, x, mul-le-mul_right k h)

-- A fraction that is at most 1.
abbrev pub IsShare : Fraction → Type 0
IsShare p = p.num ≤ p.den

-- If the required agreement is at most 1, further approvals keep a quorum reached.
pub reached_mono :
    (r : Requirements) (now later approve reject abstain more : ℕ)
    → IsShare r.required_agreement
    → (calculate_quorum r now approve reject abstain).reached ≡ true
    → (calculate_quorum r later (approve + more) reject abstain).reached ≡ true
reached_mono r now later approve reject abstain more s h =
    let x = (reached_iff r now approve reject abstain).0 h in
    (reached_iff r later (approve + more) reject abstain).1 (
      omega (arith, x.0),
      (
        omega (arith, agreement_mono _ _ approve (approve + reject + abstain) more s x.1.0),
        omega (arith, x.1.1),
      ),
    )

-- A calculated result is valid exactly if it was reached and its age is within the timeout.
pub validate-calculate :
    (r : Requirements) (at now approve reject abstain : ℕ)
    → validate_quorum r now (calculate_quorum r at approve reject abstain)
      ≡ (leb now (at + r.timeout) && (calculate_quorum r at approve reject abstain).reached)
unfolding validate_quorum calculate_quorum
validate-calculate r at now approve reject abstain = ground arith

pub dynamic_bounds :
    (r : Requirements) (size : ℕ)
    → r.min_peers ≤ 100
    → (r.min_peers ≤ (dynamic_requirements r size).min_peers)
      × ((dynamic_requirements r size).min_peers ≤ 100)
unfolding dynamic_requirements
dynamic_bounds r size h = omega (arith, h)
