-- ===== src/Media/Payload.antt =====
-- calculateMaxRawPayloadBytes in src/services/media/MediaTransferScheduler.ts. The bytes of the frame
-- that the caller builds for a part of a size, out of a number of parts, are a parameter.
use synpeer.Prelude.{
  ℕ, zero, suc, ◌+◌, ◌-◌, ◌/◌, ◌≤◌, ◌<◌, ◌≡◌, ◌⊎◌, inl, inr, refl, Bool, true, false, ◌||◌, Option,
  none, some, leb, nat_beq, arith, Bool-cases, leb→le, leb→lt, subst, if◌then◌else◌,
}

-- The loop; a round leaves fewer candidates, and none stands for too little fuel.
unfoldable pub search : (ℕ → Bool) → ℕ → ℕ → ℕ → ℕ → Option ℕ
search fits zero low high best = if leb low high then none else some best
search fits (suc n) low high best = elim (leb low high) [
  | true ↦ elim (fits (low + (high - low) / 2)) [
    | true ↦ search fits n (low + (high - low) / 2 + 1) high (low + (high - low) / 2)
    | false ↦ search fits n low (low + (high - low) / 2 - 1) best
  ]
  | false ↦ some best
]

-- `Math.ceil(a / b)`
unfoldable pub ceil_div : ℕ → ℕ → ℕ
ceil_div a b = (a + b - 1) / b

-- `frameBytes <= maxFrameBytes` for a candidate.
unfoldable pub fits_frame : (ℕ → ℕ → ℕ) → ℕ → ℕ → ℕ → Bool
unfolding ceil_div
fits_frame frame_bytes total max_frame candidate =
    leb (frame_bytes candidate (ceil_div total candidate)) max_frame

unfoldable pub calculate_max_raw_payload_bytes : (ℕ → ℕ → ℕ) → ℕ → ℕ → Option ℕ
unfolding search fits_frame
calculate_max_raw_payload_bytes frame_bytes total max_frame =
    if nat_beq total 0 || nat_beq max_frame 0
    then some 0
    else search (fits_frame frame_bytes total max_frame) total 1 total 0

-- A size that fits, or 0, at which the sizes stop fitting.
abbrev pub IsEdge : (ℕ → Bool) → ℕ → ℕ → Type 0
IsEdge fits total r =
    (r ≤ total) × (((r ≡ 0) ⊎ (fits r ≡ true)) × ((r ≡ total) ⊎ (fits (r + 1) ≡ false)))

-- Where the loop ends.
edge :
    (fits : ℕ → Bool) (total low high best : ℕ)
    → leb low high ≡ false
    → best + 1 ≡ low
    → best ≤ high
    → high ≤ total
    → (best ≡ 0) ⊎ (fits best ≡ true)
    → (high ≡ total) ⊎ (fits (high + 1) ≡ false)
    → (r : ℕ) × ((some best ≡ some r) × IsEdge fits total r)
edge fits total low high best x b h t p q =
    (best, (refl, (omega arith, (p, subst (λ k. (k ≡ total) ⊎ (fits (k + 1) ≡ false)) top q))))
  where
    top : high ≡ best
    top = omega (arith, leb→lt low high x, b, h)

search-IsEdge :
    (fits : ℕ → Bool) (total n low high best : ℕ)
    → high + 1 ≤ low + n
    → best + 1 ≡ low
    → best ≤ high
    → high ≤ total
    → (best ≡ 0) ⊎ (fits best ≡ true)
    → (high ≡ total) ⊎ (fits (high + 1) ≡ false)
    → (r : ℕ) × ((search fits n low high best ≡ some r) × IsEdge fits total r)
unfolding search
search-IsEdge fits total zero low high best f b h t p q = elim (Bool-cases (leb low high)) [
  | inl x ↦ absurd (ground (arith, x))
  | inr x ↦ rw (search, x) (edge fits total low high best x b h t p q)
]
search-IsEdge fits total (suc n) low high best f b h t p q = elim (Bool-cases (leb low high)) [
  | inl x ↦ elim (Bool-cases (fits (low + (high - low) / 2))) [
    | inl y ↦
        rw (search, x, y)
          (search-IsEdge fits total n (low + (high - low) / 2 + 1) high (low + (high - low) / 2)
            (ground (arith, leb→le low high x)) refl (ground (arith, leb→le low high x)) t (inr y)
            q)
    | inr y ↦
        rw (search, x, y)
          (search-IsEdge fits total n low (low + (high - low) / 2 - 1) best (omega arith) b
            (ground (arith, leb→le low high x)) (omega arith) p
            (inr (subst (λ k. fits k ≡ false) (ground (arith, leb→le low high x)) y)))
  ]
  | inr x ↦ rw (search, x) (edge fits total low high best x b h t p q)
]

-- If the frame limit is positive, the binary search returns, with as many rounds as there are
-- bytes, a size of at most the total that is 0 or fits, and that is the total or one byte below a
-- size that does not fit.
pub calculate_max_raw_payload_bytes-IsEdge :
    (frame_bytes : ℕ → ℕ → ℕ) (total max_frame : ℕ)
    → 0 < max_frame
    → (r : ℕ) × ((calculate_max_raw_payload_bytes frame_bytes total max_frame ≡ some r)
        × IsEdge (fits_frame frame_bytes total max_frame) total r)
unfolding calculate_max_raw_payload_bytes
calculate_max_raw_payload_bytes-IsEdge frame_bytes total max_frame h =
    elim (Bool-cases (nat_beq total 0 || nat_beq max_frame 0)) [
      | inl b ↦ rw b (0, (refl, (omega arith, (inl refl, inl (ground (arith, b))))))
      | inr b ↦ rw b (
          search-IsEdge (fits_frame frame_bytes total max_frame) total total 1 total 0 (omega arith)
            refl (omega arith) (omega arith) (inl refl) (inl refl))
    ]
