-- ===== src/F4/Lanes.antt =====
-- The three functions of F4.h that move bits, by their effect on each bit: a block is read as two
-- lanes of 64 bits, and `interleave` is the inverse.
use extension_field_pcg.Common.{ℕ, suc, ◌+◌, ◌-◌, ◌≤◌, ◌<◌, ◌≡◌, refl, ap₂, ◌∙◌, inl, inr}
use extension_field_pcg.Common.{Bool, true, false, not, ◌&&◌, ◌||◌, ltb, lt→ltb, ltb-false}
use extension_field_pcg.Common.{leb-false, le→leb, below_or_from, all_below_sound, arith}
use extension_field_pcg.Common.{or-false, false-of-not}
use extension_field_pcg.Word.{Bits, of_ℕ, either, extract_low, extract_high, shift_left}
use extension_field_pcg.Word.{pext}
use extension_field_pcg.Word.Lanes.{IsLane, place, twice, twice_lem, pext_lane}
use extension_field_pcg.F4.Defs.{even_mask, odd_mask}
use extension_field_pcg.F4.Defs.{odd_bit_extraction, even_bit_extraction}

even_lower : (k : ℕ) → k < 32 → even_mask (twice k) ≡ false
unfolding of_ℕ
even_lower k h = false-of-not _ (all_below_sound 32 (λ k. not (even_mask (twice k))) k refl h)

even_upper : (k : ℕ) → k < 32 → even_mask (suc (twice k)) ≡ true
unfolding of_ℕ
even_upper k h = all_below_sound 32 (λ k. even_mask (suc (twice k))) k refl h

odd_lower : (k : ℕ) → k < 32 → odd_mask (twice k) ≡ true
unfolding of_ℕ
odd_lower k h = all_below_sound 32 (λ k. odd_mask (twice k)) k refl h

odd_upper : (k : ℕ) → k < 32 → odd_mask (suc (twice k)) ≡ false
unfolding of_ℕ
odd_upper k h = false-of-not _ (all_below_sound 32 (λ k. not (odd_mask (suc (twice k)))) k refl h)

pub even_mask-IsLane : IsLane true even_mask
even_mask-IsLane = record { lower = even_lower; upper = even_upper }

pub odd_mask-IsLane : IsLane false odd_mask
odd_mask-IsLane = record { lower = odd_lower; upper = odd_upper }

-- Both extractions have this shape.
abbrev gather : Bits → Bits → Bits
gather mask x = either (shift_left (pext (extract_high x) mask) 32) (pext (extract_low x) mask)

pub place-add : (up : Bool) (k : ℕ) → 32 ≤ k → place up (k - 32) + 64 ≡ place up k
place-add true k h = omega (arith, twice_lem k, twice_lem (k - 32))
place-add false k h = omega (arith, twice_lem k, twice_lem (k - 32))

pub place-lt : (up : Bool) (k n : ℕ) → k < n → place up k < n + n
place-lt true k n h = omega (arith, twice_lem k)
place-lt false k n h = omega (arith, twice_lem k)

pub place-ge : (up : Bool) (k n : ℕ) → n ≤ k → n + n ≤ place up k
place-ge true k n h = omega (arith, twice_lem k)
place-ge false k n h = omega (arith, twice_lem k)

module _ (up : Bool) (mask : Bits) (lane : IsLane up mask) (x : Bits) where
  gather_low : (k : ℕ) → k < 32 → gather mask x k ≡ x (place up k)
  unfolding shift_left extract_low
  gather_low k h =
      rw (lt→ltb k 64 (omega arith), leb-false 32 k h)
        (pext_lane up mask (extract_low x) lane k
          ∙ rw (lt→ltb k 32 h, lt→ltb (place up k) 64 (place-lt up k 32 h)))

  gather_high : (k : ℕ) → 32 ≤ k → k < 64 → gather mask x k ≡ x (place up k)
  unfolding shift_left extract_high
  gather_high k h l =
      rw (lt→ltb k 64 l, le→leb 32 k h)
        (ap₂ ◌||◌ (pext_lane up mask (extract_high x) lane (k - 32))
            (pext_lane up mask (extract_low x) lane k)
          ∙ rw
              (
                lt→ltb (k - 32) 32 (omega arith),
                lt→ltb (place up (k - 32)) 64 (place-lt up (k - 32) 32 (omega arith)),
                ltb-false k 32 h,
                place-add up k h,
              )
              (or-false _))

  gather_outside : (k : ℕ) → 64 ≤ k → gather mask x k ≡ false
  unfolding shift_left
  gather_outside k h =
      rw (ltb-false k 64 h)
        (pext_lane up mask (extract_low x) lane k ∙ rw (ltb-false k 32 (omega arith)))

  gather_lem : (k : ℕ) → gather mask x k ≡ (ltb k 64 && x (place up k))
  gather_lem k = elim (below_or_from 64 k) [
    | inl l ↦
        rw (lt→ltb k 64 l)
          (elim (below_or_from 32 k) [ inl h ↦ gather_low k h | inr h ↦ gather_high k h l ])
    | inr h ↦ rw (ltb-false k 64 h) (gather_outside k h)
  ]

-- Bit k of the odd lane is bit 2k of the block.
pub odd_bit_extraction_lem : (x : Bits) (k : ℕ) → odd_bit_extraction x k ≡ (ltb k 64 && x (twice k))
unfolding odd_bit_extraction
odd_bit_extraction_lem x k = gather_lem false odd_mask odd_mask-IsLane x k

-- Bit k of the even lane is bit 2k + 1 of the block.
pub even_bit_extraction_lem :
    (x : Bits) (k : ℕ) → even_bit_extraction x k ≡ (ltb k 64 && x (suc (twice k)))
unfolding even_bit_extraction
even_bit_extraction_lem x k = gather_lem true even_mask even_mask-IsLane x k
