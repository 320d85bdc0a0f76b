-- ===== src/F4/Interleave.antt =====
-- `interleave` of F4.h by its effect on each bit, and with the two extractions.
use extension_field_pcg.Common.{ℕ, zero, suc, ◌+◌, ◌-◌, ◌≤◌, ◌<◌, ◌≡◌, refl, sym, ap, ap₂, ◌∙◌}
use extension_field_pcg.Common.{
  Bool, true, false, ◌&&◌, ◌||◌, ltb, lt→ltb, ltb-false, ◌⊎◌, inl, inr,
}
use extension_field_pcg.Common.{below_or_from, fun_ext, arith, or-false, if◌then◌else◌}
use extension_field_pcg.Word.{Bits, either, block, shift_right, pdep}
use extension_field_pcg.Word.Lanes.{place, twice_lem, pdep_lane, pdep_other}
use extension_field_pcg.F4.Defs.{even_mask, odd_mask, interleave}
use extension_field_pcg.F4.Defs.{odd_bit_extraction, even_bit_extraction}
use extension_field_pcg.F4.Lanes.{even_mask-IsLane, odd_mask-IsLane, place-add, place-lt, place-ge}
use extension_field_pcg.F4.Lanes.{odd_bit_extraction_lem, even_bit_extraction_lem}

-- The two halves of the result have this shape.
abbrev scatter : Bits → Bits → Bits
scatter a b = either (pdep b even_mask) (pdep a odd_mask)

abbrev pub chosen : Bool → Bits → Bits → Bits
chosen up a b = if up then b else a

scatter_lem : (up : Bool) (a b : Bits) (k : ℕ) → k < 32 → scatter a b (place up k) ≡ chosen up a b k
scatter_lem true a b k h =
    ap₂ ◌||◌ (pdep_lane even_mask b true even_mask-IsLane k h)
      (pdep_other odd_mask a false odd_mask-IsLane k h)
    ∙ or-false _
scatter_lem false a b k h =
    ap₂ ◌||◌ (pdep_other even_mask b true even_mask-IsLane k h)
      (pdep_lane odd_mask a false odd_mask-IsLane k h)

chosen-shift :
    (up : Bool) (a b : Bits) (k : ℕ)
    → 32 ≤ k
    → k < 64
    → chosen up (shift_right a 32) (shift_right b 32) (k - 32) ≡ chosen up a b k
unfolding shift_right
chosen-shift true a b k h l =
    rw (lt→ltb (k - 32 + 32) 64 (omega arith)) (ap b {x = k - 32 + 32} (omega arith))
chosen-shift false a b k h l =
    rw (lt→ltb (k - 32 + 32) 64 (omega arith)) (ap a {x = k - 32 + 32} (omega arith))

-- For k below 64, bit 2k of an `interleave` is bit k of the first word, and bit 2k + 1 is that of the
-- second.
pub interleave_lem :
    (up : Bool) (a b : Bits) (k : ℕ) → k < 64 → interleave a b (place up k) ≡ chosen up a b k
unfolding interleave block
interleave_lem up a b k l = elim (below_or_from 32 k) [
  | inl h ↦ rw (lt→ltb (place up k) 64 (place-lt up k 32 h)) (scatter_lem up a b k h)
  | inr h ↦
      rw
        (
          ltb-false (place up k) 64 (place-ge up k 32 h),
          lt→ltb (place up k) 128 (place-lt up k 64 l),
        )
        (ap (scatter (shift_right a 32) (shift_right b 32)) (omega (arith, place-add up k h))
          ∙ scatter_lem up (shift_right a 32) (shift_right b 32) (k - 32) (omega arith)
          ∙ chosen-shift up a b k h l)
]

pub interleave_outside : (a b : Bits) (i : ℕ) → 128 ≤ i → interleave a b i ≡ false
unfolding interleave block
interleave_outside a b i h = rw (ltb-false i 64 (omega arith), ltb-false i 128 h)

-- `odd_bit_extraction` of an `interleave` is the low 64 bits of the first word.
pub odd_bit_extraction-interleave :
    (a b : Bits) (k : ℕ) → odd_bit_extraction (interleave a b) k ≡ (ltb k 64 && a k)
odd_bit_extraction-interleave a b k =
    odd_bit_extraction_lem (interleave a b) k ∙ elim (below_or_from 64 k) [
      | inl h ↦ rw (lt→ltb k 64 h) (interleave_lem false a b k h)
      | inr h ↦ rw (ltb-false k 64 h)
    ]

-- `even_bit_extraction` of an `interleave` is the low 64 bits of the second word.
pub even_bit_extraction-interleave :
    (a b : Bits) (k : ℕ) → even_bit_extraction (interleave a b) k ≡ (ltb k 64 && b k)
even_bit_extraction-interleave a b k =
    even_bit_extraction_lem (interleave a b) k ∙ elim (below_or_from 64 k) [
      | inl h ↦ rw (lt→ltb k 64 h) (interleave_lem true a b k h)
      | inr h ↦ rw (ltb-false k 64 h)
    ]

-- Every bit belongs to one of the lanes.
record Place (i : ℕ) : Type 0 where
  up : Bool
  at : ℕ
  is_place : place up at ≡ i

next_place : {i : ℕ} (up : Bool) (k : ℕ) → place up k ≡ i → Place (suc i)
next_place false k e = record { up = true; at = k; is_place = ap suc e }
next_place true k e = record { up = false; at = suc k; is_place = ap suc e }

twice_or_suc : (i : ℕ) → Place i
twice_or_suc zero = record { up = false; at = 0; is_place = refl }
twice_or_suc (suc i) = let p = twice_or_suc i in next_place p.up p.at p.is_place

chosen-extraction :
    (up : Bool) (x : Bits) (k : ℕ)
    → k < 64
    → chosen up (odd_bit_extraction x) (even_bit_extraction x) k ≡ x (place up k)
chosen-extraction true x k h = even_bit_extraction_lem x k ∙ rw (lt→ltb k 64 h)
chosen-extraction false x k h = odd_bit_extraction_lem x k ∙ rw (lt→ltb k 64 h)

interleave-extraction_at :
    (x : Bits) (i : ℕ) → i < 128 → interleave (odd_bit_extraction x) (even_bit_extraction x) i ≡ x i
interleave-extraction_at x i h =
    let p = twice_or_suc i in
    let l : p.at < 64 = place-lt_inv p.up p.at i p.is_place h in
    ap (interleave (odd_bit_extraction x) (even_bit_extraction x)) (sym p.is_place)
    ∙ interleave_lem p.up (odd_bit_extraction x) (even_bit_extraction x) p.at l
    ∙ chosen-extraction p.up x p.at l
    ∙ ap x p.is_place
  where
    place-lt_inv : (up : Bool) (k i : ℕ) → place up k ≡ i → i < 128 → k < 64
    place-lt_inv true k i e h = omega (arith, twice_lem k)
    place-lt_inv false k i e h = omega (arith, twice_lem k)

-- `interleave` of the two extractions of a block is that block, if it has no bit beyond the 128.
pub interleave-extraction :
    (x : Bits)
    → ((i : ℕ) → 128 ≤ i → x i ≡ false)
    → interleave (odd_bit_extraction x) (even_bit_extraction x) ≡ x
interleave-extraction x bounded = fun_ext λ i. at i (below_or_from 128 i)
  where
    at :
        (i : ℕ)
        → (i < 128) ⊎ (128 ≤ i)
        → interleave (odd_bit_extraction x) (even_bit_extraction x) i ≡ x i
    at i (inl h) = interleave-extraction_at x i h
    at i (inr h) = interleave_outside _ _ i h ∙ sym (bounded i h)
