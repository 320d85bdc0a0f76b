-- ===== src/Fft/Root.antt =====
-- The shifts and masks in the loop of `inv_foleageFft` of F4.h, and the product by the block (0, 3).
use extension_field_pcg.Common.{ℕ, zero, suc, ◌+◌, ◌-◌, ◌%◌, ◌<◌, ◌≡◌, refl, sym}
use extension_field_pcg.Common.{
  Bool, true, false, not, ◌&&◌, ◌||◌, ltb, leb, lt→ltb, ltb-false, le→leb,
}
use extension_field_pcg.Common.{
  ap, ap₂, ◌∙◌, arith, all_below_sound, false-of-not, below_or_from, inl, inr,
}
use extension_field_pcg.Common.{fun_ext, [], ◌∷◌, and-false, and-true, or-false}
use extension_field_pcg.Algebra.{◌⊕◌, ◌⊗◌}
use extension_field_pcg.Algebra.Series.{series}
use extension_field_pcg.Word.{
  f2, Bits, of_ℕ, block, both, set_bytes, shift_left_halves, shift_right_halves,
}
use extension_field_pcg.Word.Lanes.{twice, twice_lem}
use extension_field_pcg.Algebra.Quad.{quad, quad_nil, Quad-eq, mul_odd, mul_even}
use extension_field_pcg.Algebra.Solver.{var, one, nil, ◌:+◌, solve, norm}
use extension_field_pcg.F4.{odd_bit_extraction, even_bit_extraction}
use extension_field_pcg.F4.Lanes.{odd_bit_extraction_lem, even_bit_extraction_lem}
use extension_field_pcg.F4.Poly.{lanes}
use extension_field_pcg.F4.Congruence.{Congruent-of_eq}
use extension_field_pcg.F4.Ring.{Block, Block-eq, IsBlock, f4_ring, f4_mul-eq, small_block}
use extension_field_pcg.F4.Ring.{small_block_above, lanes_injective, lanes-xor, lanes-one_block}
use extension_field_pcg.F4.Ring.{nil_block, one_block}
use extension_field_pcg.Fft.Defs.{mask_h, mask_l, mult_bits, mult}

mask_h_lower : (k : ℕ) → mask_h (twice k) ≡ false
mask_h_lower k = elim (below_or_from 64 k) [
  | inl h ↦
      false-of-not _
        (all_below_sound 64 (λ k. not (mask_h (twice k))) k (unfold set_bytes in refl) h)
  | inr h ↦
      unfold set_bytes in
      ap (λ b. b && of_ℕ 0b10101010 (twice k % 8))
        (ltb-false (twice k) 128 (omega (arith, twice_lem k)))
]

mask_l_upper : (k : ℕ) → mask_l (suc (twice k)) ≡ false
mask_l_upper k = elim (below_or_from 64 k) [
  | inl h ↦
      false-of-not _
        (all_below_sound 64 (λ k. not (mask_l (suc (twice k)))) k (unfold set_bytes in refl) h)
  | inr h ↦
      unfold set_bytes in
      ap (λ b. b && of_ℕ 0b01010101 (suc (twice k) % 8))
        (ltb-false (suc (twice k)) 128 (omega (arith, twice_lem k)))
]

mask_h_upper : (k : ℕ) → k < 64 → mask_h (suc (twice k)) ≡ true
unfolding set_bytes
mask_h_upper k h = all_below_sound 64 (λ k. mask_h (suc (twice k))) k refl h

mask_l_lower : (k : ℕ) → k < 64 → mask_l (twice k) ≡ true
unfolding set_bytes
mask_l_lower k h = all_below_sound 64 (λ k. mask_l (twice k)) k refl h

raised :
    (x : Bits) (k : ℕ) → k < 64 → shift_right_halves (both x mask_h) 1 (twice k) ≡ x (suc (twice k))
unfolding shift_right_halves
raised x k h =
    rw
      (
        lt→ltb (twice k) 128 (omega (arith, twice_lem k)),
        lt→ltb (twice k % 64 + 1) 64 (omega (arith, twice_lem k)),
      )
      (ap (both x mask_h) {x = twice k + 1} {y = suc (twice k)} (omega arith)
        ∙ ap (λ b. x (suc (twice k)) && b) (mask_h_upper k h)
        ∙ and-true _)

kept : (x : Bits) (k : ℕ) → k < 64 → both x mask_l (twice k) ≡ x (twice k)
kept x k h = ap (λ b. x (twice k) && b) (mask_l_lower k h) ∙ and-true _

not_lowered : (x : Bits) (k : ℕ) → shift_left_halves (both x mask_l) 1 (twice k) ≡ false
unfolding shift_left_halves
not_lowered x zero = refl
not_lowered x (suc k) =
    ap (λ b. (ltb (twice (suc k)) 128 && leb 1 (twice (suc k) % 64)) && b)
      (ap (both x mask_l) {x = twice (suc k) - 1} {y = suc (twice k)} (omega arith)
        ∙ ap (λ b. x (suc (twice k)) && b) (mask_l_upper k)
        ∙ and-false _)
    ∙ and-false _

-- The lower bit of a pair becomes the xor of the pair.
mult_bits_lower :
    (x : Bits) (k : ℕ) → k < 64 → mult_bits x (twice k) ≡ f2.add (x (suc (twice k))) (x (twice k))
unfolding mult_bits
mult_bits_lower x k h =
    ap₂ ◌||◌ (ap₂ f2.add (raised x k h) (kept x k h)) (not_lowered x k) ∙ or-false _

not_raised : (x : Bits) (k : ℕ) → shift_right_halves (both x mask_h) 1 (suc (twice k)) ≡ false
unfolding shift_right_halves
not_raised x k =
    ap (λ b. (ltb (suc (twice k)) 128 && ltb (suc (twice k) % 64 + 1) 64) && b)
      (ap (both x mask_h) {x = suc (twice k) + 1} {y = twice (suc k)} (omega arith)
        ∙ ap (λ b. x (twice (suc k)) && b) (mask_h_lower (suc k))
        ∙ and-false _)
    ∙ and-false _

dropped : (x : Bits) (k : ℕ) → both x mask_l (suc (twice k)) ≡ false
dropped x k = ap (λ b. x (suc (twice k)) && b) (mask_l_upper k) ∙ and-false _

lowered :
    (x : Bits) (k : ℕ) → k < 64 → shift_left_halves (both x mask_l) 1 (suc (twice k)) ≡ x (twice k)
unfolding shift_left_halves
lowered x k h =
    rw
      (
        lt→ltb (suc (twice k)) 128 (omega (arith, twice_lem k)),
        le→leb 1 (suc (twice k) % 64) (omega (arith, twice_lem k)),
      )
      (ap (both x mask_l) {x = suc (twice k) - 1} {y = twice k} (omega arith)
        ∙ ap (λ b. x (twice k) && b) (mask_l_lower k h)
        ∙ and-true _)

-- The upper bit of a pair becomes the lower one.
mult_bits_upper : (x : Bits) (k : ℕ) → k < 64 → mult_bits x (suc (twice k)) ≡ x (twice k)
unfolding mult_bits
mult_bits_upper x k h =
    ap₂ ◌||◌ (ap₂ f2.add (not_raised x k) (dropped x k) ∙ f2.nil-add false) (lowered x k h)

root-IsBlock : IsBlock (small_block 3)
root-IsBlock i h = small_block_above 3 2 i (omega arith) (omega arith)

-- `block(0, 3)`, the polynomial 1 + α.
unfoldable pub root : Block
unfolding root-IsBlock
root = (small_block 3, root-IsBlock)

lanes-root : lanes (small_block 3) ≡ record { odd = series.one; even = series.one }
lanes-root = Quad-eq (fun_ext odd) (fun_ext even)
  where
    odd : (k : ℕ) → odd_bit_extraction (small_block 3) k ≡ series.one k
    odd zero = odd_bit_extraction_lem (small_block 3) 0 ∙ (unfold block of_ℕ in refl)
    odd (suc k) =
        odd_bit_extraction_lem (small_block 3) (suc k)
        ∙ ap (λ b. ltb (suc k) 64 && b)
            (small_block_above 3 2 (twice (suc k)) (omega arith) (omega arith))
        ∙ and-false _

    even : (k : ℕ) → even_bit_extraction (small_block 3) k ≡ series.one k
    even zero = even_bit_extraction_lem (small_block 3) 0 ∙ (unfold block of_ℕ in refl)
    even (suc k) =
        even_bit_extraction_lem (small_block 3) (suc k)
        ∙ ap (λ b. ltb (suc k) 64 && b)
            (small_block_above 3 2 (suc (twice (suc k))) (omega arith) (omega arith))
        ∙ and-false _

guarded : (k : ℕ) (a b : Bool) → (k < 64 → a ≡ b) → (ltb k 64 && a) ≡ (ltb k 64 && b)
guarded k a b h = elim (below_or_from 64 k) [
  | inl l ↦ ap (λ c. ltb k 64 && c) (h l)
  | inr l ↦ rw (ltb-false k 64 l)
]

mult_bits_odd :
    (x : Bits) → odd_bit_extraction (mult_bits x) ≡ even_bit_extraction x ⊕ odd_bit_extraction x
mult_bits_odd x = fun_ext λ k.
    odd_bit_extraction_lem (mult_bits x) k
    ∙ guarded k _ _ (mult_bits_lower x k)
    ∙ f2.mul-add (ltb k 64) _ _
    ∙ sym (ap₂ f2.add (even_bit_extraction_lem x k) (odd_bit_extraction_lem x k))

mult_bits_even : (x : Bits) → even_bit_extraction (mult_bits x) ≡ odd_bit_extraction x
mult_bits_even x = fun_ext λ k.
    even_bit_extraction_lem (mult_bits x) k
    ∙ guarded k _ _ (mult_bits_upper x k)
    ∙ sym (odd_bit_extraction_lem x k)

lanes-mult_bits : (x : Bits) → lanes (mult_bits x) ≡ lanes (small_block 3) ⊗ lanes x
unfolding norm
lanes-mult_bits x =
    let p = lanes x in
    let env = p.odd ∷ p.even ∷ [] in
    Quad-eq (mult_bits_odd x ∙ solve env (var 1 :+ var 0) (mul_odd one one (var 0) (var 1)) refl)
      (mult_bits_even x ∙ solve env (var 0) (mul_even one one (var 0) (var 1)) refl)
    ∙ ap (λ t. t ⊗ lanes x) (sym lanes-root)

-- The masks, shifts and xors that compute `mult` in the loop are an `F4_mul` by the block (0, 3), which
-- is 1 + α.
pub mult-root : (x : Block) → mult x ≡ root ⊗ x
unfolding mult root
mult-root x =
    Block-eq
      (sym (f4_mul-eq (small_block 3) x.0 (mult x).1 (Congruent-of_eq (lanes-mult_bits x.0))))

lanes-nil_block : lanes nil_block.0 ≡ quad_nil
lanes-nil_block =
    Quad-eq (fun_ext λ k. odd_bit_extraction_lem nil_block.0 k ∙ and-false _)
      (fun_ext λ k. even_bit_extraction_lem nil_block.0 k ∙ and-false _)

-- A root of w^2 + w + 1.
pub root_lem : root ⊗ root ⊕ root ⊕ f4_ring.one ≡ f4_ring.nil
unfolding root mult norm
root_lem =
    ap (λ t. t ⊕ root ⊕ f4_ring.one) (sym (mult-root root))
    ∙ Block-eq (
        lanes_injective ((mult root ⊕ root ⊕ f4_ring.one)).1 nil_block.1 (
          lanes-xor (mult_bits root.0 ⊕ root.0) one_block
          ∙ ap (λ t. t ⊕ lanes one_block)
              (lanes-xor (mult_bits root.0) root.0
                ∙ ap (λ t. t ⊕ lanes root.0) (lanes-mult_bits root.0))
          ∙ ap₂ (λ s t. s ⊗ s ⊕ s ⊕ t) lanes-root lanes-one_block
          ∙ Quad-eq (solve [] (mul_odd one one one one :+ one :+ one) nil refl)
              (solve [] (mul_even one one one one :+ one :+ nil) nil refl)
          ∙ sym lanes-nil_block))
