-- ===== src/F4/Constant.antt =====
-- `mulConst` of `CoeffCtxGF128_F4` in Coeff128.h, which mixes the bits of a block by a constant.
use extension_field_pcg.Common.{
  ℕ, Bool, true, false, not, xor, ◌≡◌, refl, sym, ap, ◌∙◌, fun_ext, inl, inr, below_or_from,
  all_below, all_below_sound,
}
use extension_field_pcg.Algebra.Series.{cauchy}
use extension_field_pcg.Word.{
  Bits, of_ℕ, block, shift_left, shift_right, pext, pdep, extract_low, extract_high, clmulepi64,
}
use extension_field_pcg.F4.Defs.{
  f4_mul, f4_reduce, interleave, odd_bit_extraction, even_bit_extraction,
}
use extension_field_pcg.F4.Ring.{
  IsBlock, small_block, one_block, one_block-IsBlock, one_block-f4_mul, f4_mul-IsBlock, f4_mul_comm,
  f4_mul_assoc,
}

-- `block y(0, 4234123421); ret = F4_mul(x, y)`.
unfoldable pub mul_const : Bits → Bits
mul_const x = f4_mul x (small_block 4234123421)

-- The inverse of the constant.
abbrev inverse : Bits
inverse = block (of_ℕ 0x1e84b8d5475dc23a) (of_ℕ 0x97549bb1d4933902)

-- Whether two bits are the same.
abbrev same : Bool → Bool → Bool
same a b = not (xor a b)

same-eq : (a b : Bool) → same a b ≡ true → a ≡ b
unfolding xor
same-eq true true e = refl
same-eq true false e = sym e
same-eq false true e = e
same-eq false false e = refl

-- The product of the constant and its inverse, bit by bit.
unfoldable agrees : ℕ → Bool
agrees i = same (f4_mul (small_block 4234123421) inverse i) (one_block i)

inverse_bits : all_below 128 agrees ≡ true
unfolding agrees f4_mul f4_reduce interleave odd_bit_extraction even_bit_extraction xor shift_left
    shift_right pext pdep of_ℕ block extract_low extract_high clmulepi64 cauchy
inverse_bits = refl

mul_const-inverse : f4_mul (small_block 4234123421) inverse ≡ one_block
mul_const-inverse = fun_ext (λ i. elim (below_or_from 128 i) [
  | inl h ↦ same-eq _ _ (unfold agrees in all_below_sound 128 agrees i inverse_bits h)
  | inr h ↦ f4_mul-IsBlock (small_block 4234123421) inverse i h ∙ sym (one_block-IsBlock i h)
])

undone : (x : Bits) → IsBlock x → f4_mul (mul_const x) inverse ≡ x
unfolding mul_const
undone x h =
    f4_mul_assoc x (small_block 4234123421) inverse
    ∙ ap (f4_mul x) mul_const-inverse
    ∙ f4_mul_comm x one_block
    ∙ one_block-f4_mul x h

-- Two blocks of 128 bits that `mulConst` maps to the same block are equal: the constant has an inverse.
pub mul_const_injective : (x y : Bits) → IsBlock x → IsBlock y → mul_const x ≡ mul_const y → x ≡ y
mul_const_injective x y hx hy e = sym (undone x hx) ∙ ap (λ z. f4_mul z inverse) e ∙ undone y hy
