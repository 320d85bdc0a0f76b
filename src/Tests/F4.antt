-- ===== src/Tests/F4.antt =====
-- The product of blocks at concrete inputs.
use extension_field_pcg.Common.{◌≡◌, ◌≢◌, sym, ap, ◌∙◌, refl, false, xor}
use extension_field_pcg.Algebra.{◌⊗◌}
use extension_field_pcg.Algebra.Quad.{quad}
use extension_field_pcg.Algebra.Series.{series}
use extension_field_pcg.Word.{Bits, of_ℕ, block, f2, shift_left, pext, extract_low, extract_high}
use extension_field_pcg.F4.{f4_mul, odd_bit_extraction, even_bit_extraction}
use extension_field_pcg.F4.Constant.{mul_const, mul_const_injective}
use extension_field_pcg.F4.Units.{f4_mul-no_inverse}
use extension_field_pcg.Algebra.Sum.{sum}
use extension_field_pcg.F4.Congruence.{Congruent, Congruent-of_eq}
use extension_field_pcg.F4.Poly.{lanes, lanes-HasDegreeBelow}
use extension_field_pcg.F4.Mul.{f4_mul-Congruent, f4_mul_unique}
use extension_field_pcg.F4.Ring.{
  small_block, one_block, f4_mul-IsBlock, f4_mul_comm, f4_mul_assoc, lanes-one_block,
}

abbrev first : Bits
first = block (of_ℕ 0x8000000000000001) (of_ℕ 7)

abbrev second : Bits
second = small_block 3

abbrev third : Bits
third = block (of_ℕ 2) (of_ℕ 6)

f4_mul-Congruent_example : Congruent (lanes (f4_mul first second)) (lanes first ⊗ lanes second)
f4_mul-Congruent_example = f4_mul-Congruent first second

f4_mul_unique_example : lanes (f4_mul one_block first) ≡ lanes first
f4_mul_unique_example =
    f4_mul_unique one_block first (lanes first) (lanes-HasDegreeBelow first) (
      Congruent-of_eq
        (sym (ap (λ t. t ⊗ lanes first) lanes-one_block ∙ quad.one-mul (lanes first))))

f4_mul_assoc_example : f4_mul (f4_mul first second) third ≡ f4_mul first (f4_mul second third)
f4_mul_assoc_example = f4_mul_assoc first second third

-- The block of 1 + x.
abbrev one_and_x : Bits
one_and_x = small_block 5

odd_sum : sum 64 (odd_bit_extraction one_and_x) ≡ false
unfolding sum odd_bit_extraction xor shift_left pext of_ℕ extract_low block extract_high
odd_sum = refl

even_sum : sum 64 (even_bit_extraction one_and_x) ≡ false
unfolding sum even_bit_extraction xor shift_left pext of_ℕ extract_low block extract_high
even_sum = refl

f4_mul-no_inverse_example : f4_mul one_and_x first ≢ one_block
f4_mul-no_inverse_example = f4_mul-no_inverse one_and_x first odd_sum even_sum

mul_const_injective_example : f4_mul first third ≡ f4_mul third first
mul_const_injective_example =
    mul_const_injective (f4_mul first third) (f4_mul third first) (f4_mul-IsBlock first third)
      (f4_mul-IsBlock third first) (ap mul_const (f4_mul_comm first third))
