-- ===== src/F4/Mul.antt =====
-- `F4_mul` of F4.h against the product of polynomials modulo x^64 + α x^3 + α x + 1.
use extension_field_pcg.Common.{◌≡◌, ap, ◌∙◌, arith}
use extension_field_pcg.Algebra.{◌⊕◌, ◌⊗◌}
use extension_field_pcg.Algebra.Series.{series}
use extension_field_pcg.Algebra.Quad.{quad}
use extension_field_pcg.Word.{f2, Bits, block, clmulepi64, extract_low, extract_high}
use extension_field_pcg.Word.Halves.{extract_low-block, extract_high-block, extract_low_whole}
use extension_field_pcg.F4.Defs.{f4_mul, f4_reduce}
use extension_field_pcg.F4.Poly.{Poly, lanes, high_part, HasDegreeBelow, mul-HasDegreeBelow}
use extension_field_pcg.F4.Poly.{HasDegreeBelow-weaken}
use extension_field_pcg.F4.Poly.{high_part-HasDegreeBelow, add-HasDegreeBelow, lanes-HasDegreeBelow}
use extension_field_pcg.F4.Reduce.{first_round, f4_reduce-modulus}
use extension_field_pcg.F4.Congruence.{Congruent, Congruent-eq, Congruent-trans, Congruent-symm}

-- Both operands are put into one block, even lane above odd lane, and taken apart again.
unpack_low : (x : Bits) → extract_low (block (lanes x).even (lanes x).odd) ≡ (lanes x).odd
unpack_low x =
    extract_low-block (lanes x).even (lanes x).odd
    ∙ extract_low_whole (lanes x).odd (lanes-HasDegreeBelow x).odd

unpack_high : (x : Bits) → extract_high (block (lanes x).even (lanes x).odd) ≡ (lanes x).even
unpack_high x =
    extract_high-block (lanes x).even (lanes x).odd
    ∙ extract_low_whole (lanes x).even (lanes-HasDegreeBelow x).even

f4_mul-f4_reduce :
    (x y : Bits) → f4_mul x y ≡ f4_reduce (lanes x ⊗ lanes y).odd (lanes x ⊗ lanes y).even
unfolding f4_mul clmulepi64
f4_mul-f4_reduce x y =
    let product = λ (a b : Bits) (c d : Bits). f4_reduce (a ⊗ c ⊕ b ⊗ d) (a ⊗ d ⊕ b ⊗ c ⊕ b ⊗ d) in
    λ i. product (unpack_low x i) (unpack_high x i) (unpack_low y i) (unpack_high y i)

product-HasDegreeBelow : (x y : Bits) → HasDegreeBelow 128 (lanes x ⊗ lanes y)
product-HasDegreeBelow x y =
    HasDegreeBelow-weaken {n = 127} 128
      (mul-HasDegreeBelow (lanes-HasDegreeBelow x) (lanes-HasDegreeBelow y)) (omega arith)

-- The polynomial that `F4_mul` returns differs from the product of its operands' polynomials over F4 by
-- a polynomial multiple of the modulus x^64 + α x^3 + α x + 1.
pub f4_mul-Congruent : (x y : Bits) → Congruent (lanes (f4_mul x y)) (lanes x ⊗ lanes y)
f4_mul-Congruent x y = record {
  quotient = high_part (lanes x ⊗ lanes y) ⊕ high_part (first_round (lanes x ⊗ lanes y));
  degree = 64;
  bounded = add-HasDegreeBelow (high_part-HasDegreeBelow _) (high_part-HasDegreeBelow _);
  difference =
      ap (λ t. lanes t ⊕ lanes x ⊗ lanes y) (f4_mul-f4_reduce x y)
      ∙ f4_reduce-modulus (lanes x ⊗ lanes y) (product-HasDegreeBelow x y);
}

-- Any polynomial of degree below 64 that is congruent to the product of the operands' polynomials is
-- the one that `F4_mul` returns.
pub f4_mul_unique :
    (x y : Bits) (p : Poly)
    → HasDegreeBelow 64 p
    → Congruent p (lanes x ⊗ lanes y)
    → lanes (f4_mul x y) ≡ p
f4_mul_unique x y p small c =
    Congruent-eq (lanes-HasDegreeBelow (f4_mul x y)) small
      (Congruent-trans (f4_mul-Congruent x y) (Congruent-symm c))
