-- ===== src/F4/Units.antt =====
-- Which blocks `F4_mul` of F4.h has no inverse for. The modulus x^64 + α x^3 + α x + 1 has the root 1, so that
-- a polynomial with this root has none either. The value at 1 is the sum of the coefficients, and that of
-- the first i + 1 of them is coefficient i of the product with 1 + x + x^2 + ...
use extension_field_pcg.Common.{
  ℕ, zero, suc, ◌+◌, ◌-◌, ◌<◌, true, false, xor, ◌≡◌, ◌≢◌, refl, sym, ap, ap₂, ◌∙◌, arith, [], ◌∷◌,
  subst,
}
use mathlib.Core.Bool.{true≢false}
use extension_field_pcg.Algebra.{◌⊕◌, ◌⊗◌}
use extension_field_pcg.Algebra.Series.{
  series, cauchy, none_of, constant, shift, IsBounded, shift_above,
}
use extension_field_pcg.Algebra.Sum.{sum, sum-append, sum-nil}
use extension_field_pcg.Algebra.Quad.{quad, quad_one, Quad-eq, mul_odd, mul_even}
use extension_field_pcg.Algebra.Solver.{var, one, nil, ◌:+◌, ◌:*◌, solve, norm}
use extension_field_pcg.Word.{f2, Bits, of_ℕ, block, extract_low, extract_high}
use extension_field_pcg.F4.Defs.{f4_mul, odd_bit_extraction, even_bit_extraction}
use extension_field_pcg.F4.Poly.{
  Poly, lanes, lanes-HasDegreeBelow, HasDegreeBelow, HasDegreeBelow-weaken, add-HasDegreeBelow,
  mul-HasDegreeBelow, x64,
}
use extension_field_pcg.F4.Reduce.{modulus, low_terms-HasDegreeBelow}
use extension_field_pcg.F4.Congruence.{Congruent}
use extension_field_pcg.F4.Mul.{f4_mul-Congruent}
use extension_field_pcg.F4.Ring.{one_block, lanes-one_block}

-- 1 + x + x^2 + ..., as a series and over F4.
abbrev ones : Bits
ones i = true

abbrev geometric : Poly
geometric = record { odd = ones; even = none_of }

ones-sum : (i : ℕ) (a : Bits) → cauchy ones a i ≡ sum (suc i) a
unfolding cauchy sum
ones-sum zero a = sym (f2.nil-add (a 0))
ones-sum (suc i) a = ap (λ t. f2.add (a (suc i)) t) (ones-sum i a) ∙ f2.add_comm (a (suc i)) _

-- The coefficients add up to zero: 1 is a root.
record HasRoot (n : ℕ) (p : Poly) : Type 0 where
  pub bounded : HasDegreeBelow n p
  pub odd_sum : sum n p.odd ≡ false
  pub even_sum : sum n p.even ≡ false

ones-IsBounded : (n : ℕ) (a : Bits) → IsBounded n a → sum n a ≡ false → IsBounded n (cauchy ones a)
ones-IsBounded n a b e i h =
    ones-sum i a
    ∙ ap (λ m. sum m a) {x = suc i} {y = n + (suc i - n)} (omega arith)
    ∙ sum-append n (suc i - n) a
    ∙ ap₂ f2.add e (sum-nil (suc i - n) _ (λ j l. b (n + j) (omega arith)))
    ∙ f2.nil-add false

geometric-mul :
    (p : Poly) → geometric ⊗ p ≡ record { odd = cauchy ones p.odd; even = cauchy ones p.even }
unfolding norm
geometric-mul p =
    let env = ones ∷ p.odd ∷ p.even ∷ [] in
    Quad-eq (solve env (mul_odd (var 0) nil (var 1) (var 2)) (var 0 :* var 1) refl)
      (solve env (mul_even (var 0) nil (var 1) (var 2)) (var 0 :* var 2) refl)

-- The product with a polynomial that has the root 1 is a polynomial.
geometric-HasDegreeBelow : {n : ℕ} {p : Poly} → HasRoot n p → HasDegreeBelow n (geometric ⊗ p)
geometric-HasDegreeBelow {n} {p} root = subst (HasDegreeBelow n) (sym (geometric-mul p)) (record {
  odd = ones-IsBounded n p.odd root.bounded.odd root.odd_sum;
  even = ones-IsBounded n p.even root.bounded.even root.even_sum;
})

x64-HasDegreeBelow : HasDegreeBelow 65 x64
x64-HasDegreeBelow = record {
  odd = λ i h. shift_above 64 i (constant true) (omega arith) ∙ above (i - 64) (omega arith);
  even = λ i h. refl;
}
  where
    above : (j : ℕ) → 0 < j → constant true j ≡ false
    above zero h = absurd (omega arith)
    above (suc j) h = refl

modulus-HasRoot : HasRoot 65 modulus
unfolding modulus xor
modulus-HasRoot = record {
  bounded =
      add-HasDegreeBelow x64-HasDegreeBelow
        (HasDegreeBelow-weaken 65 low_terms-HasDegreeBelow (omega arith));
  odd_sum = unfold sum shift extract_low extract_high block of_ℕ in refl;
  even_sum = unfold sum shift extract_low extract_high block of_ℕ in refl;
}

-- A polynomial that has the root 1 is no factor of 1 modulo the modulus.
no_factor_of_one :
    (n m : ℕ) (p q : Poly) → HasRoot n p → HasDegreeBelow m q → Congruent quad_one (p ⊗ q) → ⊥
no_factor_of_one n m p q root small c =
    let s = geometric ⊗ p ⊗ q ⊕ c.quotient ⊗ (geometric ⊗ modulus) in
    let size = (n + m) + (c.degree + 65) in
    let bound : HasDegreeBelow size s =
      add-HasDegreeBelow
        (HasDegreeBelow-weaken size (mul-HasDegreeBelow (geometric-HasDegreeBelow root) small)
          (omega arith))
        (HasDegreeBelow-weaken size
          (mul-HasDegreeBelow c.bounded (geometric-HasDegreeBelow modulus-HasRoot))
          (omega arith)) in
    true≢false (ap (λ (t : Poly). t.odd size) same ∙ bound.odd size (omega arith))
  where
    same : geometric ≡ geometric ⊗ p ⊗ q ⊕ c.quotient ⊗ (geometric ⊗ modulus)
    same =
        unfold norm in
        solve (geometric ∷ p ∷ q ∷ []) (var 0)
          (var 0 :* (one :+ var 1 :* var 2) :+ var 0 :* var 1 :* var 2) refl
        ∙ ap (λ t. geometric ⊗ t ⊕ geometric ⊗ p ⊗ q) c.difference
        ∙ solve (geometric ∷ p ∷ q ∷ c.quotient ∷ modulus ∷ [])
            (var 0 :* (var 3 :* var 4) :+ var 0 :* var 1 :* var 2)
            (var 0 :* var 1 :* var 2 :+ var 3 :* (var 0 :* var 4)) refl

-- A block whose coefficients add up to zero, those of the powers of x and those of α times them, has no
-- inverse: its `F4_mul` with any block is not the block (0, 1).
pub f4_mul-no_inverse :
    (x y : Bits)
    → sum 64 (odd_bit_extraction x) ≡ false
    → sum 64 (even_bit_extraction x) ≡ false
    → f4_mul x y ≢ one_block
f4_mul-no_inverse x y odd even e =
    no_factor_of_one 64 64 (lanes x) (lanes y)
      (record { bounded = lanes-HasDegreeBelow x; odd_sum = odd; even_sum = even })
      (lanes-HasDegreeBelow y)
      (subst (λ t. Congruent t (lanes x ⊗ lanes y)) (ap lanes e ∙ lanes-one_block)
        (f4_mul-Congruent x y))
