-- ===== src/F4/Congruence.antt =====
-- Equality of polynomials up to a multiple of the modulus: the ring that F4.h computes in.
use extension_field_pcg.Common.{ℕ, ◌+◌, ◌≡◌, refl, sym, ap, ap₂, ◌∙◌, arith, [], ◌∷◌}
use extension_field_pcg.Algebra.{◌⊕◌, ◌⊗◌, eq_of_add, nil-mul}
use extension_field_pcg.Algebra.Series.{series}
use extension_field_pcg.Algebra.Quad.{quad, quad_nil}
use extension_field_pcg.Algebra.Solver.{var, ◌:+◌, ◌:*◌, solve, norm}
use extension_field_pcg.Word.{f2}
use extension_field_pcg.F4.Poly.{Poly, HasDegreeBelow, add-HasDegreeBelow, mul-HasDegreeBelow}
use extension_field_pcg.F4.Poly.{HasDegreeBelow-weaken}
use extension_field_pcg.F4.Reduce.{modulus}
use extension_field_pcg.F4.Unique.{multiple-nil}

-- p and q differ by a polynomial multiple of the modulus.
pub record Congruent (p q : Poly) : Type 0 where
  pub quotient : Poly
  pub degree : ℕ
  pub bounded : HasDegreeBelow degree quotient
  pub difference : p ⊕ q ≡ quotient ⊗ modulus

pub Congruent-symm : {p q : Poly} → Congruent p q → Congruent q p
Congruent-symm {p} {q} c = record {
  quotient = c.quotient;
  degree = c.degree;
  bounded = c.bounded;
  difference = quad.add_comm q p ∙ c.difference;
}

pub Congruent-of_eq : {p q : Poly} → p ≡ q → Congruent p q
Congruent-of_eq {p} {q} e = record {
  quotient = quad_nil;
  degree = 0;
  bounded = record { odd = λ i h. refl; even = λ i h. refl };
  difference = ap (λ t. t ⊕ q) e ∙ quad.add_self q ∙ sym (nil-mul modulus);
}

pub Congruent-add :
    {p q p' q' : Poly} → Congruent p q → Congruent p' q' → Congruent (p ⊕ p') (q ⊕ q')
Congruent-add {p} {q} {p'} {q'} c d = record {
  quotient = c.quotient ⊕ d.quotient;
  degree = c.degree + d.degree;
  bounded =
      add-HasDegreeBelow (HasDegreeBelow-weaken (c.degree + d.degree) c.bounded (omega arith))
        (HasDegreeBelow-weaken (c.degree + d.degree) d.bounded (omega arith));
  difference = chain;
}
  where
    chain : p ⊕ p' ⊕ (q ⊕ q') ≡ (c.quotient ⊕ d.quotient) ⊗ modulus
    chain =
        unfold norm in
        solve (p ∷ p' ∷ q ∷ q' ∷ []) (var 0 :+ var 1 :+ (var 2 :+ var 3))
          (var 0 :+ var 2 :+ (var 1 :+ var 3)) refl
        ∙ ap₂ (λ a b. a ⊕ b) c.difference d.difference
        ∙ solve (c.quotient ∷ d.quotient ∷ modulus ∷ []) (var 0 :* var 2 :+ var 1 :* var 2)
            ((var 0 :+ var 1) :* var 2) refl

pub Congruent-trans : {p q s : Poly} → Congruent p q → Congruent q s → Congruent p s
Congruent-trans {p} {q} {s} c d = record {
  quotient = c.quotient ⊕ d.quotient;
  degree = c.degree + d.degree;
  bounded =
      add-HasDegreeBelow (HasDegreeBelow-weaken (c.degree + d.degree) c.bounded (omega arith))
        (HasDegreeBelow-weaken (c.degree + d.degree) d.bounded (omega arith));
  difference = chain;
}
  where
    chain : p ⊕ s ≡ (c.quotient ⊕ d.quotient) ⊗ modulus
    chain =
        unfold norm in
        solve (p ∷ q ∷ s ∷ []) (var 0 :+ var 2) (var 0 :+ var 1 :+ (var 1 :+ var 2)) refl
        ∙ ap₂ (λ a b. a ⊕ b) c.difference d.difference
        ∙ solve (c.quotient ∷ d.quotient ∷ modulus ∷ []) (var 0 :* var 2 :+ var 1 :* var 2)
            ((var 0 :+ var 1) :* var 2) refl

-- Congruence is kept by a factor that is a polynomial.
pub Congruent-mul :
    {n : ℕ} {p q s : Poly} → HasDegreeBelow n s → Congruent p q → Congruent (p ⊗ s) (q ⊗ s)
Congruent-mul {n} {p} {q} {s} b c = record {
  quotient = c.quotient ⊗ s;
  degree = _;
  bounded = mul-HasDegreeBelow c.bounded b;
  difference = chain;
}
  where
    chain : p ⊗ s ⊕ q ⊗ s ≡ c.quotient ⊗ s ⊗ modulus
    chain =
        unfold norm in
        solve (p ∷ q ∷ s ∷ []) (var 0 :* var 2 :+ var 1 :* var 2) ((var 0 :+ var 1) :* var 2) refl
        ∙ ap (λ t. t ⊗ s) c.difference
        ∙ solve (c.quotient ∷ modulus ∷ s ∷ []) (var 0 :* var 1 :* var 2) (var 0 :* var 2 :* var 1)
            refl

-- Two remainders that are congruent are equal.
pub Congruent-eq : {p q : Poly} → HasDegreeBelow 64 p → HasDegreeBelow 64 q → Congruent p q → p ≡ q
Congruent-eq {p} {q} hp hq c =
    eq_of_add p q (c.difference ∙ ap (λ t. t ⊗ modulus) none ∙ nil-mul modulus)
  where
    low : HasDegreeBelow 64 (c.quotient ⊗ modulus)
    low = rw (← c.difference) (add-HasDegreeBelow hp hq)

    none : c.quotient ≡ quad_nil
    none = multiple-nil c.degree c.quotient c.bounded low
