-- ===== src/F4/Unique.antt =====
-- Remainders modulo x^64 + α x^3 + α x + 1 are unique: a multiple of it that has degree below 64 is
-- nil, since the coefficient of x^64 is 1.
use extension_field_pcg.Common.{ℕ, zero, suc, ◌+◌, ◌-◌, ◌≤◌, ◌≡◌, refl, sym, ap, ◌∙◌}
use extension_field_pcg.Common.{◌≡⟨◌⟩◌, ◌∎, Bool, false, fun_ext, inl, inr, ◌⊎◌, arith, [], ◌∷◌}
use extension_field_pcg.Algebra.{◌⊕◌, ◌⊗◌, add-nil}
use extension_field_pcg.Algebra.Series.{series, shift_above, IsBounded}
use extension_field_pcg.Algebra.Quad.{Quad, Quad-eq, quad, quad_nil}
use extension_field_pcg.Algebra.Solver.{var, ◌:+◌, ◌:*◌, solve, norm}
use extension_field_pcg.Word.{f2, Bits}
use extension_field_pcg.Word.Halves.{power64, power64-mul}
use extension_field_pcg.F4.Poly.{Poly, x64, HasDegreeBelow, x64-mul, mul-HasDegreeBelow}
use extension_field_pcg.F4.Reduce.{low_terms, modulus, low_terms-HasDegreeBelow}

-- The coefficients of x^i.
abbrev coefficient : ℕ → Poly → Quad Bool
coefficient i p = record { odd = p.odd i; even = p.even i }

coefficient_top : (i : ℕ) (q : Poly) → coefficient (i + 64) (x64 ⊗ q) ≡ coefficient i q
coefficient_top i q = ap (coefficient (i + 64)) (x64-mul q) ∙ Quad-eq (top q.odd) (top q.even)
  where
    top : (a : Bits) → (power64 ⊗ a) (i + 64) ≡ a i
    top a =
        ap (λ s. s (i + 64)) (power64-mul a)
        ∙ shift_above 64 (i + 64) a (omega arith)
        ∙ ap a {x = i + 64 - 64} (omega arith)

coefficient_nil :
    {n : ℕ} {p : Poly} (i : ℕ) → HasDegreeBelow n p → n ≤ i → coefficient i p ≡ quad_nil
coefficient_nil i b h = Quad-eq (b.odd i h) (b.even i h)

-- The leading coefficient of a multiple is that of the cofactor.
leading :
    (n : ℕ) (q : Poly)
    → HasDegreeBelow (suc n) q
    → HasDegreeBelow 64 (q ⊗ modulus)
    → coefficient n q ≡ quad_nil
leading n q small low =
    coefficient n q
    ≡⟨ sym (coefficient_top n q) ⟩ coefficient (n + 64) (x64 ⊗ q)
    ≡⟨ sym (add-nil {A = Quad Bool} _) ⟩ coefficient (n + 64) (x64 ⊗ q) ⊕ quad_nil
    ≡⟨ ap (λ t. coefficient (n + 64) (x64 ⊗ q) ⊕ t)
        (sym (
          coefficient_nil (n + 64) (mul-HasDegreeBelow small low_terms-HasDegreeBelow)
            (omega arith))) ⟩
      coefficient (n + 64) (x64 ⊗ q ⊕ q ⊗ low_terms)
    ≡⟨ ap (coefficient (n + 64)) (expand q) ⟩ coefficient (n + 64) (q ⊗ modulus)
    ≡⟨ coefficient_nil (n + 64) low (omega arith) ⟩ quad_nil ∎
  where
    expand : (q : Poly) → x64 ⊗ q ⊕ q ⊗ low_terms ≡ q ⊗ modulus
    expand q =
        unfold modulus norm in
        solve (q ∷ x64 ∷ low_terms ∷ []) (var 1 :* var 0 :+ var 0 :* var 2)
          (var 0 :* (var 1 :+ var 2)) refl

lower : (n : ℕ) (a : Bits) → IsBounded (suc n) a → a n ≡ false → IsBounded n a
lower n a b e i h = elim split [ inl p ↦ b i p | inr p ↦ rw p e ]
  where
    split : (suc n ≤ i) ⊎ (i ≡ n)
    split = omega arith

pub multiple-nil :
    (n : ℕ) (q : Poly) → HasDegreeBelow n q → HasDegreeBelow 64 (q ⊗ modulus) → q ≡ quad_nil
multiple-nil zero q small low =
    Quad-eq (fun_ext λ i. small.odd i (omega arith)) (fun_ext λ i. small.even i (omega arith))
multiple-nil (suc n) q small low =
    let top = leading n q small low in
    multiple-nil n q
      (record {
        odd = lower n q.odd small.odd (ap (λ t. t.odd) top);
        even = lower n q.even small.even (ap (λ t. t.even) top);
      })
      low
