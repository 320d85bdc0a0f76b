-- ===== src/F4/Reduce.antt =====
-- `F4_reduce` of F4.h against the modulus x^64 + α x^3 + α x + 1.
use extension_field_pcg.Common.{ℕ, ◌≤◌, ◌<◌, ◌≡◌, refl, sym, ap, ap₂, ◌∙◌, ◌≡⟨◌⟩◌, ◌∎}
use extension_field_pcg.Common.{false, ◌&&◌, ltb, and-false, arith, [], ◌∷◌}
use extension_field_pcg.Algebra.{◌⊕◌, ◌⊗◌}
use extension_field_pcg.Algebra.Series.{series}
use extension_field_pcg.Algebra.Quad.{quad}
use extension_field_pcg.Algebra.Solver.{var, ◌:+◌, ◌:*◌, solve, norm}
use extension_field_pcg.Word.{f2, of_ℕ, extract_low, extract_high, clmulepi64}
use extension_field_pcg.Word.Halves.{of_ℕ-lt, extract_low-block, extract_high-block}
use extension_field_pcg.F4.Defs.{modulus_low_terms, f4_reduce}
use extension_field_pcg.F4.Poly.{Poly, lanes, low_part, high_part, x64, HasDegreeBelow, split}
use extension_field_pcg.F4.Poly.{lanes-interleave, low_part-add, low_part_idem, low_part_whole}
use extension_field_pcg.F4.Poly.{
  mul-HasDegreeBelow, high_part-HasDegreeBelow, HasDegreeBelow-weaken, high_part_small,
}

-- 1 + α (x^3 + x)
abbrev pub low_terms : Poly
low_terms = record { odd = extract_low modulus_low_terms; even = extract_high modulus_low_terms }

unfoldable pub modulus : Poly
modulus = x64 ⊕ low_terms

constant_bounded : (n i : ℕ) → n < 16 → 4 ≤ i → extract_low (of_ℕ n) i ≡ false
unfolding extract_low
constant_bounded n i h l = ap (λ b. ltb i 64 && b) (of_ℕ-lt i n 4 h l) ∙ and-false _

pub low_terms-HasDegreeBelow : HasDegreeBelow 4 low_terms
low_terms-HasDegreeBelow = record {
  odd = λ i h.
      ap (λ w. w i) (extract_low-block (of_ℕ 0b1010) (of_ℕ 0b1))
      ∙ constant_bounded 0b1 i (omega arith) h;
  even = λ i h.
      ap (λ w. w i) (extract_high-block (of_ℕ 0b1010) (of_ℕ 0b1))
      ∙ constant_bounded 0b1010 i (omega arith) h;
}

module _ (p : Poly) where
  -- The products of the first round, and of the second.
  abbrev pub first_round : Poly
  first_round = high_part p ⊗ low_terms

  abbrev pub second_round : Poly
  second_round = high_part first_round ⊗ low_terms

  pub lanes-f4_reduce : lanes (f4_reduce p.odd p.even) ≡ low_part (p ⊕ second_round ⊕ first_round)
  unfolding f4_reduce clmulepi64
  lanes-f4_reduce = lanes-interleave _ _ ∙ low_part_idem (p ⊕ second_round ⊕ first_round)

  pub first_round-HasDegreeBelow : HasDegreeBelow 67 first_round
  first_round-HasDegreeBelow =
      mul-HasDegreeBelow (high_part-HasDegreeBelow p) low_terms-HasDegreeBelow

  second_round-HasDegreeBelow : HasDegreeBelow 64 second_round
  second_round-HasDegreeBelow =
      HasDegreeBelow-weaken {n = 6} 64
        (mul-HasDegreeBelow (high_part_small {n = 3} first_round-HasDegreeBelow)
          low_terms-HasDegreeBelow)
        (omega arith)

  first_round_split : low_part first_round ≡ first_round ⊕ x64 ⊗ high_part first_round
  unfolding norm
  first_round_split =
      solve (low_part first_round ∷ x64 ∷ high_part first_round ∷ []) (var 0)
        (var 0 :+ var 1 :* var 2 :+ var 1 :* var 2) refl
      ∙ ap (λ t. t ⊕ x64 ⊗ high_part first_round)
          (sym (
            split first_round (HasDegreeBelow-weaken 128 first_round-HasDegreeBelow (omega arith))))

  module _ (small : HasDegreeBelow 128 p) where
    -- Reduction changes a polynomial of degree below 128 by a multiple of the modulus.
    pub f4_reduce-modulus :
        lanes (f4_reduce p.odd p.even) ⊕ p ≡ (high_part p ⊕ high_part first_round) ⊗ modulus
    unfolding modulus norm
    f4_reduce-modulus =
        lanes (f4_reduce p.odd p.even) ⊕ p
        ≡⟨ ap (λ t. t ⊕ p)
            (lanes-f4_reduce
              ∙ low_part-add (p ⊕ second_round) first_round
              ∙ ap (λ t. t ⊕ low_part first_round)
                  (low_part-add p second_round
                    ∙ ap (λ t. low_part p ⊕ t)
                        (low_part_whole second_round second_round-HasDegreeBelow))) ⟩
          low_part p ⊕ second_round ⊕ low_part first_round ⊕ p
        ≡⟨ ap₂ (λ s t. low_part p ⊕ second_round ⊕ s ⊕ t) first_round_split (split p small) ⟩
          low_part p
          ⊕ second_round
          ⊕ (first_round ⊕ x64 ⊗ high_part first_round)
          ⊕ (low_part p ⊕ x64 ⊗ high_part p)
        ≡⟨ solve (low_part p ∷ high_part p ∷ low_terms ∷ x64 ∷ high_part first_round ∷ [])
            (var 0
              :+ var 4 :* var 2
              :+ (var 1 :* var 2 :+ var 3 :* var 4)
              :+ (var 0 :+ var 3 :* var 1))
            ((var 1 :+ var 4) :* (var 3 :+ var 2)) refl ⟩
          (high_part p ⊕ high_part first_round) ⊗ modulus ∎
