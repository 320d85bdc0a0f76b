-- ===== src/F4/Poly.antt =====
-- Polynomials over F4, by the coefficients of their two parts, and the one that a block stands for.
use extension_field_pcg.Common.{ℕ, suc, ltb-false, ◌+◌, ◌-◌, ◌≤◌, ◌≡◌, refl, sym, ap, ap₂, ◌∙◌}
use extension_field_pcg.Common.{false, ◌&&◌, ltb, and-false, fun_ext, arith, [], ◌∷◌}
use extension_field_pcg.Algebra.{◌⊕◌, ◌⊗◌}
use extension_field_pcg.Algebra.Series.{series, IsBounded, cauchy-IsBounded, none_of}
use extension_field_pcg.Algebra.Quad.{Quad, Quad-eq, quad, mul_odd, mul_even}
use extension_field_pcg.Algebra.Solver.{var, nil, ◌:*◌, solve, norm}
use extension_field_pcg.Word.{f2, Bits, extract_low, extract_high}
use extension_field_pcg.Word.Halves.{power64, split_word, extract_low-add, extract_low_idem}
use extension_field_pcg.Word.Halves.{extract_low_whole, extract_low_above, extract_high_above}
use extension_field_pcg.F4.Defs.{interleave, odd_bit_extraction, even_bit_extraction}
use extension_field_pcg.Word.Lanes.{twice}
use extension_field_pcg.F4.Lanes.{odd_bit_extraction_lem, even_bit_extraction_lem}
use extension_field_pcg.F4.Interleave.{
  odd_bit_extraction-interleave, even_bit_extraction-interleave,
}

abbrev pub Poly : Type 0
Poly = Quad Bits

-- The polynomial that a block stands for.
abbrev pub lanes : Bits → Poly
lanes x = record { odd = odd_bit_extraction x; even = even_bit_extraction x }

abbrev pub low_part : Poly → Poly
low_part p = record { odd = extract_low p.odd; even = extract_low p.even }

abbrev pub high_part : Poly → Poly
high_part p = record { odd = extract_high p.odd; even = extract_high p.even }

-- x^64
abbrev pub x64 : Poly
x64 = record { odd = power64; even = none_of }

-- Both parts have degree below n.
pub record HasDegreeBelow (n : ℕ) (p : Poly) : Type 0 where
  pub odd : IsBounded n p.odd
  pub even : IsBounded n p.even

pub lanes-interleave :
    (a b : Bits) → lanes (interleave a b) ≡ low_part (record { odd = a; even = b })
unfolding extract_low
lanes-interleave a b =
    Quad-eq (fun_ext (odd_bit_extraction-interleave a b))
      (fun_ext (even_bit_extraction-interleave a b))

pub low_part-HasDegreeBelow : (p : Poly) → HasDegreeBelow 64 (low_part p)
low_part-HasDegreeBelow p = record {
  odd = λ i h. extract_low_above p.odd i h;
  even = λ i h. extract_low_above p.even i h;
}

pub lanes-HasDegreeBelow : (x : Bits) → HasDegreeBelow 64 (lanes x)
lanes-HasDegreeBelow x = record {
  odd = λ i h. odd_bit_extraction_lem x i ∙ ap (λ b. b && x (twice i)) (ltb-false i 64 h);
  even = λ i h. even_bit_extraction_lem x i ∙ ap (λ b. b && x (suc (twice i))) (ltb-false i 64 h);
}

pub high_part-HasDegreeBelow : (p : Poly) → HasDegreeBelow 64 (high_part p)
high_part-HasDegreeBelow p = record {
  odd = λ i h. extract_high_above p.odd i h;
  even = λ i h. extract_high_above p.even i h;
}

extract_high-IsBounded : (n : ℕ) (x : Bits) → IsBounded (n + 64) x → IsBounded n (extract_high x)
unfolding extract_high
extract_high-IsBounded n x b i h = ap (λ t. ltb i 64 && t) (b (i + 64) (omega arith)) ∙ and-false _

pub high_part_small :
    {n : ℕ} {p : Poly} → HasDegreeBelow (n + 64) p → HasDegreeBelow n (high_part p)
high_part_small {n} {p} b = record {
  odd = extract_high-IsBounded n p.odd b.odd;
  even = extract_high-IsBounded n p.even b.even;
}

pub low_part-add : (p q : Poly) → low_part (p ⊕ q) ≡ low_part p ⊕ low_part q
low_part-add p q = Quad-eq (extract_low-add p.odd q.odd) (extract_low-add p.even q.even)

pub low_part_idem : (p : Poly) → low_part (low_part p) ≡ low_part p
low_part_idem p = Quad-eq (extract_low_idem p.odd) (extract_low_idem p.even)

pub low_part_whole : (p : Poly) → HasDegreeBelow 64 p → low_part p ≡ p
low_part_whole p b = Quad-eq (extract_low_whole p.odd b.odd) (extract_low_whole p.even b.even)

pub x64-mul : (p : Poly) → x64 ⊗ p ≡ record { odd = power64 ⊗ p.odd; even = power64 ⊗ p.even }
unfolding norm
x64-mul p =
    let env = power64 ∷ p.odd ∷ p.even ∷ [] in
    Quad-eq (solve env (mul_odd (var 0) nil (var 1) (var 2)) (var 0 :* var 1) refl)
      (solve env (mul_even (var 0) nil (var 1) (var 2)) (var 0 :* var 2) refl)

pub split : (p : Poly) → HasDegreeBelow 128 p → p ≡ low_part p ⊕ x64 ⊗ high_part p
split p b =
    Quad-eq (split_word p.odd b.odd) (split_word p.even b.even)
    ∙ ap (λ t. low_part p ⊕ t) (sym (x64-mul (high_part p)))

nil_add_nil : (a b : Bits) {i : ℕ} → a i ≡ false → b i ≡ false → (a ⊕ b) i ≡ false
nil_add_nil a b p q = ap₂ f2.add p q ∙ f2.nil-add false

pub HasDegreeBelow-weaken :
    {n : ℕ} {p : Poly} (m : ℕ) → HasDegreeBelow n p → n ≤ m → HasDegreeBelow m p
HasDegreeBelow-weaken m b h = record {
  odd = λ i l. b.odd i (omega arith);
  even = λ i l. b.even i (omega arith);
}

pub add-HasDegreeBelow :
    {n : ℕ} {p q : Poly} → HasDegreeBelow n p → HasDegreeBelow n q → HasDegreeBelow n (p ⊕ q)
add-HasDegreeBelow {p} {q} hp hq = record {
  odd = λ i h. nil_add_nil p.odd q.odd (hp.odd i h) (hq.odd i h);
  even = λ i h. nil_add_nil p.even q.even (hp.even i h) (hq.even i h);
}

pub mul-HasDegreeBelow :
    {n m : ℕ} {p q : Poly}
    → HasDegreeBelow n p
    → HasDegreeBelow m q
    → HasDegreeBelow (n + m - 1) (p ⊗ q)
mul-HasDegreeBelow {n} {m} {p} {q} hp hq = record {
  odd = λ i h.
      nil_add_nil (p.odd ⊗ q.odd) (p.even ⊗ q.even)
        (cauchy-IsBounded i n m p.odd q.odd hp.odd hq.odd (omega arith))
        (cauchy-IsBounded i n m p.even q.even hp.even hq.even (omega arith));
  even = λ i h.
      nil_add_nil (p.odd ⊗ q.even ⊕ p.even ⊗ q.odd) (p.even ⊗ q.even)
        (nil_add_nil (p.odd ⊗ q.even) (p.even ⊗ q.odd)
          (cauchy-IsBounded i n m p.odd q.even hp.odd hq.even (omega arith))
          (cauchy-IsBounded i n m p.even q.odd hp.even hq.odd (omega arith)))
        (cauchy-IsBounded i n m p.even q.even hp.even hq.even (omega arith));
}
