-- ===== src/F4/Ring.antt =====
-- The 128-bit blocks with xor, `F4_mul` of F4.h and the block (0, 1).
use extension_field_pcg.Common.{
  ℕ, zero, suc, ◌-◌, ◌^◌, ◌<◌, and-false, ◌≤◌, ◌≡◌, refl, sym, ap, ap₂, ◌∙◌, false, fun_ext,
}
use extension_field_pcg.Common.{◌&&◌, ltb, lt→ltb, ltb-false, inl, inr, below_or_from, arith}
use mathlib.Core.HLevel.{Σ_prop_path}
use extension_field_pcg.Algebra.{Ring2, ◌⊕◌, ◌⊗◌}
use extension_field_pcg.Algebra.Series.{series}
use extension_field_pcg.Algebra.Quad.{quad, Quad-eq, quad_one}
use extension_field_pcg.Word.{f2, Bits, of_ℕ, block}
use extension_field_pcg.Word.Lanes.{twice}
use extension_field_pcg.Word.Halves.{of_ℕ-lt}
use extension_field_pcg.F4.Defs.{
  f4_mul, f4_reduce, interleave, odd_bit_extraction, even_bit_extraction,
}
use extension_field_pcg.F4.Lanes.{odd_bit_extraction_lem, even_bit_extraction_lem}
use extension_field_pcg.F4.Interleave.{interleave_outside, interleave-extraction}
use extension_field_pcg.F4.Poly.{Poly, lanes, lanes-HasDegreeBelow}
use extension_field_pcg.F4.Congruence.{Congruent, Congruent-mul, Congruent-add, Congruent-trans}
use extension_field_pcg.F4.Congruence.{Congruent-symm, Congruent-of_eq}
use extension_field_pcg.F4.Mul.{f4_mul-Congruent, f4_mul_unique}

-- 128 bits.
abbrev pub IsBlock : Bits → Type 0
IsBlock x = (i : ℕ) → 128 ≤ i → x i ≡ false

pub f4_mul-IsBlock : (x y : Bits) → IsBlock (f4_mul x y)
unfolding f4_mul f4_reduce
f4_mul-IsBlock x y i h = interleave_outside _ _ i h

pub xor-IsBlock : {x y : Bits} → IsBlock x → IsBlock y → IsBlock (x ⊕ y)
xor-IsBlock hx hy i h = ap₂ f2.add (hx i h) (hy i h) ∙ f2.nil-add false

-- A block is determined by its polynomial.
pub lanes_injective : {x y : Bits} → IsBlock x → IsBlock y → lanes x ≡ lanes y → x ≡ y
lanes_injective {x} {y} hx hy e =
    sym (interleave-extraction x hx)
    ∙ ap (λ (p : Poly). interleave p.odd p.even) e
    ∙ interleave-extraction y hy

pub lanes-xor : (x y : Bits) → lanes (x ⊕ y) ≡ lanes x ⊕ lanes y
lanes-xor x y =
    Quad-eq
      (fun_ext λ k.
        odd_bit_extraction_lem (x ⊕ y) k
        ∙ f2.mul-add (ltb k 64) (x (twice k)) (y (twice k))
        ∙ sym (ap₂ f2.add (odd_bit_extraction_lem x k) (odd_bit_extraction_lem y k)))
      (fun_ext λ k.
        even_bit_extraction_lem (x ⊕ y) k
        ∙ f2.mul-add (ltb k 64) (x (suc (twice k))) (y (suc (twice k)))
        ∙ sym (ap₂ f2.add (even_bit_extraction_lem x k) (even_bit_extraction_lem y k)))

-- Two products agree when their polynomials are congruent.
pub f4_mul-eq :
    (x y : Bits) {z : Bits} → IsBlock z → Congruent (lanes z) (lanes x ⊗ lanes y) → f4_mul x y ≡ z
f4_mul-eq x y {z} hz c =
    lanes_injective (f4_mul-IsBlock x y) hz (f4_mul_unique x y (lanes z) (lanes-HasDegreeBelow z) c)

-- `F4_mul` does not depend on the order of its operands.
pub f4_mul_comm : (x y : Bits) → f4_mul x y ≡ f4_mul y x
f4_mul_comm x y =
    f4_mul-eq x y (f4_mul-IsBlock y x)
      (Congruent-trans (f4_mul-Congruent y x) (Congruent-of_eq (quad.mul_comm (lanes y) (lanes x))))

-- `F4_mul` distributes over xor.
pub f4_mul-xor : (x y z : Bits) → f4_mul x (y ⊕ z) ≡ f4_mul x y ⊕ f4_mul x z
f4_mul-xor x y z = f4_mul-eq x (y ⊕ z) (xor-IsBlock (f4_mul-IsBlock x y) (f4_mul-IsBlock x z)) (
    Congruent-trans (Congruent-of_eq (lanes-xor (f4_mul x y) (f4_mul x z))) (
      Congruent-trans (Congruent-add (f4_mul-Congruent x y) (f4_mul-Congruent x z)) (
        Congruent-of_eq (
          sym (quad.mul-add (lanes x) (lanes y) (lanes z))
          ∙ ap (λ t. lanes x ⊗ t) (sym (lanes-xor y z))))))

-- `F4_mul` is associative.
pub f4_mul_assoc : (x y z : Bits) → f4_mul (f4_mul x y) z ≡ f4_mul x (f4_mul y z)
f4_mul_assoc x y z =
    f4_mul-eq (f4_mul x y) z (f4_mul-IsBlock x (f4_mul y z))
      (Congruent-trans (f4_mul-Congruent x (f4_mul y z)) (Congruent-symm left))
  where
    left : Congruent (lanes (f4_mul x y) ⊗ lanes z) (lanes x ⊗ lanes (f4_mul y z))
    left = Congruent-trans (Congruent-mul (lanes-HasDegreeBelow z) (f4_mul-Congruent x y)) (
        Congruent-trans
          (Congruent-of_eq (
            quad.mul_assoc (lanes x) (lanes y) (lanes z)
            ∙ quad.mul_comm (lanes x) (lanes y ⊗ lanes z)))
          (Congruent-trans
            (Congruent-mul (lanes-HasDegreeBelow x) (Congruent-symm (f4_mul-Congruent y z)))
            (Congruent-of_eq (quad.mul_comm (lanes (f4_mul y z)) (lanes x)))))

-- `block(0, 1)`
abbrev pub one_block : Bits
one_block = block (of_ℕ 0) (of_ℕ 1)

-- A constant of few bits, as a block.
abbrev pub small_block : ℕ → Bits
small_block n = block (of_ℕ 0) (of_ℕ n)

pub small_block_above : (n m i : ℕ) → n < 2 ^ m → m ≤ i → small_block n i ≡ false
unfolding block
small_block_above n m i small h = elim (below_or_from 64 i) [
  | inl l ↦ rw (lt→ltb i 64 l) (of_ℕ-lt i n m small h)
  | inr l ↦
      rw (ltb-false i 64 l)
        (ap (λ b. ltb i 128 && b) (of_ℕ-lt (i - 64) 0 0 (omega arith) (omega arith)) ∙ and-false _)
]

one_block_above : (i : ℕ) → 1 ≤ i → one_block i ≡ false
one_block_above i h = small_block_above 1 1 i (omega arith) h

pub lanes-one_block : lanes one_block ≡ quad_one
lanes-one_block = Quad-eq (fun_ext odd) (fun_ext even)
  where
    odd : (k : ℕ) → odd_bit_extraction one_block k ≡ (quad_one {A = Bits}).odd k
    odd zero = odd_bit_extraction_lem one_block 0 ∙ (unfold block of_ℕ in refl)
    odd (suc k) =
        odd_bit_extraction_lem one_block (suc k)
        ∙ ap (λ b. ltb (suc k) 64 && b) (one_block_above (twice (suc k)) (omega arith))
        ∙ and-false _

    even : (k : ℕ) → even_bit_extraction one_block k ≡ false
    even k =
        even_bit_extraction_lem one_block k
        ∙ ap (λ b. ltb k 64 && b) (one_block_above (suc (twice k)) (omega arith))
        ∙ and-false _

pub one_block-IsBlock : IsBlock one_block
one_block-IsBlock i h = one_block_above i (omega arith)

-- The block (0, 1) is neutral for `F4_mul`, on sequences that have no bit beyond the 128 of a block.
pub one_block-f4_mul : (x : Bits) → IsBlock x → f4_mul one_block x ≡ x
one_block-f4_mul x h =
    f4_mul-eq one_block x h
      (Congruent-of_eq (sym (ap (λ t. t ⊗ lanes x) lanes-one_block ∙ quad.one-mul (lanes x))))

-- The 128-bit blocks, as a type.
abbrev pub Block : Type 0
Block = (x : Bits) × IsBlock x

IsBlock-prop : (x : Bits) → IsProp (IsBlock x)
IsBlock-prop x = hlevel

pub Block-eq : {x y : Block} → x.0 ≡ y.0 → x ≡ y
Block-eq p = Σ_prop_path IsBlock-prop p

abbrev pub nil_block : Block
nil_block = (λ i. false, λ i h. refl)

-- Blocks under xor and `f4_mul` are a ring.
instance abbrev pub f4_ring : Ring2 Block
f4_ring = record {
  nil = nil_block;
  one = (one_block, one_block-IsBlock);
  add = λ x y. (x.0 ⊕ y.0, xor-IsBlock x.1 y.1);
  mul = λ x y. (f4_mul x.0 y.0, f4_mul-IsBlock x.0 y.0);
  add_assoc = λ x y z. Block-eq (series.add_assoc x.0 y.0 z.0);
  add_comm = λ x y. Block-eq (series.add_comm x.0 y.0);
  nil-add = λ x. Block-eq (series.nil-add x.0);
  add_self = λ x. Block-eq (series.add_self x.0);
  mul_assoc = λ x y z. Block-eq (f4_mul_assoc x.0 y.0 z.0);
  mul_comm = λ x y. Block-eq (f4_mul_comm x.0 y.0);
  one-mul = λ x. Block-eq (one_block-f4_mul x.0 x.1);
  mul-add = λ x y z. Block-eq (f4_mul-xor x.0 y.0 z.0);
}
