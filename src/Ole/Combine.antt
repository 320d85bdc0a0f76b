-- ===== src/Ole/Combine.antt =====
-- The parts of one entry's correctness: arithmetic on the numbers of pairs, the sums of `combine`, and
-- the final check.
use native.Mathlib.Nat.{
  pow-suc, mul_assoc, suc-mul, mul-le-mul_right, mul-add-div_right, mul-add-mod_self_right,
  mod-eq_of_lt, div-eq_of_lt, div-lt_iff_lt-mul, mod-lt,
}
use extension_field_pcg.Common.{
  ℕ, zero, suc, ◌+◌, ◌*◌, ◌/◌, ◌%◌, ◌^◌, ◌<◌, ◌≤◌, ◌≡◌, ◌≢◌, refl, sym, ap, ap₂, ◌∙◌, arith, [],
  ◌∷◌, Bool, true, false, first_or_later, subst, inl, inr, Option, none, some, if◌then◌else◌,
}
use mathlib.Core.Bool.{true≢false}
use extension_field_pcg.Loop.{loop, update_all, update_all_at}
use extension_field_pcg.IntLoop.{int_rounds_small}
use extension_field_pcg.Algebra.{◌⊕◌, ◌⊗◌}
use extension_field_pcg.Algebra.Solver.{var, ◌:*◌, solve, norm}
use extension_field_pcg.Algebra.Sum.{sum, sum_congr, sum-add, sum-pairs, sum-mul-sum, loop-sum_one}
use extension_field_pcg.F4.Ring.{Block, f4_ring}
use extension_field_pcg.Fft.{Store}
use extension_field_pcg.Ole.Run.{zeros, Entry, cross_products, combine, first_mismatch}

pub pow-add : (m n : ℕ) → 3 ^ (m + n) ≡ 3 ^ m * 3 ^ n
pow-add m zero = omega (arith, ap (λ x. 3 ^ x) {x = m + 0} {y = m} (omega arith))
pow-add m (suc n) =
    ap (λ x. 3 ^ x) {x = m + suc n} {y = suc (m + n)} (omega arith)
    ∙ pow-suc 3 (m + n)
    ∙ ap (λ x. x * 3) (pow-add m n)
    ∙ mul_assoc (3 ^ m) (3 ^ n) 3
    ∙ ap (λ x. 3 ^ m * x) (sym (pow-suc 3 n))

-- The quotient and the remainder of a pair's number.
pub pair_quotient : (c p q : ℕ) → q < c → (p * c + q) / c ≡ p
pair_quotient c p q l =
    mul-add-div_right (omega arith) p q ∙ ap (λ x. p + x) (div-eq_of_lt l) ∙ (omega arith)

pair_remainder : (c p q : ℕ) → q < c → (p * c + q) % c ≡ q
pair_remainder c p q l = mul-add-mod_self_right p c q ∙ mod-eq_of_lt l

-- Products of two sums, pair by pair.
pairs_of_products :
    (c : ℕ) (f g : Store) → sum (c * c) (λ j. f (j / c) ⊗ g (j % c)) ≡ sum c f ⊗ sum c g
pairs_of_products c f g =
    sum-pairs c c _
    ∙ sum_congr c _ _ (λ p h.
      sum_congr c _ _
        (λ q l. ap₂ (λ x y. f x ⊗ g y) (pair_quotient c p q l) (pair_remainder c p q l)))
    ∙ sym (sum-mul-sum c c f g)

-- When the terms' products are shared at index i, so is the product of the combinations.
pub combine_lem :
    (c : ℕ) (a a_cross cross0 cross1 s0 s1 : ℕ → Store) (i : ℕ)
    → ((j : ℕ) → j < c * c → a_cross j i ≡ a (j / c) i ⊗ a (j % c) i)
    → ((j : ℕ) → j < c * c → cross0 j i ⊕ cross1 j i ≡ s0 (j / c) i ⊗ s1 (j % c) i)
    → (combine c a a_cross cross0 s0 i).additive ⊕ (combine c a a_cross cross1 s1 i).additive
      ≡ (combine c a a_cross cross0 s0 i).ole ⊗ (combine c a a_cross cross1 s1 i).ole
unfolding combine norm
combine_lem c a a_cross cross0 cross1 s0 s1 i h k =
    ap₂ ◌⊕◌ (additive_sum cross0) (additive_sum cross1)
    ∙ sym (sum-add (c * c) _ _)
    ∙ sum_congr (c * c) _ _ (λ j l.
      sym (f4_ring.mul-add (a_cross j i) (cross0 j i) (cross1 j i))
      ∙ ap₂ ◌⊗◌ (h j l) (k j l)
      ∙ solve (a (j / c) i ∷ a (j % c) i ∷ s0 (j / c) i ∷ s1 (j % c) i ∷ [])
          (var 0 :* var 1 :* (var 2 :* var 3)) (var 0 :* var 2 :* (var 1 :* var 3)) refl)
    ∙ pairs_of_products c (λ p. a p i ⊗ s0 p i) (λ q. a q i ⊗ s1 q i)
    ∙ sym (ap₂ ◌⊗◌ (ole_sum s0) (ole_sum s1))
  where
    additive_sum :
        (cross : ℕ → Store)
        → loop (λ j total. a_cross j i ⊗ cross j i ⊕ total) (c * c) 0 f4_ring.nil
          ≡ sum (c * c) (λ j. a_cross j i ⊗ cross j i)
    additive_sum cross =
        loop-sum_one _ (λ j. a_cross j i ⊗ cross j i) (c * c) f4_ring.nil
          (λ j t l. f4_ring.add_comm (a_cross j i ⊗ cross j i) t)
        ∙ f4_ring.nil-add _

    ole_sum :
        (s : ℕ → Store)
        → loop (λ j total. total ⊕ a j i ⊗ s j i) c 0 f4_ring.nil ≡ sum c (λ j. a j i ⊗ s j i)
    ole_sum s =
        loop-sum_one _ (λ j. a j i ⊗ s j i) c f4_ring.nil (λ j t l. refl) ∙ f4_ring.nil-add _

pub row-lt : (c j : ℕ) → j < c * c → j / c < c
row-lt zero j h = absurd (omega arith)
row-lt (suc m) j h = (div-lt_iff_lt-mul {k = suc m} {x = j} {y = suc m} (omega arith)).1 h

pub column-lt : (c j : ℕ) → j < c * c → j % c < c
column-lt zero j h = absurd (omega arith)
column-lt (suc m) j h = mod-lt j (omega arith)

-- The place of a point below 3^depth.
pub place-lt : (b d i p : ℕ) → i < 3 ^ b → p < 3 ^ d → p + i * 3 ^ d < 3 ^ (b + d)
place-lt b d i p h l =
    let up : suc i * 3 ^ d ≤ 3 ^ b * 3 ^ d = mul-le-mul_right (3 ^ d) h in
    omega (arith, pow-add b d, suc-mul i (3 ^ d), up)

pub cross_products_at :
    (a : ℕ → Store) (c length j i : ℕ)
    → c * c < 2 ^ 31
    → j < c * c
    → i < length
    → cross_products a c length j i ≡ a (j / c) i ⊗ a (j % c) i
unfolding cross_products
cross_products_at a c length j i fits h l =
    ap
      (λ n.
        update_all (λ i row. update_all (λ j old. a (i / c) j ⊗ a (i % c) j) length row) n
          (λ k. zeros) j i)
      (int_rounds_small (c * c) fits)
    ∙ ap (λ row. row i) (update_all_at _ (c * c) (λ k. zeros) j h)
    ∙ update_all_at _ length zeros i l

pub first_mismatch-none :
    (differ : Block → Block → Bool) (out0 out1 : ℕ → Entry) (n left i : ℕ)
    → ((x : Block) → differ x x ≡ false)
    → ((t : ℕ) → t < n → (out0 t).additive ⊕ (out1 t).additive ≡ (out0 t).ole ⊗ (out1 t).ole)
    → i + left ≡ n
    → first_mismatch differ out0 out1 left i ≡ none
unfolding first_mismatch
first_mismatch-none differ out0 out1 n zero i same h e = refl
first_mismatch-none differ out0 out1 n (suc left) i same h e =
    let exp = (out0 i).ole ⊗ (out1 i).ole in
    let rest = first_mismatch differ out0 out1 left (suc i) in
    ap (λ act. if differ exp act then some i else rest) (h i (omega arith))
    ∙ ap (λ t. if t then some i else rest) (same exp)
    ∙ first_mismatch-none differ out0 out1 n left (suc i) same h (omega arith)

some≢none : {x : ℕ} → some x ≢ none
some≢none {x} e = true≢false (ap is_some e)
  where
    is_some : Option ℕ → Bool
    is_some none = false
    is_some (some y) = true

-- A mismatch is found, wherever it is.
pub first_mismatch-found :
    (differ : Block → Block → Bool) (out0 out1 : ℕ → Entry) (left i t : ℕ)
    → i ≤ t
    → t < i + left
    → differ ((out0 t).ole ⊗ (out1 t).ole) ((out0 t).additive ⊕ (out1 t).additive) ≡ true
    → first_mismatch differ out0 out1 left i ≢ none
unfolding first_mismatch
first_mismatch-found differ out0 out1 zero i t h l d = absurd (omega arith)
first_mismatch-found differ out0 out1 (suc left) i t h l d = elim (first_or_later i t h) [
  | inl e ↦ λ q. some≢none (
      sym (
        ap (λ b. if b then some i else first_mismatch differ out0 out1 left (suc i))
          (subst
            (λ j.
              differ ((out0 j).ole ⊗ (out1 j).ole) ((out0 j).additive ⊕ (out1 j).additive) ≡ true)
            e d))
      ∙ q)
  | inr later ↦ λ q.
      first_mismatch-found differ out0 out1 left (suc i) t later (omega arith) d
        (skipped (differ ((out0 i).ole ⊗ (out1 i).ole) ((out0 i).additive ⊕ (out1 i).additive)) _ q)
]
  where
    skipped : (b : Bool) (rest : Option ℕ) → (if b then some i else rest) ≡ none → rest ≡ none
    skipped true rest q = absurd (some≢none q)
    skipped false rest q = q
