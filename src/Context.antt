-- ===== src/Context.antt =====
-- `GF128Array` of Coeff128.h: arrays of `size` elements of the field of 2^128 elements. The elements form
-- a ring of characteristic two, whose sum is `^` and whose product is the library's `gf128Mul`; `differ` is
-- the test `!=` on them. The loops write to a result that is passed in.
use extension_field_pcg.Common.{ℕ, zero, suc, Bool, true, false, if◌then◌else◌}
use extension_field_pcg.Loop.{update_all}
use extension_field_pcg.Algebra.{Ring2, ◌⊕◌, ◌⊗◌}

module _ {ℓ} {A : Type ℓ} ⦃r : Ring2 A⦄ where
  unfoldable pub array_plus : ℕ → (ℕ → A) → (ℕ → A) → (ℕ → A) → ℕ → A
  array_plus size ret lhs rhs = update_all (λ i old. lhs i ⊕ rhs i) size ret

  unfoldable pub array_minus : ℕ → (ℕ → A) → (ℕ → A) → (ℕ → A) → ℕ → A
  array_minus size ret lhs rhs = update_all (λ i old. lhs i ⊕ rhs i) size ret

  -- The product with one element.
  unfoldable pub array_mul : ℕ → (ℕ → A) → (ℕ → A) → A → ℕ → A
  array_mul size ret lhs rhs = update_all (λ i old. lhs i ⊗ rhs) size ret

  -- The product with the constant y.
  unfoldable pub array_mul_const : A → ℕ → (ℕ → A) → (ℕ → A) → ℕ → A
  array_mul_const y size ret x = update_all (λ i old. y ⊗ x i) size ret

  -- `eq` from index i on, which returns at the first difference.
  unfoldable pub array_eq : (A → A → Bool) → ℕ → ℕ → (ℕ → A) → (ℕ → A) → Bool
  array_eq differ zero i lhs rhs = true
  array_eq differ (suc left) i lhs rhs =
      let rest = array_eq differ left (suc i) lhs rhs in
      if differ (lhs i) (rhs i) then false else rest
