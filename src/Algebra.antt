-- ===== src/Algebra.antt =====
-- Commutative rings of characteristic two: what the proofs ask of the coefficients. The library's
-- coefficient contexts add by xor, so that minus is plus.
pub mod Solver
pub mod Series
pub mod Quad
pub mod Cube
pub mod Sum
pub mod Scatter
use mathlib.Core.Path.{◌≡◌, ◌∙◌}
use extension_field_pcg.Common.{refl, sym, ap}

pub record Ring2 {ℓ} (A : Type ℓ) : Type ℓ where
  pub nil : A
  pub one : A
  pub add : A → A → A
  pub mul : A → A → A
  pub add_self : (x : A) → add x x ≡ nil
  pub nil-add : (x : A) → add nil x ≡ x
  pub one-mul : (x : A) → mul one x ≡ x
  pub add_comm : (x y : A) → add x y ≡ add y x
  pub mul_comm : (x y : A) → mul x y ≡ mul y x
  pub add_assoc : (x y z : A) → add (add x y) z ≡ add x (add y z)
  pub mul-add : (x y z : A) → mul x (add y z) ≡ add (mul x y) (mul x z)
  pub mul_assoc : (x y z : A) → mul (mul x y) z ≡ mul x (mul y z)

infixl 65 ◌⊕◌
infixl 70 ◌⊗◌
abbrev pub ◌⊕◌ {ℓ} : {A : Type ℓ} ⦃r : Ring2 A⦄ → A → A → A
◌⊕◌ ⦃r⦄ a b = r.add a b

abbrev pub ◌⊗◌ {ℓ} : {A : Type ℓ} ⦃r : Ring2 A⦄ → A → A → A
◌⊗◌ ⦃r⦄ a b = r.mul a b

module _ {ℓ} {A : Type ℓ} ⦃r : Ring2 A⦄ where
  pub add-nil : (a : A) → a ⊕ r.nil ≡ a
  add-nil a = r.add_comm a r.nil ∙ r.nil-add a

  pub mul-one : (a : A) → a ⊗ r.one ≡ a
  mul-one a = r.mul_comm a r.one ∙ r.one-mul a

  pub add-mul : (a b c : A) → (a ⊕ b) ⊗ c ≡ a ⊗ c ⊕ b ⊗ c
  add-mul a b c = rw (r.mul_comm (a ⊕ b) c, r.mul_comm a c, r.mul_comm b c) (r.mul-add c a b)

  pub add_left_cancel_self : (a b : A) → a ⊕ (a ⊕ b) ≡ b
  add_left_cancel_self a b = sym (r.add_assoc a a b) ∙ rw (r.add_self a) (r.nil-add b)

  pub mul-nil : (a : A) → a ⊗ r.nil ≡ r.nil
  mul-nil a =
      ap (r.mul a) (sym (r.add_self r.nil)) ∙ r.mul-add a r.nil r.nil ∙ r.add_self (a ⊗ r.nil)

  pub nil-mul : (a : A) → r.nil ⊗ a ≡ r.nil
  nil-mul a = r.mul_comm r.nil a ∙ mul-nil a

  pub eq_of_add : (a b : A) → a ⊕ b ≡ r.nil → a ≡ b
  eq_of_add a b h = sym (add_left_cancel_self b a) ∙ ap (r.add b) (r.add_comm b a ∙ h) ∙ add-nil b
