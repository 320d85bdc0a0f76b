-- ===== src/Algebra/Cube/Character.antt =====
-- The transform of an array with a single entry: its values are the entry times powers of the root,
-- by the digits of the place to the base 3.
use extension_field_pcg.Common.{ℕ, zero, suc, ◌+◌, ◌%◌, ◌<◌, ◌≡◌, refl, ap, ◌∙◌, [], ◌∷◌, arith}
use extension_field_pcg.Algebra.{Ring2, ◌⊕◌, ◌⊗◌, eq_of_add}
use extension_field_pcg.Algebra.Solver.{var, one, nil, ◌:+◌, ◌:*◌, solve, norm}
use extension_field_pcg.Algebra.Cube.{
  zip_triple, Triple, Triple-eq, cube_ring, constant_cube, evaluate3,
}

module _ {ℓ} {A : Type ℓ} ⦃r : Ring2 A⦄ (w : A) where
  -- The factors of a digit at the points w and w^2.
  abbrev pub at_root : ℕ → A
  at_root zero = r.one
  at_root (suc zero) = w
  at_root (suc (suc x)) = r.one ⊕ w

  abbrev pub at_square : ℕ → A
  at_square zero = r.one
  at_square (suc zero) = r.one ⊕ w
  at_square (suc (suc x)) = w

  -- An entry with leading digit x, and its values.
  abbrev pub place : ℕ → A → Triple A
  place zero c = record { left = c; middle = r.nil; right = r.nil }
  place (suc zero) c = record { left = r.nil; middle = c; right = r.nil }
  place (suc (suc x)) c = record { left = r.nil; middle = r.nil; right = c }

  abbrev pub character : ℕ → A → Triple A
  character x c = record { left = c; middle = at_root x ⊗ c; right = at_square x ⊗ c }

  pub evaluate3-place : (x : ℕ) (c : A) → evaluate3 w (place x c) ≡ character x c
  unfolding norm
  evaluate3-place zero c =
      let env = w ∷ c ∷ [] in
      Triple-eq (solve env (var 1 :+ nil :+ nil) (var 1) refl)
        (solve env (var 1 :+ nil :+ var 0 :* (nil :+ nil)) (one :* var 1) refl)
        (solve env (var 1 :+ nil :+ var 0 :* (nil :+ nil)) (one :* var 1) refl)
  evaluate3-place (suc zero) c =
      let env = w ∷ c ∷ [] in
      Triple-eq (solve env (nil :+ var 1 :+ nil) (var 1) refl)
        (solve env (nil :+ nil :+ var 0 :* (var 1 :+ nil)) (var 0 :* var 1) refl)
        (solve env (nil :+ var 1 :+ var 0 :* (var 1 :+ nil)) ((one :+ var 0) :* var 1) refl)
  evaluate3-place (suc (suc x)) c =
      let env = w ∷ c ∷ [] in
      Triple-eq (solve env (nil :+ nil :+ var 1) (var 1) refl)
        (solve env (nil :+ var 1 :+ var 0 :* (nil :+ var 1)) ((one :+ var 0) :* var 1) refl)
        (solve env (nil :+ nil :+ var 0 :* (nil :+ var 1)) (var 0 :* var 1) refl)

  module _ (root : w ⊗ w ⊕ w ⊕ r.one ≡ r.nil) where
    square : w ⊗ w ≡ r.one ⊕ w
    unfolding norm
    square = eq_of_add (w ⊗ w) (r.one ⊕ w) (
        solve (w ∷ []) (var 0 :* var 0 :+ (one :+ var 0)) (var 0 :* var 0 :+ var 0 :+ one) refl
        ∙ root)

    -- With e for w w, which is 1 + w.
    inverse : w ⊗ (r.one ⊕ w) ≡ r.one
    unfolding norm
    inverse =
        solve (w ∷ []) (var 0 :* (one :+ var 0)) (var 0 :+ var 0 :* var 0) refl
        ∙ ap (λ t. w ⊕ t) square
        ∙ solve (w ∷ []) (var 0 :+ (one :+ var 0)) one refl

    square' : (r.one ⊕ w) ⊗ (r.one ⊕ w) ≡ w
    unfolding norm
    square' =
        solve (w ∷ []) ((one :+ var 0) :* (one :+ var 0)) (one :+ var 0 :* var 0) refl
        ∙ ap (λ t. r.one ⊕ t) square
        ∙ solve (w ∷ []) (one :+ (one :+ var 0)) (var 0) refl

    mul-one' : (x : A) → x ⊗ r.one ≡ x
    mul-one' x = r.mul_comm x r.one ∙ r.one-mul x

    at_root-mul : (x y : ℕ) → x < 3 → y < 3 → at_root x ⊗ at_root y ≡ at_root ((x + y) % 3)
    at_root-mul zero zero h l = r.one-mul r.one
    at_root-mul zero (suc zero) h l = r.one-mul w
    at_root-mul zero (suc (suc zero)) h l = r.one-mul (r.one ⊕ w)
    at_root-mul (suc zero) zero h l = mul-one' w
    at_root-mul (suc zero) (suc zero) h l = square
    at_root-mul (suc zero) (suc (suc zero)) h l = inverse
    at_root-mul (suc (suc zero)) zero h l = mul-one' (r.one ⊕ w)
    at_root-mul (suc (suc zero)) (suc zero) h l = r.mul_comm (r.one ⊕ w) w ∙ inverse
    at_root-mul (suc (suc zero)) (suc (suc zero)) h l = square'
    at_root-mul (suc (suc (suc x))) y h l = absurd (omega arith)
    at_root-mul x (suc (suc (suc y))) h l = absurd (omega arith)

    at_square-mul : (x y : ℕ) → x < 3 → y < 3 → at_square x ⊗ at_square y ≡ at_square ((x + y) % 3)
    at_square-mul zero zero h l = r.one-mul r.one
    at_square-mul zero (suc zero) h l = r.one-mul (r.one ⊕ w)
    at_square-mul zero (suc (suc zero)) h l = r.one-mul w
    at_square-mul (suc zero) zero h l = mul-one' (r.one ⊕ w)
    at_square-mul (suc zero) (suc zero) h l = square'
    at_square-mul (suc zero) (suc (suc zero)) h l = r.mul_comm (r.one ⊕ w) w ∙ inverse
    at_square-mul (suc (suc zero)) zero h l = mul-one' w
    at_square-mul (suc (suc zero)) (suc zero) h l = inverse
    at_square-mul (suc (suc zero)) (suc (suc zero)) h l = square
    at_square-mul (suc (suc (suc x))) y h l = absurd (omega arith)
    at_square-mul x (suc (suc (suc y))) h l = absurd (omega arith)

    regroup : (a b x y : A) → (a ⊗ x) ⊗ (b ⊗ y) ≡ (a ⊗ b) ⊗ (x ⊗ y)
    unfolding norm
    regroup a b x y =
        solve (a ∷ b ∷ x ∷ y ∷ []) (var 0 :* var 2 :* (var 1 :* var 3))
          (var 0 :* var 1 :* (var 2 :* var 3)) refl

    -- The values of two entries multiply to those of the entry whose digit is the sum modulo 3.
    pub character-mul :
        (x y : ℕ) (c d : A)
        → x < 3
        → y < 3
        → zip_triple ◌⊗◌ (character x c) (character y d) ≡ character ((x + y) % 3) (c ⊗ d)
    character-mul x y c d h l =
        Triple-eq refl
          (regroup (at_root x) (at_root y) c d ∙ ap (λ t. t ⊗ (c ⊗ d)) (at_root-mul x y h l))
          (regroup (at_square x) (at_square y) c d ∙ ap (λ t. t ⊗ (c ⊗ d)) (at_square-mul x y h l))

-- The root, as a constant array.
pub constant_root {ℓ} :
    {A : Type ℓ} (r : Ring2 A) (w : A) (k : ℕ)
    → ◌⊕◌ ⦃r = r⦄ (◌⊕◌ ⦃r = r⦄ (◌⊗◌ ⦃r = r⦄ w w) w) r.one ≡ r.nil
    → let c = cube_ring r k in
      let v = constant_cube w k in c.add (c.add (c.mul v v) v) c.one ≡ c.nil
constant_root r w zero h = h
constant_root r w (suc k) h =
    Triple-eq (constant_root r w k h) (constant_root r w k h) (constant_root r w k h)
