-- ===== src/Algebra/Quad.antt =====
-- A ring with an element α adjoined, α^2 = α + 1: the shape of F4 over F2, and of the polynomials
-- over F4 over those over F2. The fields are named as F4.h names the two halves of a block.
use extension_field_pcg.Common.{◌≡◌, refl, [], ◌∷◌}
use extension_field_pcg.Algebra.{Ring2, ◌⊕◌, ◌⊗◌}
use extension_field_pcg.Algebra.Solver.{Expr, var, ◌:+◌, ◌:*◌, solve, norm}
use extension_field_pcg.Algebra.Solver.{one, nil}

-- odd + α even
pub record Quad {ℓ} (A : Type ℓ) : Type ℓ where
  pub odd : A
  pub even : A

module _ {ℓ} {A : Type ℓ} where
  pub Quad-eq : {x y : Quad A} → x.odd ≡ y.odd → x.even ≡ y.even → x ≡ y
  Quad-eq p q i = record { odd = p i; even = q i }

-- Multiplication, on expressions: what the solver is given below.
abbrev pub mul_odd : Expr → Expr → Expr → Expr → Expr
mul_odd a b c d = a :* c :+ b :* d

abbrev pub mul_even : Expr → Expr → Expr → Expr → Expr
mul_even a b c d = a :* d :+ b :* c :+ b :* d

module _ {ℓ} {A : Type ℓ} ⦃r : Ring2 A⦄ where
  abbrev pub quad_add : Quad A → Quad A → Quad A
  quad_add x y = record { odd = x.odd ⊕ y.odd; even = x.even ⊕ y.even }

  abbrev pub quad_mul : Quad A → Quad A → Quad A
  quad_mul x y = record {
    odd = x.odd ⊗ y.odd ⊕ x.even ⊗ y.even;
    even = x.odd ⊗ y.even ⊕ x.even ⊗ y.odd ⊕ x.even ⊗ y.even;
  }

  abbrev pub quad_nil : Quad A
  quad_nil = record { odd = r.nil; even = r.nil }

  abbrev pub quad_one : Quad A
  quad_one = record { odd = r.one; even = r.nil }

  pub quad_mul_comm : (x y : Quad A) → quad_mul x y ≡ quad_mul y x
  unfolding norm
  quad_mul_comm x y =
      let env = x.odd ∷ x.even ∷ y.odd ∷ y.even ∷ [] in
      Quad-eq
        (solve env (mul_odd (var 0) (var 1) (var 2) (var 3))
          (mul_odd (var 2) (var 3) (var 0) (var 1)) refl)
        (solve env (mul_even (var 0) (var 1) (var 2) (var 3))
          (mul_even (var 2) (var 3) (var 0) (var 1)) refl)

  pub quad_mul-add :
      (x y z : Quad A) → quad_mul x (quad_add y z) ≡ quad_add (quad_mul x y) (quad_mul x z)
  unfolding norm
  quad_mul-add x y z =
      let env = x.odd ∷ x.even ∷ y.odd ∷ y.even ∷ z.odd ∷ z.even ∷ [] in
      let a = var 0 in
      let b = var 1 in
      let c = var 2 in
      let d = var 3 in
      let e = var 4 in
      let f = var 5 in
      Quad-eq (solve env (mul_odd a b (c :+ e) (d :+ f)) (mul_odd a b c d :+ mul_odd a b e f) refl)
        (solve env (mul_even a b (c :+ e) (d :+ f)) (mul_even a b c d :+ mul_even a b e f) refl)

  pub quad_mul_assoc : (x y z : Quad A) → quad_mul (quad_mul x y) z ≡ quad_mul x (quad_mul y z)
  unfolding norm
  quad_mul_assoc x y z =
      let env = x.odd ∷ x.even ∷ y.odd ∷ y.even ∷ z.odd ∷ z.even ∷ [] in
      let a = var 0 in
      let b = var 1 in
      let c = var 2 in
      let d = var 3 in
      let e = var 4 in
      let f = var 5 in
      Quad-eq
        (solve env (mul_odd (mul_odd a b c d) (mul_even a b c d) e f)
          (mul_odd a b (mul_odd c d e f) (mul_even c d e f)) refl)
        (solve env (mul_even (mul_odd a b c d) (mul_even a b c d) e f)
          (mul_even a b (mul_odd c d e f) (mul_even c d e f)) refl)

  pub quad_one-mul : (x : Quad A) → quad_mul quad_one x ≡ x
  unfolding norm
  quad_one-mul x =
      let env = x.odd ∷ x.even ∷ [] in
      Quad-eq (solve env (mul_odd one nil (var 0) (var 1)) (var 0) refl)
        (solve env (mul_even one nil (var 0) (var 1)) (var 1) refl)

  instance abbrev pub quad : Ring2 (Quad A)
  quad = record {
    nil = quad_nil;
    one = quad_one;
    add = quad_add;
    mul = quad_mul;
    add_assoc = λ x y z. Quad-eq (r.add_assoc _ _ _) (r.add_assoc _ _ _);
    add_comm = λ x y. Quad-eq (r.add_comm _ _) (r.add_comm _ _);
    nil-add = λ x. Quad-eq (r.nil-add _) (r.nil-add _);
    add_self = λ x. Quad-eq (r.add_self _) (r.add_self _);
    mul_assoc = quad_mul_assoc;
    mul_comm = quad_mul_comm;
    one-mul = quad_one-mul;
    mul-add = quad_mul-add;
  }
