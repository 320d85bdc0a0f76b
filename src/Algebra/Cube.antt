-- ===== src/Algebra/Cube.antt =====
-- Arrays of 3^k elements as k-fold nested triples, with the pointwise ring, and the transform of
-- order three: evaluation at 1, w and w^2 for a root w of w^2 + w + 1.
pub mod Inverse
pub mod Linear
pub mod Character
use extension_field_pcg.Common.{ℕ, zero, suc, ◌≡◌, refl, sym, ap, ap₂, ◌∙◌, [], ◌∷◌}
use extension_field_pcg.Algebra.{Ring2, ◌⊕◌, ◌⊗◌}
use extension_field_pcg.Algebra.Solver.{Expr, var, ◌:+◌, ◌:*◌, solve, norm}

pub record Triple {ℓ} (A : Type ℓ) : Type ℓ where
  pub left : A
  pub middle : A
  pub right : A

abbrev pub Cube {ℓ} : Type ℓ → ℕ → Type ℓ
Cube A zero = A
Cube A (suc k) = Triple (Cube A k)

module _ {ℓ} {A : Type ℓ} where
  pub Triple-eq :
      {x y : Triple A} → x.left ≡ y.left → x.middle ≡ y.middle → x.right ≡ y.right → x ≡ y
  Triple-eq p q s i = record { left = p i; middle = q i; right = s i }

  abbrev pub map_triple : (A → A) → Triple A → Triple A
  map_triple f t = record { left = f t.left; middle = f t.middle; right = f t.right }

  abbrev pub zip_triple : (A → A → A) → Triple A → Triple A → Triple A
  zip_triple f s t = record {
    left = f s.left t.left;
    middle = f s.middle t.middle;
    right = f s.right t.right;
  }

  abbrev pub all_three : A → Triple A
  all_three x = record { left = x; middle = x; right = x }

abbrev pub triple_ring {ℓ} : {A : Type ℓ} → Ring2 A → Ring2 (Triple A)
triple_ring r = record {
  nil = all_three r.nil;
  one = all_three r.one;
  add = zip_triple r.add;
  mul = zip_triple r.mul;
  add_assoc = λ a b c. Triple-eq (r.add_assoc _ _ _) (r.add_assoc _ _ _) (r.add_assoc _ _ _);
  add_comm = λ a b. Triple-eq (r.add_comm _ _) (r.add_comm _ _) (r.add_comm _ _);
  nil-add = λ a. Triple-eq (r.nil-add _) (r.nil-add _) (r.nil-add _);
  add_self = λ a. Triple-eq (r.add_self _) (r.add_self _) (r.add_self _);
  mul_assoc = λ a b c. Triple-eq (r.mul_assoc _ _ _) (r.mul_assoc _ _ _) (r.mul_assoc _ _ _);
  mul_comm = λ a b. Triple-eq (r.mul_comm _ _) (r.mul_comm _ _) (r.mul_comm _ _);
  one-mul = λ a. Triple-eq (r.one-mul _) (r.one-mul _) (r.one-mul _);
  mul-add = λ a b c. Triple-eq (r.mul-add _ _ _) (r.mul-add _ _ _) (r.mul-add _ _ _);
}

-- The pointwise ring.
abbrev pub cube_ring {ℓ} : {A : Type ℓ} → Ring2 A → (k : ℕ) → Ring2 (Cube A k)
cube_ring r zero = r
cube_ring r (suc k) = triple_ring (cube_ring r k)

abbrev pub constant_cube {ℓ} : {A : Type ℓ} → A → (k : ℕ) → Cube A k
constant_cube x zero = x
constant_cube x (suc k) = all_three (constant_cube x k)

-- One step at each of three points, from the common term w (m + r).
module _ {ℓ} {A : Type ℓ} ⦃r : Ring2 A⦄ (w : A) where
  abbrev pub evaluate3 : Triple A → Triple A
  evaluate3 t = record {
    left = t.left ⊕ t.middle ⊕ t.right;
    middle = t.left ⊕ t.right ⊕ w ⊗ (t.middle ⊕ t.right);
    right = t.left ⊕ t.middle ⊕ w ⊗ (t.middle ⊕ t.right);
  }

  abbrev pub interpolate3 : Triple A → Triple A
  interpolate3 t = record {
    left = t.left ⊕ t.middle ⊕ t.right;
    middle = t.left ⊕ t.middle ⊕ w ⊗ (t.middle ⊕ t.right);
    right = t.left ⊕ t.right ⊕ w ⊗ (t.middle ⊕ t.right);
  }

  pub interpolate3-evaluate3 : (t : Triple A) → interpolate3 (evaluate3 t) ≡ t
  unfolding norm
  interpolate3-evaluate3 t =
      let env = t.left ∷ t.middle ∷ t.right ∷ w ∷ [] in
      let l = var 0 :+ var 1 :+ var 2 in
      let m = var 0 :+ var 2 :+ var 3 :* (var 1 :+ var 2) in
      let s = var 0 :+ var 1 :+ var 3 :* (var 1 :+ var 2) in
      Triple-eq (solve env (l :+ m :+ s) (var 0) refl)
        (solve env (l :+ m :+ var 3 :* (m :+ s)) (var 1) refl)
        (solve env (l :+ s :+ var 3 :* (m :+ s)) (var 2) refl)

  pub evaluate3-interpolate3 : (t : Triple A) → evaluate3 (interpolate3 t) ≡ t
  unfolding norm
  evaluate3-interpolate3 t =
      let env = t.left ∷ t.middle ∷ t.right ∷ w ∷ [] in
      let l = var 0 :+ var 1 :+ var 2 in
      let s = var 0 :+ var 2 :+ var 3 :* (var 1 :+ var 2) in
      let m = var 0 :+ var 1 :+ var 3 :* (var 1 :+ var 2) in
      Triple-eq (solve env (l :+ m :+ s) (var 0) refl)
        (solve env (l :+ s :+ var 3 :* (m :+ s)) (var 1) refl)
        (solve env (l :+ m :+ var 3 :* (m :+ s)) (var 2) refl)

-- The transforms of a k-fold cube: one step over the three transformed thirds.
module _ {ℓ} {A : Type ℓ} (r : Ring2 A) (w : A) where
  abbrev pub evaluate : (k : ℕ) → Cube A k → Cube A k
  evaluate zero x = x
  evaluate (suc k) t = evaluate3 ⦃r = cube_ring r k⦄ (constant_cube w k) (map_triple (evaluate k) t)

  abbrev pub interpolate : (k : ℕ) → Cube A k → Cube A k
  interpolate zero x = x
  interpolate (suc k) t =
      interpolate3 ⦃r = cube_ring r k⦄ (constant_cube w k) (map_triple (interpolate k) t)
