-- ===== src/Algebra/Cube/Linear.antt =====
-- The transform is linear: a scaled sum goes to the scaled sum of the values.
use extension_field_pcg.Common.{ℕ, zero, suc, ◌≡◌, refl, sym, ap, ◌∙◌, [], ◌∷◌}
use extension_field_pcg.Algebra.{Ring2}
use extension_field_pcg.Algebra.Solver.{var, ◌:+◌, ◌:*◌, solve, norm}
use extension_field_pcg.Algebra.Cube.{
  Cube, Triple, Triple-eq, cube_ring, constant_cube, map_triple, evaluate3, evaluate,
}

module _ {ℓ} {A : Type ℓ} (r : Ring2 A) where
  -- x + d y, componentwise.
  abbrev pub scaled_sum : (k : ℕ) → A → Cube A k → Cube A k → Cube A k
  scaled_sum k d x y = let c = cube_ring r k in c.add x (c.mul (constant_cube d k) y)

  abbrev thirds : (k : ℕ) → A → Triple (Cube A k) → Triple (Cube A k) → Triple (Cube A k)
  thirds k d x y = record {
    left = scaled_sum k d x.left y.left;
    middle = scaled_sum k d x.middle y.middle;
    right = scaled_sum k d x.right y.right;
  }

  evaluate3-linear :
      (k : ℕ) (w : Cube A k) (d : A) (x y : Triple (Cube A k))
      → evaluate3 ⦃r = cube_ring r k⦄ w (thirds k d x y)
        ≡ thirds k d (evaluate3 ⦃r = cube_ring r k⦄ w x) (evaluate3 ⦃r = cube_ring r k⦄ w y)
  unfolding norm
  evaluate3-linear k w d x y =
      let env =
        x.left ∷ x.middle ∷ x.right ∷ y.left ∷ y.middle ∷ y.right ∷ w ∷ constant_cube d k ∷ [] in
      let l = var 0 :+ var 7 :* var 3 in
      let m = var 1 :+ var 7 :* var 4 in
      let s = var 2 :+ var 7 :* var 5 in
      Triple-eq
        (solve ⦃r = cube_ring r k⦄ env (l :+ m :+ s)
          (var 0 :+ var 1 :+ var 2 :+ var 7 :* (var 3 :+ var 4 :+ var 5)) refl)
        (solve ⦃r = cube_ring r k⦄ env (l :+ s :+ var 6 :* (m :+ s))
          (var 0
            :+ var 2
            :+ var 6 :* (var 1 :+ var 2)
            :+ var 7 :* (var 3 :+ var 5 :+ var 6 :* (var 4 :+ var 5)))
          refl)
        (solve ⦃r = cube_ring r k⦄ env (l :+ m :+ var 6 :* (m :+ s))
          (var 0
            :+ var 1
            :+ var 6 :* (var 1 :+ var 2)
            :+ var 7 :* (var 3 :+ var 4 :+ var 6 :* (var 4 :+ var 5)))
          refl)

  pub evaluate-scaled_sum :
      (w : A) (k : ℕ) (d : A) (x y : Cube A k)
      → evaluate r w k (scaled_sum k d x y) ≡ scaled_sum k d (evaluate r w k x) (evaluate r w k y)
  evaluate-scaled_sum w zero d x y = refl
  evaluate-scaled_sum w (suc k) d x y =
      ap (evaluate3 ⦃r = cube_ring r k⦄ (constant_cube w k)) (
        Triple-eq (evaluate-scaled_sum w k d x.left y.left)
          (evaluate-scaled_sum w k d x.middle y.middle) (evaluate-scaled_sum w k d x.right y.right))
      ∙ evaluate3-linear k (constant_cube w k) d (map_triple (evaluate r w k) x)
          (map_triple (evaluate r w k) y)

  constant-one : (k : ℕ) → constant_cube r.one k ≡ (cube_ring r k).one
  constant-one zero = refl
  constant-one (suc k) = Triple-eq (constant-one k) (constant-one k) (constant-one k)

  scaled_sum-one : (k : ℕ) (x y : Cube A k) → scaled_sum k r.one x y ≡ (cube_ring r k).add x y
  scaled_sum-one k x y =
      ap ((cube_ring r k).add x)
        (ap (λ t. (cube_ring r k).mul t y) (constant-one k) ∙ (cube_ring r k).one-mul y)

  pub evaluate-add :
      (w : A) (k : ℕ) (x y : Cube A k)
      → evaluate r w k ((cube_ring r k).add x y)
        ≡ (cube_ring r k).add (evaluate r w k x) (evaluate r w k y)
  evaluate-add w k x y =
      ap (evaluate r w k) (sym (scaled_sum-one k x y))
      ∙ evaluate-scaled_sum w k r.one x y
      ∙ scaled_sum-one k (evaluate r w k x) (evaluate r w k y)

  pub evaluate-nil : (w : A) (k : ℕ) → evaluate r w k (cube_ring r k).nil ≡ (cube_ring r k).nil
  evaluate-nil w k =
      let c = cube_ring r k in
      ap (evaluate r w k) (sym (c.nil-add c.nil)) ∙ evaluate-add w k c.nil c.nil ∙ c.add_self _
