-- ===== src/Algebra/Cube/Inverse.antt =====
-- The two transforms of a cube are inverse to each other, since each is linear.
use extension_field_pcg.Common.{ℕ, zero, suc, ◌≡◌, refl, ap, ◌∙◌, [], ◌∷◌}
use extension_field_pcg.Algebra.{Ring2, ◌⊕◌, ◌⊗◌}
use extension_field_pcg.Algebra.Solver.{var, ◌:+◌, ◌:*◌, solve, norm}
use extension_field_pcg.Algebra.Cube.{Triple, Triple-eq, Cube, map_triple, zip_triple, cube_ring}
use extension_field_pcg.Algebra.Cube.{constant_cube, evaluate3, interpolate3, evaluate, interpolate}
use extension_field_pcg.Algebra.Cube.{interpolate3-evaluate3, evaluate3-interpolate3}

module _ {ℓ} {A : Type ℓ} ⦃r : Ring2 A⦄ (w : A) where
  -- A map that keeps sums and multiples by w.
  pub record IsLinear (f : A → A) : Type ℓ where
    pub keeps_add : (x y : A) → f (x ⊕ y) ≡ f x ⊕ f y
    pub keeps_scale : (x : A) → f (w ⊗ x) ≡ w ⊗ f x

  module _ {f : A → A} (h : IsLinear f) where
    step_left : (a b c : A) → f (a ⊕ b ⊕ c) ≡ f a ⊕ f b ⊕ f c
    step_left a b c = h.keeps_add (a ⊕ b) c ∙ ap (λ t. t ⊕ f c) (h.keeps_add a b)

    step_scaled : (a b c d : A) → f (a ⊕ b ⊕ w ⊗ (c ⊕ d)) ≡ f a ⊕ f b ⊕ w ⊗ (f c ⊕ f d)
    step_scaled a b c d =
        step_left a b (w ⊗ (c ⊕ d))
        ∙ ap (λ t. f a ⊕ f b ⊕ t) (h.keeps_scale (c ⊕ d) ∙ ap (λ t. w ⊗ t) (h.keeps_add c d))

    pub map-evaluate3 : (t : Triple A) → map_triple f (evaluate3 w t) ≡ evaluate3 w (map_triple f t)
    map-evaluate3 t = Triple-eq (step_left _ _ _) (step_scaled _ _ _ _) (step_scaled _ _ _ _)

    pub map-interpolate3 :
        (t : Triple A) → map_triple f (interpolate3 w t) ≡ interpolate3 w (map_triple f t)
    map-interpolate3 t = Triple-eq (step_left _ _ _) (step_scaled _ _ _ _) (step_scaled _ _ _ _)

  -- One component of a step: the sum of two and a multiple of the sum of two.
  component-add :
      (c a b m s a' b' m' s' : A)
      → (a ⊕ a') ⊕ (b ⊕ b') ⊕ c ⊗ ((m ⊕ m') ⊕ (s ⊕ s'))
        ≡ (a ⊕ b ⊕ c ⊗ (m ⊕ s)) ⊕ (a' ⊕ b' ⊕ c ⊗ (m' ⊕ s'))
  unfolding norm
  component-add c a b m s a' b' m' s' =
      let v = var in
      solve (c ∷ a ∷ b ∷ m ∷ s ∷ a' ∷ b' ∷ m' ∷ s' ∷ [])
        ((v 1 :+ v 5) :+ (v 2 :+ v 6) :+ v 0 :* ((v 3 :+ v 7) :+ (v 4 :+ v 8)))
        ((v 1 :+ v 2 :+ v 0 :* (v 3 :+ v 4)) :+ (v 5 :+ v 6 :+ v 0 :* (v 7 :+ v 8))) refl

  component-scale :
      (c a b m s : A) → (c ⊗ a) ⊕ (c ⊗ b) ⊕ c ⊗ ((c ⊗ m) ⊕ (c ⊗ s)) ≡ c ⊗ (a ⊕ b ⊕ c ⊗ (m ⊕ s))
  unfolding norm
  component-scale c a b m s =
      let v = var in
      solve (c ∷ a ∷ b ∷ m ∷ s ∷ [])
        ((v 0 :* v 1) :+ (v 0 :* v 2) :+ v 0 :* ((v 0 :* v 3) :+ (v 0 :* v 4)))
        (v 0 :* (v 1 :+ v 2 :+ v 0 :* (v 3 :+ v 4))) refl

  sum3-add : (a b c a' b' c' : A) → (a ⊕ a') ⊕ (b ⊕ b') ⊕ (c ⊕ c') ≡ (a ⊕ b ⊕ c) ⊕ (a' ⊕ b' ⊕ c')
  unfolding norm
  sum3-add a b c a' b' c' =
      let v = var in
      solve (a ∷ b ∷ c ∷ a' ∷ b' ∷ c' ∷ []) ((v 0 :+ v 3) :+ (v 1 :+ v 4) :+ (v 2 :+ v 5))
        ((v 0 :+ v 1 :+ v 2) :+ (v 3 :+ v 4 :+ v 5)) refl

  sum3-scale : (c a b d : A) → (c ⊗ a) ⊕ (c ⊗ b) ⊕ (c ⊗ d) ≡ c ⊗ (a ⊕ b ⊕ d)
  unfolding norm
  sum3-scale c a b d =
      let v = var in
      solve (c ∷ a ∷ b ∷ d ∷ []) ((v 0 :* v 1) :+ (v 0 :* v 2) :+ (v 0 :* v 3))
        (v 0 :* (v 1 :+ v 2 :+ v 3)) refl

  pub interpolate3-add :
      (s t : Triple A)
      → interpolate3 w (zip_triple r.add s t)
        ≡ zip_triple r.add (interpolate3 w s) (interpolate3 w t)
  interpolate3-add s t =
      Triple-eq (sum3-add _ _ _ _ _ _) (component-add _ _ _ _ _ _ _ _ _)
        (component-add _ _ _ _ _ _ _ _ _)

  pub interpolate3-scale :
      (t : Triple A)
      → interpolate3 w (map_triple (r.mul w) t) ≡ map_triple (r.mul w) (interpolate3 w t)
  interpolate3-scale t =
      Triple-eq (sum3-scale _ _ _ _) (component-scale _ _ _ _ _) (component-scale _ _ _ _ _)

  pub evaluate3-add :
      (s t : Triple A)
      → evaluate3 w (zip_triple r.add s t) ≡ zip_triple r.add (evaluate3 w s) (evaluate3 w t)
  evaluate3-add s t =
      Triple-eq (sum3-add _ _ _ _ _ _) (component-add _ _ _ _ _ _ _ _ _)
        (component-add _ _ _ _ _ _ _ _ _)

  pub evaluate3-scale :
      (t : Triple A) → evaluate3 w (map_triple (r.mul w) t) ≡ map_triple (r.mul w) (evaluate3 w t)
  evaluate3-scale t =
      Triple-eq (sum3-scale _ _ _ _) (component-scale _ _ _ _ _) (component-scale _ _ _ _ _)

module _ {ℓ} {A : Type ℓ} (r : Ring2 A) (w : A) where
  abbrev IsLinearCube : (k : ℕ) → (Cube A k → Cube A k) → Type ℓ
  IsLinearCube k = IsLinear ⦃r = cube_ring r k⦄ (constant_cube w k)

  interpolate-IsLinear : (k : ℕ) → IsLinearCube k (interpolate r w k)
  interpolate-IsLinear zero = record { keeps_add = λ x y. refl; keeps_scale = λ x. refl }
  interpolate-IsLinear (suc k) =
      let ih = interpolate-IsLinear k in
      let c = constant_cube w k in
      let step = interpolate3 ⦃r = cube_ring r k⦄ c in
      record {
        keeps_add = λ x y.
            ap step (
              Triple-eq (ih.keeps_add x.left y.left) (ih.keeps_add x.middle y.middle)
                (ih.keeps_add x.right y.right))
            ∙ interpolate3-add ⦃r = cube_ring r k⦄ c _ _;
        keeps_scale = λ x.
            ap step
              (Triple-eq (ih.keeps_scale x.left) (ih.keeps_scale x.middle) (ih.keeps_scale x.right))
            ∙ interpolate3-scale ⦃r = cube_ring r k⦄ c _;
      }

  pub evaluate-IsLinear : (k : ℕ) → IsLinearCube k (evaluate r w k)
  evaluate-IsLinear zero = record { keeps_add = λ x y. refl; keeps_scale = λ x. refl }
  evaluate-IsLinear (suc k) =
      let ih = evaluate-IsLinear k in
      let c = constant_cube w k in
      let step = evaluate3 ⦃r = cube_ring r k⦄ c in
      record {
        keeps_add = λ x y.
            ap step (
              Triple-eq (ih.keeps_add x.left y.left) (ih.keeps_add x.middle y.middle)
                (ih.keeps_add x.right y.right))
            ∙ evaluate3-add ⦃r = cube_ring r k⦄ c _ _;
        keeps_scale = λ x.
            ap step
              (Triple-eq (ih.keeps_scale x.left) (ih.keeps_scale x.middle) (ih.keeps_scale x.right))
            ∙ evaluate3-scale ⦃r = cube_ring r k⦄ c _;
      }

  -- Interpolation undoes evaluation.
  pub interpolate-evaluate : (k : ℕ) (x : Cube A k) → interpolate r w k (evaluate r w k x) ≡ x
  interpolate-evaluate zero x = refl
  interpolate-evaluate (suc k) t =
      let c = constant_cube w k in
      let ih = interpolate-evaluate k in
      ap (interpolate3 ⦃r = cube_ring r k⦄ c)
        (map-evaluate3 ⦃r = cube_ring r k⦄ c (interpolate-IsLinear k) _)
      ∙ interpolate3-evaluate3 ⦃r = cube_ring r k⦄ c _
      ∙ Triple-eq (ih t.left) (ih t.middle) (ih t.right)

  -- And evaluation undoes interpolation.
  pub evaluate-interpolate : (k : ℕ) (x : Cube A k) → evaluate r w k (interpolate r w k x) ≡ x
  evaluate-interpolate zero x = refl
  evaluate-interpolate (suc k) t =
      let c = constant_cube w k in
      let ih = evaluate-interpolate k in
      ap (evaluate3 ⦃r = cube_ring r k⦄ c)
        (map-interpolate3 ⦃r = cube_ring r k⦄ c (evaluate-IsLinear k) _)
      ∙ evaluate3-interpolate3 ⦃r = cube_ring r k⦄ c _
      ∙ Triple-eq (ih t.left) (ih t.middle) (ih t.right)
