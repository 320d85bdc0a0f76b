-- ===== src/Fft/Spike.antt =====
-- The transform of a span with a single block in it, and of a sum of such.
use extension_field_pcg.Common.{
  ℕ, zero, suc, ◌+◌, ◌*◌, ◌%◌, ◌^◌, ◌==◌, ◌≤◌, ◌<◌, ◌≡◌, ◌≢◌, if◌then◌else◌, refl, sym, ap, ap₂,
  ◌∙◌, subst, arith,
}
use extension_field_pcg.Algebra.{◌⊗◌}
use extension_field_pcg.Algebra.Cube.{
  Cube, Triple-eq, cube_ring, constant_cube, evaluate, evaluate3, map_triple,
}
use extension_field_pcg.Algebra.Cube.Linear.{evaluate-nil}
use extension_field_pcg.Algebra.Cube.Character.{
  place, character, evaluate3-place, character-mul, constant_root,
}
use extension_field_pcg.F4.Ring.{Block, f4_ring}
use extension_field_pcg.Fft.Defs.{Store}
use extension_field_pcg.Fft.Ternary.{IsTernary, digits, add-digits, add-zero, add-lt}
use extension_field_pcg.Fft.Root.{root, root_lem}
use extension_field_pcg.Fft.View.{cube, cube_congr}

-- v at address i, and zero elsewhere.
abbrev pub spike : ℕ → Block → Store
spike i v t = if t == i then v else f4_ring.nil

pub spike_other : (i : ℕ) (v : Block) (t : ℕ) → t ≢ i → spike i v t ≡ f4_ring.nil
spike_other i v t h = ground arith

pub cube-nil : (k base : ℕ) → cube k base (λ t. f4_ring.nil) ≡ (cube_ring f4_ring k).nil
cube-nil zero base = refl
cube-nil (suc k) base =
    Triple-eq (cube-nil k base) (cube-nil k (base + 3 ^ k)) (cube-nil k (base + 2 * 3 ^ k))

cube-spike_outside :
    (k base i : ℕ) (v : Block)
    → ((t : ℕ) → t < 3 ^ k → base + t ≢ i)
    → cube k base (spike i v) ≡ (cube_ring f4_ring k).nil
cube-spike_outside k base i v h =
    cube_congr k base (spike i v) (λ t. f4_ring.nil) (λ t l. spike_other i v (base + t) (h t l))
    ∙ cube-nil k base

-- The third of a span in which its digit puts an address.
cube-spike :
    (k base x a : ℕ) (v : Block)
    → x < 3
    → a < 3 ^ k
    → cube (suc k) base (spike (base + (x * 3 ^ k + a)) v)
      ≡ place ⦃r = cube_ring f4_ring k⦄
          (constant_cube root k)
          x
          (cube k (base + x * 3 ^ k) (spike (base + (x * 3 ^ k + a)) v))
cube-spike k base zero a v h l =
    Triple-eq
      (ap (λ b. cube k b (spike (base + (0 * 3 ^ k + a)) v)) {x = base} {y = base + 0 * 3 ^ k}
        (omega arith))
      (cube-spike_outside k (base + 3 ^ k) _ v (λ t u e. omega (arith, e)))
      (cube-spike_outside k (base + 2 * 3 ^ k) _ v (λ t u e. omega (arith, e)))
cube-spike k base (suc zero) a v h l =
    Triple-eq (cube-spike_outside k base _ v (λ t u e. omega (arith, e)))
      (ap (λ b. cube k b (spike (base + (1 * 3 ^ k + a)) v)) {x = base + 3 ^ k}
        {y = base + 1 * 3 ^ k} (omega arith))
      (cube-spike_outside k (base + 2 * 3 ^ k) _ v (λ t u e. omega (arith, e)))
cube-spike k base (suc (suc zero)) a v h l =
    Triple-eq (cube-spike_outside k base _ v (λ t u e. omega (arith, e)))
      (cube-spike_outside k (base + 3 ^ k) _ v (λ t u e. omega (arith, e))) refl
cube-spike k base (suc (suc (suc x))) a v h l = absurd (omega arith)

-- The values of the polynomial in a span.
abbrev pub values : (k base : ℕ) → Store → Cube Block k
values k base a = evaluate f4_ring root k (cube k base a)

values-spike :
    (k base x a : ℕ) (v : Block)
    → x < 3
    → a < 3 ^ k
    → values (suc k) base (spike (base + (x * 3 ^ k + a)) v)
      ≡ character ⦃r = cube_ring f4_ring k⦄
          (constant_cube root k)
          x
          (values k (base + x * 3 ^ k) (spike (base + x * 3 ^ k + a) v))
values-spike k base x a v h l =
    let c = cube k (base + x * 3 ^ k) (spike (base + (x * 3 ^ k + a)) v) in
    let W = constant_cube root k in
    ap (evaluate f4_ring root (suc k)) (cube-spike k base x a v h l)
    ∙ ap (evaluate3 ⦃r = cube_ring f4_ring k⦄ W) (map-place x c)
    ∙ evaluate3-place ⦃r = cube_ring f4_ring k⦄ W x (evaluate f4_ring root k c)
    ∙ ap (λ i. character ⦃r = cube_ring f4_ring k⦄ W x (values k (base + x * 3 ^ k) (spike i v)))
        {x = base + (x * 3 ^ k + a)} {y = base + x * 3 ^ k + a} (omega arith)
  where
    map-place :
        (x : ℕ) (c : Cube Block k)
        → map_triple
            (evaluate f4_ring root k)
            (place ⦃r = cube_ring f4_ring k⦄ (constant_cube root k) x c)
          ≡ place ⦃r = cube_ring f4_ring k⦄ (constant_cube root k) x (evaluate f4_ring root k c)
    map-place zero c = Triple-eq refl (evaluate-nil f4_ring root k) (evaluate-nil f4_ring root k)
    map-place (suc zero) c =
        Triple-eq (evaluate-nil f4_ring root k) refl (evaluate-nil f4_ring root k)
    map-place (suc (suc x)) c =
        Triple-eq (evaluate-nil f4_ring root k) (evaluate-nil f4_ring root k) refl

pub spike_self : (i : ℕ) (v : Block) (t : ℕ) → t ≡ i → spike i v t ≡ v
spike_self i v t e = ground arith

module _ (add : ℕ → ℕ → ℕ) (ternary : IsTernary add) where
  -- Blocks at two addresses: the products of their values are the values of the product at the sum.
  abbrev pub Multiplies : ℕ → ℕ → ℕ → Block → Block → Type 0
  Multiplies k a b u v =
      (base base1 base2 : ℕ)
      → values k base (spike (base + add a b) (u ⊗ v))
        ≡ (cube_ring f4_ring k).mul (values k base1 (spike (base1 + a) u))
            (values k base2 (spike (base2 + b) v))

  digits-Multiplies :
      (k x y a b : ℕ) (u v : Block)
      → k < 32
      → x < 3
      → y < 3
      → a < 3 ^ k
      → b < 3 ^ k
      → Multiplies k a b u v
      → Multiplies (suc k) (x * 3 ^ k + a) (y * 3 ^ k + b) u v
  digits-Multiplies k x y a b u v c h l p q ih base base1 base2 =
      let W = constant_cube root k in
      let z = (x + y) % 3 in
      let m = 3 ^ k in
      ap (λ t. values (suc k) base (spike (base + t) (u ⊗ v)))
        (add-digits add ternary k x y a b c h l p q)
      ∙ values-spike k base z (add a b) (u ⊗ v) (omega arith)
          (add-lt add ternary k a b (omega arith) p q)
      ∙ ap (character ⦃r = cube_ring f4_ring k⦄ W z)
          (ih (base + z * m) (base1 + x * m) (base2 + y * m))
      ∙ sym (
          character-mul ⦃r = cube_ring f4_ring k⦄ W (constant_root f4_ring root k root_lem) x y
            (values k (base1 + x * m) (spike (base1 + x * m + a) u))
            (values k (base2 + y * m) (spike (base2 + y * m + b) v)) h l)
      ∙ sym (
          ap₂ (cube_ring f4_ring (suc k)).mul (values-spike k base1 x a u h p)
            (values-spike k base2 y b v l q))

  pub values-spike_add :
      (k a b : ℕ) (u v : Block) → k ≤ 32 → a < 3 ^ k → b < 3 ^ k → Multiplies k a b u v
  values-spike_add zero a b u v c h l = λ base base1 base2.
      spike_self (base + add a b) (u ⊗ v) base (omega (arith, add-zero add ternary a b))
      ∙ sym (
          ap₂ f4_ring.mul (spike_self (base1 + a) u base1 (omega arith))
            (spike_self (base2 + b) v base2 (omega arith)))
  values-spike_add (suc k) a b u v c h l =
      let p = digits k a h in
      let q = digits k b l in
      subst (λ t. Multiplies (suc k) t b u v) (sym p.whole)
        (subst (λ t. Multiplies (suc k) (p.leading * 3 ^ k + p.rest) t u v) (sym q.whole)
          (digits-Multiplies k p.leading q.leading p.rest q.rest u v (omega arith) p.leading-lt
            q.leading-lt p.rest-lt q.rest-lt
            (values-spike_add k p.rest q.rest u v (omega arith) p.rest-lt q.rest-lt)))
