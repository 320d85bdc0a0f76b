-- ===== src/Fft/View.antt =====
-- A span of 3^k blocks as a k-fold cube.
use extension_field_pcg.Common.{◌≤◌, ◌⊎◌, inl, inr}
use extension_field_pcg.Common.{ℕ, zero, suc, ◌+◌, ◌*◌, ◌^◌, ◌<◌, ◌≡◌, refl, sym, ap, ◌∙◌}
use extension_field_pcg.Common.{arith}
use native.Mathlib.Nat.{pow-suc}
use extension_field_pcg.Algebra.{◌⊕◌}
use extension_field_pcg.Algebra.Cube.{Cube, Triple-eq, cube_ring, constant_cube, interpolate3}
use extension_field_pcg.F4.Ring.{Block, f4_ring}
use extension_field_pcg.Fft.Defs.{Store, inv_loop}
use extension_field_pcg.Fft.Root.{root, mult-root}
use extension_field_pcg.Fft.Loop.{loop-IsTransformed, new_left, new_middle, new_right}

abbrev pub cube : (k : ℕ) → ℕ → Store → Cube Block k
cube zero base a = a base
cube (suc k) base a = record {
  left = cube k base a;
  middle = cube k (base + 3 ^ k) a;
  right = cube k (base + 2 * 3 ^ k) a;
}

-- Only the span's own blocks matter.
pub cube_congr :
    (k base : ℕ) (a b : Store)
    → ((t : ℕ) → t < 3 ^ k → a (base + t) ≡ b (base + t))
    → cube k base a ≡ cube k base b
cube_congr zero base a b h =
    ap a {x = base} {y = base + 0} (omega arith) ∙ h 0 (omega arith) ∙ ap b (omega arith)
cube_congr (suc k) base a b h =
    Triple-eq (cube_congr k base a b (λ t p. h t (omega (arith, pow-suc 3 k))))
      (cube_congr k (base + 3 ^ k) a b
        (λ t p. moved (3 ^ k) t (h (3 ^ k + t) (omega (arith, pow-suc 3 k)))))
      (cube_congr k (base + 2 * 3 ^ k) a b
        (λ t p. moved (2 * 3 ^ k) t (h (2 * 3 ^ k + t) (omega (arith, pow-suc 3 k)))))
  where
    moved :
        (d t : ℕ) → a (base + (d + t)) ≡ b (base + (d + t)) → a (base + d + t) ≡ b (base + d + t)
    moved d t e =
        ap a {x = base + d + t} {y = base + (d + t)} (omega arith) ∙ e ∙ ap b (omega arith)

-- Equal spans, block by block.
pub cube_at :
    (k base : ℕ) (a b : Store)
    → cube k base a ≡ cube k base b
    → (i : ℕ) → base ≤ i
    → i < base + 3 ^ k
    → a i ≡ b i
cube_at zero base a b e i l u = ap a {x = i} {y = base} (omega arith) ∙ e ∙ ap b (omega arith)
cube_at (suc k) base a b e i l u = elim (place base (3 ^ k) i (omega (arith, pow-suc 3 k))) [
  | inl h ↦ cube_at k base a b (ap (λ t. t.left) e) i l h
  | inr (inl (h, h')) ↦ cube_at k (base + 3 ^ k) a b (ap (λ t. t.middle) e) i h h'
  | inr (inr h) ↦
      cube_at k (base + 2 * 3 ^ k) a b (ap (λ t. t.right) e) i h (omega (arith, pow-suc 3 k))
]
  where
    place :
        (base n i : ℕ)
        → i < base + 3 * n
        → (i < base + n) ⊎ (((base + n ≤ i) × (i < base + n + n)) ⊎ (base + 2 * n ≤ i))
    place base n i h = omega arith

abbrev zip3 :
    (Block → Block → Block → Block)
    → (k : ℕ) → Cube Block k
    → Cube Block k
    → Cube Block k
    → Cube Block k
zip3 f zero x y z = f x y z
zip3 f (suc k) x y z = record {
  left = zip3 f k x.left y.left z.left;
  middle = zip3 f k x.middle y.middle z.middle;
  right = zip3 f k x.right y.right z.right;
}

-- A span that holds f of the blocks of three others.
cube-zip3 :
    (f : Block → Block → Block → Block) (a b : Store) (k u p q s : ℕ)
    → ((t : ℕ) → t < 3 ^ k → b (u + t) ≡ f (a (p + t)) (a (q + t)) (a (s + t)))
    → cube k u b ≡ zip3 f k (cube k p a) (cube k q a) (cube k s a)
cube-zip3 f a b zero u p q s h =
    ap b {x = u} {y = u + 0} (omega arith)
    ∙ h 0 (omega arith)
    ∙ (λ i. f (a (plain p i)) (a (plain q i)) (a (plain s i)))
  where
    plain : (n : ℕ) → n + 0 ≡ n
    plain n = omega arith
cube-zip3 f a b (suc k) u p q s h =
    Triple-eq (cube-zip3 f a b k u p q s (λ t l. h t (omega (arith, pow-suc 3 k))))
      (cube-zip3 f a b k (u + 3 ^ k) (p + 3 ^ k) (q + 3 ^ k) (s + 3 ^ k)
        (λ t l. moved (3 ^ k) t (h (3 ^ k + t) (omega (arith, pow-suc 3 k)))))
      (cube-zip3 f a b k (u + 2 * 3 ^ k) (p + 2 * 3 ^ k) (q + 2 * 3 ^ k) (s + 2 * 3 ^ k)
        (λ t l. moved (2 * 3 ^ k) t (h (2 * 3 ^ k + t) (omega (arith, pow-suc 3 k)))))
  where
    flat : (n d t : ℕ) → n + (d + t) ≡ n + d + t
    flat n d t = omega arith

    moved :
        (d t : ℕ)
        → b (u + (d + t)) ≡ f (a (p + (d + t))) (a (q + (d + t))) (a (s + (d + t)))
        → b (u + d + t) ≡ f (a (p + d + t)) (a (q + d + t)) (a (s + d + t))
    moved d t e =
        ap b (sym (flat u d t))
        ∙ e
        ∙ (λ i. f (a (flat p d t i)) (a (flat q d t i)) (a (flat s d t i)))

zip3-new_left :
    (k : ℕ) (x y z : Cube Block k)
    → zip3 new_left k x y z ≡ ◌⊕◌ ⦃r = cube_ring f4_ring k⦄ (◌⊕◌ ⦃r = cube_ring f4_ring k⦄ x y) z
zip3-new_left zero x y z = refl
zip3-new_left (suc k) x y z =
    Triple-eq (zip3-new_left k x.left y.left z.left) (zip3-new_left k x.middle y.middle z.middle)
      (zip3-new_left k x.right y.right z.right)

-- The sum of two blocks and the common term, at each place.
with_common : (k : ℕ) (x y m s : Cube Block k) → Cube Block k
with_common k x y m s =
    let r = cube_ring f4_ring k in r.add (r.add x y) (r.mul (constant_cube root k) (r.add m s))

zip3-new_middle : (k : ℕ) (x y z : Cube Block k) → zip3 new_middle k x y z ≡ with_common k x y y z
unfolding with_common
zip3-new_middle zero x y z = ap (λ t. x ⊕ y ⊕ t) (mult-root (y ⊕ z))
zip3-new_middle (suc k) x y z =
    Triple-eq (zip3-new_middle k x.left y.left z.left)
      (zip3-new_middle k x.middle y.middle z.middle) (zip3-new_middle k x.right y.right z.right)

zip3-new_right : (k : ℕ) (x y z : Cube Block k) → zip3 new_right k x y z ≡ with_common k x z y z
unfolding with_common
zip3-new_right zero x y z = ap (λ t. x ⊕ z ⊕ t) (mult-root (y ⊕ z))
zip3-new_right (suc k) x y z =
    Triple-eq (zip3-new_right k x.left y.left z.left) (zip3-new_right k x.middle y.middle z.middle)
      (zip3-new_right k x.right y.right z.right)

-- The loop over three spans of 3^k blocks is one interpolation step.
pub inv_loop-interpolate3 :
    (k base : ℕ) (a : Store)
    → cube (suc k) base (inv_loop base (3 ^ k) (3 ^ k) 0 a)
      ≡ interpolate3 ⦃r = cube_ring f4_ring k⦄ (constant_cube root k) (cube (suc k) base a)
unfolding with_common
inv_loop-interpolate3 k base a =
    let n = 3 ^ k in
    let b = inv_loop base n n 0 a in
    let done = loop-IsTransformed base n n 0 a (omega arith) in
    Triple-eq
      (cube-zip3 new_left a b k base base (base + n) (base + 2 * n)
          (λ t h. done.left_span t (omega arith) (omega arith))
        ∙ zip3-new_left k _ _ _)
      (cube-zip3 new_middle a b k (base + n) base (base + n) (base + 2 * n)
          (λ t h. done.middle_span t (omega arith) (omega arith))
        ∙ zip3-new_middle k _ _ _)
      (cube-zip3 new_right a b k (base + 2 * n) base (base + n) (base + 2 * n)
          (λ t h. done.right_span t (omega arith) (omega arith))
        ∙ zip3-new_right k _ _ _)
