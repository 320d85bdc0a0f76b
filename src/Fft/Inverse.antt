-- ===== src/Fft/Inverse.antt =====
-- What `inv_foleageFft` does to a span, called as the sources call it: on 3^k blocks, with num_coeffs
-- a third of that.
use extension_field_pcg.Common.{ℕ, zero, suc, ◌+◌, ◌*◌, ◌/◌, ◌^◌, ◌≤◌, ◌<◌, ◌≡◌, refl, ap, ◌∙◌}
use extension_field_pcg.Common.{◌⊎◌, inl, inr, arith}
use native.Mathlib.Nat.{pow-suc}
use extension_field_pcg.Algebra.Cube.{Triple-eq, cube_ring, constant_cube, interpolate3}
use extension_field_pcg.Algebra.Cube.{evaluate, interpolate}
use extension_field_pcg.Algebra.Cube.Inverse.{interpolate-evaluate}
use extension_field_pcg.F4.Ring.{f4_ring}
use extension_field_pcg.Fft.Defs.{Store, inv_loop, inv_foleage_fft}
use extension_field_pcg.Fft.Root.{root}
use extension_field_pcg.Fft.Loop.{loop-IsTransformed}
use extension_field_pcg.Fft.View.{cube, cube_congr, inv_loop-interpolate3}

third : (k : ℕ) → 3 ^ suc k / 3 ≡ 3 ^ k
third k = omega (arith, pow-suc 3 k)

-- `b` is `a` with the span of 3^k blocks at `base` interpolated.
pub record IsInterpolated (k base : ℕ) (a b : Store) : Type 0 where
  pub inside : cube k base b ≡ interpolate f4_ring root k (cube k base a)
  pub outside : (i : ℕ) → (i < base) ⊎ (base + 3 ^ k ≤ i) → b i ≡ a i

-- One more level: three interpolated thirds, and the loop.
module _ (k base : ℕ) (a a1 a2 a3 : Store) (h1 : IsInterpolated k base a a1)
    (h2 : IsInterpolated k (base + 3 ^ k) a1 a2)
    (h3 : IsInterpolated k (base + 2 * 3 ^ k) a2 a3) where
  thirds_left : cube k base a3 ≡ interpolate f4_ring root k (cube k base a)
  thirds_left =
      cube_congr k base a3 a1 (λ t p.
        h3.outside (base + t) (inl (omega arith)) ∙ h2.outside (base + t) (inl (omega arith)))
      ∙ h1.inside

  thirds_middle : cube k (base + 3 ^ k) a3 ≡ interpolate f4_ring root k (cube k (base + 3 ^ k) a)
  thirds_middle =
      cube_congr k (base + 3 ^ k) a3 a2 (λ t p. h3.outside (base + 3 ^ k + t) (inl (omega arith)))
      ∙ h2.inside
      ∙ ap (interpolate f4_ring root k) (
          cube_congr k (base + 3 ^ k) a1 a
            (λ t p. h1.outside (base + 3 ^ k + t) (inr (omega arith))))

  thirds_right :
      cube k (base + 2 * 3 ^ k) a3 ≡ interpolate f4_ring root k (cube k (base + 2 * 3 ^ k) a)
  thirds_right =
      h3.inside
      ∙ ap (interpolate f4_ring root k) (
          cube_congr k (base + 2 * 3 ^ k) a2 a (λ t p.
            h2.outside (base + 2 * 3 ^ k + t) (inr (omega arith))
            ∙ h1.outside (base + 2 * 3 ^ k + t) (inr (omega arith))))

  level-IsInterpolated : IsInterpolated (suc k) base a (inv_loop base (3 ^ k) (3 ^ k) 0 a3)
  level-IsInterpolated = record {
    inside =
        inv_loop-interpolate3 k base a3
        ∙ ap (interpolate3 ⦃r = cube_ring f4_ring k⦄ (constant_cube root k))
            (Triple-eq thirds_left thirds_middle thirds_right);
    outside = λ i h.
        let done = loop-IsTransformed base (3 ^ k) (3 ^ k) 0 a3 (omega arith) in
        done.elsewhere i (λ t p q.
          (omega (arith, pow-suc 3 k), omega (arith, pow-suc 3 k), omega (arith, pow-suc 3 k)))
        ∙ h3.outside i (omega (arith, pow-suc 3 k))
        ∙ h2.outside i (omega (arith, pow-suc 3 k))
        ∙ h1.outside i (omega (arith, pow-suc 3 k));
  }

unchanged-IsInterpolated : (base : ℕ) (a : Store) → IsInterpolated 0 base a a
unchanged-IsInterpolated base a = record { inside = refl; outside = λ i h. refl }

-- `inv_foleageFft` with num_vars = k, num_coeffs a third of 3^k and a span at any address interpolates:
-- the 3^k blocks there become the coefficients of the polynomial in k variables whose values they were
-- (each variable at 1, w and w^2 for the root w), and no other block changes.
pub inv_foleage_fft-IsInterpolated :
    (k base : ℕ) (a : Store) → IsInterpolated k base a (inv_foleage_fft k (3 ^ k / 3) base a)
unfolding inv_foleage_fft inv_loop
inv_foleage_fft-IsInterpolated zero base a = unchanged-IsInterpolated base a
inv_foleage_fft-IsInterpolated (suc zero) base a =
    level-IsInterpolated 0 base a a a a (unchanged-IsInterpolated base a)
      (unchanged-IsInterpolated (base + 1) a) (unchanged-IsInterpolated (base + 2) a)
inv_foleage_fft-IsInterpolated (suc (suc k)) base a =
    let s = 3 ^ suc k in
    let f = inv_foleage_fft (suc k) (s / 3) in
    rw (third (suc k)) (
      level-IsInterpolated (suc k) base a (f base a) (f (base + s) (f base a))
        (f (base + 2 * s) (f (base + s) (f base a))) (inv_foleage_fft-IsInterpolated (suc k) base a)
        (inv_foleage_fft-IsInterpolated (suc k) (base + s) (f base a))
        (inv_foleage_fft-IsInterpolated (suc k) (base + 2 * s) (f (base + s) (f base a))))

-- The forward transform of the library, by what its comments say of it: the blocks become the
-- values of the polynomial that they are the coefficients of, with every variable at 1, w and w^2.
pub record IsForwardFft (foleage_fft : ℕ → ℕ → ℕ → Store → Store) : Type 0 where
  pub evaluates :
      (k base : ℕ) (a : Store)
      → cube k base (foleage_fft k (3 ^ k / 3) base a) ≡ evaluate f4_ring root k (cube k base a)

-- For a forward transform that evaluates as the library describes it, `inv_foleageFft` after it restores
-- the 3^k blocks of the span.
pub inv_foleage_fft-foleage_fft :
    (foleage_fft : ℕ → ℕ → ℕ → Store → Store)
    → IsForwardFft foleage_fft
    → (k base : ℕ) (a : Store)
    → cube k base (inv_foleage_fft k (3 ^ k / 3) base (foleage_fft k (3 ^ k / 3) base a))
      ≡ cube k base a
inv_foleage_fft-foleage_fft fft forward k base a =
    let there = fft k (3 ^ k / 3) base a in
    let back = inv_foleage_fft-IsInterpolated k base there in
    back.inside
    ∙ ap (interpolate f4_ring root k) (forward.evaluates k base a)
    ∙ interpolate-evaluate f4_ring root k (cube k base a)
