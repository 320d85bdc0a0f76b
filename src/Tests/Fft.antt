-- ===== src/Tests/Fft.antt =====
-- The transforms at concrete spans, with a forward transform that meets the library's description.
use extension_field_pcg.Common.{write}
use extension_field_pcg.Common.{
  ℕ, zero, suc, ◌+◌, ◌*◌, ◌^◌, ◌≤◌, ◌<◌, ◌==◌, if◌then◌else◌, ◌≡◌, ◌∙◌,
}
use extension_field_pcg.Common.{◌⊎◌, inl, arith}
use native.Mathlib.Nat.{pow-suc}
use extension_field_pcg.Algebra.{◌⊗◌}
use extension_field_pcg.Algebra.Cube.{Cube, Triple-eq, evaluate}
use extension_field_pcg.F4.Ring.{Block, f4_ring}
use extension_field_pcg.Fft.{Store, mult, inv_foleage_fft}
use extension_field_pcg.Fft.Root.{root, mult-root}
use extension_field_pcg.Fft.View.{cube, cube_congr}
use extension_field_pcg.Common.{write_self, write_other}
use extension_field_pcg.Fft.Inverse.{
  IsForwardFft, IsInterpolated, inv_foleage_fft-IsInterpolated, inv_foleage_fft-foleage_fft,
}

-- Writing a cube to the span at `base`.
abbrev spread : (k : ℕ) → ℕ → Cube Block k → Store → Store
spread zero base c a = write a base c
spread (suc k) base c a =
    spread k (base + 2 * 3 ^ k) c.right (spread k (base + 3 ^ k) c.middle (spread k base c.left a))

spread_other :
    (k base : ℕ) (c : Cube Block k) (a : Store) (i : ℕ)
    → (i < base) ⊎ (base + 3 ^ k ≤ i)
    → spread k base c a i ≡ a i
spread_other zero base c a i h = write_other a base i c (omega arith)
spread_other (suc k) base c a i h =
    spread_other k (base + 2 * 3 ^ k) c.right _ i (omega (arith, pow-suc 3 k))
    ∙ spread_other k (base + 3 ^ k) c.middle _ i (omega (arith, pow-suc 3 k))
    ∙ spread_other k base c.left a i (omega (arith, pow-suc 3 k))

cube-spread : (k base : ℕ) (c : Cube Block k) (a : Store) → cube k base (spread k base c a) ≡ c
cube-spread zero base c a = write_self a base c
cube-spread (suc k) base c a =
    let a1 = spread k base c.left a in
    let a2 = spread k (base + 3 ^ k) c.middle a1 in
    let a3 = spread k (base + 2 * 3 ^ k) c.right a2 in
    Triple-eq
      (cube_congr k base a3 a1 (λ t h.
          spread_other k (base + 2 * 3 ^ k) c.right a2 (base + t) (inl (omega arith))
          ∙ spread_other k (base + 3 ^ k) c.middle a1 (base + t) (inl (omega arith)))
        ∙ cube-spread k base c.left a)
      (cube_congr k (base + 3 ^ k) a3 a2 (λ t h.
          spread_other k (base + 2 * 3 ^ k) c.right a2 (base + 3 ^ k + t) (inl (omega arith)))
        ∙ cube-spread k (base + 3 ^ k) c.middle a1)
      (cube-spread k (base + 2 * 3 ^ k) c.right a2)

-- A forward transform.
abbrev pub forward_fft : ℕ → ℕ → ℕ → Store → Store
forward_fft k num_coeffs base a = spread k base (evaluate f4_ring root k (cube k base a)) a

pub forward_fft-IsForwardFft : IsForwardFft forward_fft
forward_fft-IsForwardFft = record {
  evaluates = λ k base a. cube-spread k base (evaluate f4_ring root k (cube k base a)) a;
}

-- Blocks that differ.
abbrev store : Store
store i = if i == 6 then root else if i == 9 then root ⊗ root else f4_ring.one

mult-root_example : mult root ≡ root ⊗ root
mult-root_example = mult-root root

inv_foleage_fft-IsInterpolated_example : IsInterpolated 2 5 store (inv_foleage_fft 2 3 5 store)
inv_foleage_fft-IsInterpolated_example = inv_foleage_fft-IsInterpolated 2 5 store

inv_foleage_fft-foleage_fft_example :
    cube 2 5 (inv_foleage_fft 2 3 5 (forward_fft 2 3 5 store)) ≡ cube 2 5 store
inv_foleage_fft-foleage_fft_example =
    inv_foleage_fft-foleage_fft forward_fft forward_fft-IsForwardFft 2 5 store
