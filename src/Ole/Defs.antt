-- ===== src/Ole/Defs.antt =====
-- The loops of `generate_additive_sharing` and the one of `dpf` that lists the points. The blocks of
-- the generator are a sequence, of which each round takes the next one.
use extension_field_pcg.Common.{ℕ, zero, suc, ◌+◌, ◌*◌, write}
use extension_field_pcg.IntLoop.{int_rounds}
use extension_field_pcg.Algebra.{◌⊕◌, ◌⊗◌}
use extension_field_pcg.F4.Ring.{Block, f4_ring}
use extension_field_pcg.Fft.{Store}

pub record Sharing : Type 0 where
  pub drawn : ℕ
  pub index : ℕ
  pub value0 : Store
  pub value1 : Store

-- The body: `temp = c0[i] * c1[j]; value0[index] = prng.get(); value1[index] = temp - value0[index];`
-- and the next index.
unfoldable pub share_one : (ℕ → Block) → Block → Block → Sharing → Sharing
share_one prng x y s =
    let temp = x ⊗ y in
    let value0 = write s.value0 s.index (prng s.drawn) in
    record {
      drawn = suc s.drawn;
      index = s.index + 1;
      value0 = value0;
      value1 = write s.value1 s.index (temp ⊕ value0 s.index);
    }

unfoldable pub share_row : (ℕ → Block) → Block → Store → ℕ → ℕ → Sharing → Sharing
share_row prng x poly_coeff1 zero j s = s
share_row prng x poly_coeff1 (suc left) j s =
    share_row prng x poly_coeff1 left (suc j) (share_one prng x (poly_coeff1 j) s)

unfoldable pub share_rows : (ℕ → Block) → Store → Store → ℕ → ℕ → ℕ → Sharing → Sharing
share_rows prng poly_coeff0 poly_coeff1 size1 zero i s = s
share_rows prng poly_coeff0 poly_coeff1 size1 (suc left) i s =
    share_rows prng poly_coeff0 poly_coeff1 size1 left (suc i)
      (share_row prng (poly_coeff0 i) poly_coeff1 size1 0 s)

-- The two vectors of shares, from those that are passed in.
unfoldable pub generate_additive_sharing :
    (ℕ → Block) → Store → ℕ → Store → ℕ → Store → Store → Sharing
generate_additive_sharing prng poly_coeff0 size0 poly_coeff1 size1 value0 value1 =
    share_rows prng poly_coeff0 poly_coeff1 (int_rounds size1) (int_rounds size0) 0
      (record { drawn = 0; index = 0; value0 = value0; value1 = value1 })

-- `points0[i*numPoints+j] = poly_points0[i]; points1[i*numPoints+j] = poly_points1[j];`
module _ {Point : Type 0} (num_points : ℕ) (poly_points0 poly_points1 : ℕ → Point) where
  unfoldable pub list_row : ℕ → ℕ → ℕ → (ℕ → Point) × (ℕ → Point) → (ℕ → Point) × (ℕ → Point)
  list_row i zero j p = p
  list_row i (suc left) j p = list_row i left (suc j) (
    write p.0 (i * num_points + j) (poly_points0 i),
    write p.1 (i * num_points + j) (poly_points1 j),
  )

  unfoldable pub list_points : ℕ → ℕ → (ℕ → Point) × (ℕ → Point) → (ℕ → Point) × (ℕ → Point)
  list_points zero i p = p
  list_points (suc left) i p = list_points left (suc i) (list_row i num_points 0 p)
