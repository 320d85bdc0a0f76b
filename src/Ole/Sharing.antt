-- ===== src/Ole/Sharing.antt =====
-- The sums of the two shares that `generate_additive_sharing` computes.
use native.Mathlib.Nat.{suc-mul}
use extension_field_pcg.IntLoop.{int_rounds_small}
use extension_field_pcg.Common.{◌^◌, ap₂}
use extension_field_pcg.Common.{
  ℕ, zero, suc, ◌+◌, ◌*◌, ◌<◌, ◌≡◌, refl, ap, ap₂, ◌∙◌, arith, [], ◌∷◌,
}
use extension_field_pcg.Common.{write, write_self, write_other}
use extension_field_pcg.Algebra.{◌⊕◌, ◌⊗◌}
use extension_field_pcg.Algebra.Solver.{var, ◌:+◌, solve, norm}
use extension_field_pcg.F4.Ring.{Block, f4_ring}
use extension_field_pcg.Fft.{Store}
use extension_field_pcg.Ole.Defs.{
  Sharing, share_one, share_row, share_rows, generate_additive_sharing,
}

-- The sum of the two shares at k.
abbrev pub total : Sharing → ℕ → Block
total s k = s.value0 k ⊕ s.value1 k

share_one_at :
    (prng : ℕ → Block) (x y : Block) (s : Sharing) → total (share_one prng x y s) s.index ≡ x ⊗ y
unfolding share_one norm
share_one_at prng x y s =
    let v = write s.value0 s.index (prng s.drawn) s.index in
    ap (λ z. v ⊕ z) (write_self s.value1 s.index (x ⊗ y ⊕ v))
    ∙ solve (v ∷ (x ⊗ y) ∷ []) (var 0 :+ (var 1 :+ var 0)) (var 1) refl

share_one_before :
    (prng : ℕ → Block) (x y : Block) (s : Sharing) (k : ℕ)
    → k < s.index
    → total (share_one prng x y s) k ≡ total s k
unfolding share_one
share_one_before prng x y s k h =
    ap₂ ◌⊕◌ (write_other s.value0 s.index k _ (omega arith))
      (write_other s.value1 s.index k _ (omega arith))

share_one_index :
    (prng : ℕ → Block) (x y : Block) (s : Sharing) → (share_one prng x y s).index ≡ s.index + 1
unfolding share_one
share_one_index prng x y s = refl

module _ (prng : ℕ → Block) (x : Block) (c1 : Store) where
  share_row_index :
      (left j : ℕ) (s : Sharing) → (share_row prng x c1 left j s).index ≡ s.index + left
  unfolding share_row
  share_row_index zero j s = omega arith
  share_row_index (suc left) j s = omega (
    arith,
    share_row_index left (suc j) (share_one prng x (c1 j) s),
    share_one_index prng x (c1 j) s,
  )

  share_row_before :
      (left j : ℕ) (s : Sharing) (k : ℕ)
      → k < s.index
      → total (share_row prng x c1 left j s) k ≡ total s k
  unfolding share_row
  share_row_before zero j s k h = refl
  share_row_before (suc left) j s k h =
      share_row_before left (suc j) (share_one prng x (c1 j) s) k
        (omega (arith, share_one_index prng x (c1 j) s))
      ∙ share_one_before prng x (c1 j) s k h

  share_row_at :
      (left j : ℕ) (s : Sharing) (d : ℕ)
      → d < left
      → total (share_row prng x c1 left j s) (s.index + d) ≡ x ⊗ c1 (j + d)
  unfolding share_row
  share_row_at zero j s d h = absurd (omega arith)
  share_row_at (suc left) j s zero h =
      let next = share_one prng x (c1 j) s in
      ap (total (share_row prng x c1 left (suc j) next)) {x = s.index + 0} {y = s.index}
        (omega arith)
      ∙ share_row_before left (suc j) next s.index (omega (arith, share_one_index prng x (c1 j) s))
      ∙ share_one_at prng x (c1 j) s
      ∙ ap (λ t. x ⊗ c1 t) {x = j} {y = j + 0} (omega arith)
  share_row_at (suc left) j s (suc d) h =
      let next = share_one prng x (c1 j) s in
      ap (total (share_row prng x c1 left (suc j) next)) {x = s.index + suc d} {y = next.index + d}
        (omega (arith, share_one_index prng x (c1 j) s))
      ∙ share_row_at left (suc j) next d (omega arith)
      ∙ ap (λ t. x ⊗ c1 t) {x = suc j + d} {y = j + suc d} (omega arith)

module _ (prng : ℕ → Block) (c0 c1 : Store) (n : ℕ) where
  share_rows_before :
      (left i : ℕ) (s : Sharing) (k : ℕ)
      → k < s.index
      → total (share_rows prng c0 c1 n left i s) k ≡ total s k
  unfolding share_rows
  share_rows_before zero i s k h = refl
  share_rows_before (suc left) i s k h =
      share_rows_before left (suc i) (share_row prng (c0 i) c1 n 0 s) k
        (omega (arith, share_row_index prng (c0 i) c1 n 0 s))
      ∙ share_row_before prng (c0 i) c1 n 0 s k h

  share_rows_at :
      (left i : ℕ) (s : Sharing) (d t : ℕ)
      → d < left
      → t < n
      → total (share_rows prng c0 c1 n left i s) (s.index + d * n + t) ≡ c0 (i + d) ⊗ c1 t
  unfolding share_rows
  share_rows_at zero i s d t h l = absurd (omega arith)
  share_rows_at (suc left) i s zero t h l =
      let next = share_row prng (c0 i) c1 n 0 s in
      ap (total (share_rows prng c0 c1 n left (suc i) next)) {x = s.index + 0 * n + t}
        {y = s.index + t} (omega arith)
      ∙ share_rows_before left (suc i) next (s.index + t)
          (omega (arith, share_row_index prng (c0 i) c1 n 0 s))
      ∙ share_row_at prng (c0 i) c1 n 0 s t l
      ∙ ap (λ u. c0 u ⊗ c1 (0 + t)) {x = i} {y = i + 0} (omega arith)
      ∙ ap (λ v. c0 (i + 0) ⊗ c1 v) {x = 0 + t} {y = t} (omega arith)
  share_rows_at (suc left) i s (suc d) t h l =
      let next = share_row prng (c0 i) c1 n 0 s in
      ap (total (share_rows prng c0 c1 n left (suc i) next)) {x = s.index + suc d * n + t}
        {y = next.index + d * n + t}
        (omega (arith, share_row_index prng (c0 i) c1 n 0 s, suc-mul d n))
      ∙ share_rows_at left (suc i) next d t (omega arith) l
      ∙ ap (λ u. c0 u ⊗ c1 t) {x = suc i + d} {y = i + suc d} (omega arith)

-- Whatever blocks the generator gives, for sizes that an `int` holds, the two shares at i * size1 + j add up to the product of
-- coefficient i of the first polynomial and coefficient j of the second.
pub generate_additive_sharing_lem :
    (prng : ℕ → Block) (poly_coeff0 : Store) (size0 : ℕ) (poly_coeff1 : Store) (size1 : ℕ)
    (value0 value1 : Store) (i j : ℕ)
    → size0 < 2 ^ 31
    → size1 < 2 ^ 31
    → i < size0
    → j < size1
    → total
        (generate_additive_sharing prng poly_coeff0 size0 poly_coeff1 size1 value0 value1)
        (i * size1 + j)
      ≡ poly_coeff0 i ⊗ poly_coeff1 j
unfolding generate_additive_sharing
generate_additive_sharing_lem prng c0 size0 c1 size1 value0 value1 i j fits0 fits1 h l =
    let start : Sharing = record { drawn = 0; index = 0; value0 = value0; value1 = value1 } in
    ap₂ (λ n m. total (share_rows prng c0 c1 m n 0 start) (i * size1 + j))
      (int_rounds_small size0 fits0) (int_rounds_small size1 fits1)
    ∙ ap (total (share_rows prng c0 c1 size1 size0 0 start)) {x = i * size1 + j}
        {y = 0 + i * size1 + j} (omega arith)
    ∙ share_rows_at prng c0 c1 size1 size0 0 start i j h l
    ∙ ap (λ u. c0 u ⊗ c1 j) {x = 0 + i} {y = i} (omega arith)
