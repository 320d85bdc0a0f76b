-- ===== src/Ole/Total.antt =====
-- The sum of the two polynomials that `dpf` returns.
use native.Mathlib.Nat.{mod-add-div, mod-lt, div-lt_iff_lt-mul, mul_comm, mul-le-mul_right, suc-mul}
use extension_field_pcg.Common.{
  ℕ, zero, suc, ◌+◌, ◌*◌, ◌/◌, ◌%◌, ◌^◌, ◌<◌, ◌≤◌, ◌≡◌, refl, sym, ap, ap₂, ◌∙◌, subst, arith, [],
  ◌∷◌,
}
use extension_field_pcg.IntLoop.{pow-small}
use extension_field_pcg.Algebra.{◌⊕◌, ◌⊗◌}
use extension_field_pcg.Algebra.Solver.{var, ◌:+◌, solve, norm}
use extension_field_pcg.Algebra.Sum.{sum_congr}
use extension_field_pcg.F4.Ring.{Block, f4_ring}
use extension_field_pcg.Fft.{Store}
use extension_field_pcg.Fft.Ternary.{IsTernary}
use extension_field_pcg.Fft.Spike.{spike}
use extension_field_pcg.Fft.Sparse.{sparse_product}
use extension_field_pcg.Ole.Defs.{Sharing, generate_additive_sharing, list_points}
use extension_field_pcg.Ole.Sharing.{total, generate_additive_sharing_lem}
use extension_field_pcg.Ole.Points.{list_points_lem}
use extension_field_pcg.Ole.Dpf.{BaseOts, deal_base_ots, Randomness, TernaryDpf, dpf}
use extension_field_pcg.Ole.Products.{
  Fits, IsDpf, deal_base_ots-IsDealt, add_outputs_lem, added, added-add, one_pair,
}

-- A number below n * n as a row and a column.
record Cell (n r : ℕ) : Type 0 where
  row : ℕ
  column : ℕ
  row-lt : row < n
  column-lt : column < n
  whole : r ≡ row * n + column

cell : (n r : ℕ) → r < n * n → Cell n r
cell zero r h = absurd (omega arith)
cell (suc m) r h = record {
  row = r / suc m;
  column = r % suc m;
  row-lt = (div-lt_iff_lt-mul {k = suc m} {x = r} {y = suc m} (omega arith)).1 h;
  column-lt = mod-lt r (omega arith);
  whole = omega (arith, mod-add-div r (suc m), mul_comm (suc m) (r / suc m));
}

pub cell-lt : (n i j : ℕ) → i < n → j < n → i * n + j < n * n
cell-lt n i j h l =
    let up : suc i * n ≤ n * n = mul-le-mul_right n h in omega (arith, suc-mul i n, up)

module _ (add : ℕ → ℕ → ℕ) (ternary : IsTernary add) (lib : TernaryDpf) (is_dpf : IsDpf add lib)
    (b d : ℕ) (fits : Fits b d) (rand : Randomness) (coeff0 coeff1 : Store)
    (points0 points1 : ℕ → ℕ) (within0 : (i : ℕ) → i < 3 ^ b → points0 i < 3 ^ d)
    (within1 : (i : ℕ) → i < 3 ^ b → points1 i < 3 ^ d) where
  points-within :
      (p : (ℕ → ℕ) × (ℕ → ℕ)) (r : ℕ)
      → r < 3 ^ b * 3 ^ b
      → ((list_points (3 ^ b) points0 points1 (3 ^ b) 0 p).0 r < 3 ^ d)
        × ((list_points (3 ^ b) points0 points1 (3 ^ b) 0 p).1 r < 3 ^ d)
  points-within p r h =
      let c = cell (3 ^ b) r h in
      let l = list_points_lem (3 ^ b) points0 points1 p c.row c.column c.row-lt c.column-lt in
      let q = list_points (3 ^ b) points0 points1 (3 ^ b) 0 p in
      subst (λ x. (q.0 x < 3 ^ d) × (q.1 x < 3 ^ d)) (sym c.whole)
        (
          subst (λ x. x < 3 ^ d) (sym l.0) (within0 c.row c.row-lt),
          subst (λ x. x < 3 ^ d) (sym l.1) (within1 c.column c.column-lt),
        )

  abbrev listed : (ℕ → ℕ) × (ℕ → ℕ)
  listed = list_points (3 ^ b) points0 points1 (3 ^ b) 0 (λ i. 0, λ i. 0)

  abbrev shared : Sharing
  shared =
      generate_additive_sharing rand.share coeff0 (3 ^ b) coeff1 (3 ^ b) (λ i. f4_ring.nil)
        (λ i. f4_ring.nil)

  -- The base OTs before the loop that deals them.
  abbrev undealt : BaseOts
  undealt = record {
    send0 = λ i. (f4_ring.nil, f4_ring.nil);
    send1 = λ i. (f4_ring.nil, f4_ring.nil);
    recv0 = λ i. f4_ring.nil;
    recv1 = λ i. f4_ring.nil;
    choice0 = rand.choices0;
    choice1 = rand.choices1;
  }

  abbrev output : (ℕ → ℕ → Block) × (ℕ → ℕ → Block)
  output =
      lib.expand (deal_base_ots rand (lib.base_ot_count (3 ^ d) (3 ^ b * 3 ^ b)) undealt)
        rand.protocol listed.0 listed.1 shared.value0 shared.value1 (3 ^ d) (3 ^ b * 3 ^ b)

  output_shares :
      (i j k : ℕ)
      → i < 3 ^ b
      → j < 3 ^ b
      → k < 3 ^ d
      → output.0 (i * 3 ^ b + j) k ⊕ output.1 (i * 3 ^ b + j) k
        ≡ spike (add (points0 i) (points1 j)) (coeff0 i ⊗ coeff1 j) k
  output_shares i j k h l m =
      let at_cell = list_points_lem (3 ^ b) points0 points1 (λ i. 0, λ i. 0) i j h l in
      is_dpf.shares d (3 ^ b * 3 ^ b) _ rand.protocol listed.0 listed.1 shared.value0 shared.value1
        (deal_base_ots-IsDealt rand _ undealt) (points-within (λ i. 0, λ i. 0)) (i * 3 ^ b + j) k
        (cell-lt (3 ^ b) i j h l) m
      ∙ ap (λ p. spike p (total shared (i * 3 ^ b + j)) k) (ap₂ add at_cell.0 at_cell.1)
      ∙ ap (λ v. spike (add (points0 i) (points1 j)) v k)
          (generate_additive_sharing_lem rand.share coeff0 (3 ^ b) coeff1 (3 ^ b) _ _ i j
            (pow-small b fits.points) (pow-small b fits.points) h l)

  -- For an addition of ternary digits and distributed point functions as the library describes them,
  -- the two polynomials that `dpf` returns add up to those that it got plus the product of the two
  -- sparse polynomials, whose points i lie in block i of `domain` coefficients: whatever its random
  -- numbers are, for 3^b points below the domain 3^d, where b and d are at most 19, so that an `int` holds the
  -- powers, and b + d is at most 32.
  pub dpf-sparse_product :
      (poly_a poly_b : Store) (t : ℕ)
      → (dpf add lib rand coeff0 coeff1 points0 points1 (3 ^ b) (3 ^ d) poly_a poly_b).0 t
          ⊕ (dpf add lib rand coeff0 coeff1 points0 points1 (3 ^ b) (3 ^ d) poly_a poly_b).1 t
        ≡ (poly_a t ⊕ poly_b t)
          ⊕ sparse_product add
              (3 ^ b)
              (λ i. points0 i + i * 3 ^ d)
              coeff0
              (λ j. points1 j + j * 3 ^ d)
              coeff1
              t
  unfolding dpf norm
  dpf-sparse_product poly_a poly_b t =
      ap₂ ◌⊕◌
        (add_outputs_lem add (3 ^ b) (3 ^ d) output.0 poly_a t (pow-small b fits.points)
          (pow-small d fits.domain))
        (add_outputs_lem add (3 ^ b) (3 ^ d) output.1 poly_b t (pow-small b fits.points)
          (pow-small d fits.domain))
      ∙ solve
          (poly_a t
            ∷ added add (3 ^ b) (3 ^ d) output.0 t
            ∷ poly_b t
            ∷ added add (3 ^ b) (3 ^ d) output.1 t
            ∷ [])
          (var 0 :+ var 1 :+ (var 2 :+ var 3)) (var 0 :+ var 2 :+ (var 1 :+ var 3)) refl
      ∙ ap (λ x. (poly_a t ⊕ poly_b t) ⊕ x)
          (added-add add (3 ^ b) (3 ^ d) output.0 output.1 t
            ∙ sum_congr (3 ^ b) _ _ (λ i h. sum_congr (3 ^ b) _ _ (λ j l.
              one_pair add ternary b d fits.digits i j (points0 i) (points1 j) (coeff0 i ⊗ coeff1 j)
                _ t h l (within0 i h) (within1 j l) (λ k m. output_shares i j k h l m))))
