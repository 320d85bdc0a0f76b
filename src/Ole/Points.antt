-- ===== src/Ole/Points.antt =====
-- The points of the products, in the order of the shares.
use native.Mathlib.Nat.{suc-mul}
use extension_field_pcg.Common.{first_or_later}
use extension_field_pcg.Common.{
  ℕ, zero, suc, ◌+◌, ◌*◌, ◌≤◌, ◌<◌, ◌≡◌, refl, sym, ◌∙◌, subst, arith, inl, inr,
}
use extension_field_pcg.Common.{write, write_self, write_other}
use extension_field_pcg.Ole.Defs.{list_row, list_points}

module _ {Point : Type 0} (n : ℕ) (p0 p1 : ℕ → Point) where
  abbrev Points : Type 0
  Points = (ℕ → Point) × (ℕ → Point)

  -- Two lists of points that agree at k.
  abbrev Agree : ℕ → Points → Points → Type 0
  Agree k p q = (p.0 k ≡ q.0 k) × (p.1 k ≡ q.1 k)

  abbrev one_more : ℕ → ℕ → Points → Points
  one_more i j p = (write p.0 (i * n + j) (p0 i), write p.1 (i * n + j) (p1 j))

  list_row_before :
      (i left j : ℕ) (p : Points) (k : ℕ) → k < i * n + j → Agree k (list_row n p0 p1 i left j p) p
  unfolding list_row
  list_row_before i zero j p k h = (refl, refl)
  list_row_before i (suc left) j p k h =
      let (a, b) = list_row_before i left (suc j) (one_more i j p) k (omega arith) in
      (
        a ∙ write_other p.0 (i * n + j) k _ (omega arith),
        b ∙ write_other p.1 (i * n + j) k _ (omega arith),
      )

  -- The pair of points number i and t.
  abbrev Holds : ℕ → ℕ → Points → Type 0
  Holds i t q = (q.0 (i * n + t) ≡ p0 i) × (q.1 (i * n + t) ≡ p1 t)

  list_row_at :
      (i left j : ℕ) (p : Points) (t : ℕ)
      → j ≤ t
      → t < j + left
      → Holds i t (list_row n p0 p1 i left j p)
  unfolding list_row
  list_row_at i zero j p t l u = absurd (omega arith)
  list_row_at i (suc left) j p t l u = elim (first_or_later j t l) [
    | inl e ↦
        let (a, b) = list_row_before i left (suc j) (one_more i j p) (i * n + j) (omega arith) in
        subst (λ x. Holds i x (list_row n p0 p1 i left (suc j) (one_more i j p))) (sym e)
          (a ∙ write_self p.0 (i * n + j) _, b ∙ write_self p.1 (i * n + j) _)
    | inr later ↦ list_row_at i left (suc j) (one_more i j p) t later (omega arith)
  ]

  list_points_before :
      (left i : ℕ) (p : Points) (k : ℕ) → k < i * n → Agree k (list_points n p0 p1 left i p) p
  unfolding list_points
  list_points_before zero i p k h = (refl, refl)
  list_points_before (suc left) i p k h =
      let (a, b) =
        list_points_before left (suc i) (list_row n p0 p1 i n 0 p) k (omega (arith, suc-mul i n)) in
      let (c, d) = list_row_before i n 0 p k (omega arith) in (a ∙ c, b ∙ d)

  list_points_at :
      (left i : ℕ) (p : Points) (u t : ℕ)
      → i ≤ u
      → u < i + left
      → t < n
      → Holds u t (list_points n p0 p1 left i p)
  unfolding list_points
  list_points_at zero i p u t l h k = absurd (omega arith)
  list_points_at (suc left) i p u t l h k = elim (first_or_later i u l) [
    | inl e ↦
        let row = list_row n p0 p1 i n 0 p in
        let (a, b) = list_points_before left (suc i) row (i * n + t) (omega (arith, suc-mul i n)) in
        let (c, d) = list_row_at i n 0 p t (omega arith) (omega arith) in
        subst (λ x. Holds x t (list_points n p0 p1 left (suc i) row)) (sym e) (a ∙ c, b ∙ d)
    | inr later ↦ list_points_at left (suc i) (list_row n p0 p1 i n 0 p) u t later (omega arith) k
  ]

  -- After the loops, entry i * numPoints + j of the two lists is point i of the first polynomial and
  -- point j of the second, for i and j below numPoints.
  pub list_points_lem :
      (p : (ℕ → Point) × (ℕ → Point)) (i j : ℕ)
      → i < n
      → j < n
      → ((list_points n p0 p1 n 0 p).0 (i * n + j) ≡ p0 i)
        × ((list_points n p0 p1 n 0 p).1 (i * n + j) ≡ p1 j)
  list_points_lem p i j h k = list_points_at n 0 p i j (omega arith) (omega arith) k
