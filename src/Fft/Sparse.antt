-- ===== src/Fft/Sparse.antt =====
-- The transform of sparse arrays, as sums of single blocks, and of their products.
use extension_field_pcg.Common.{
  ℕ, zero, suc, ◌+◌, ◌*◌, ◌/◌, ◌^◌, ◌≤◌, ◌<◌, ◌≡◌, refl, sym, ap, ap₂, ◌∙◌, arith,
}
use extension_field_pcg.Algebra.{◌⊕◌, ◌⊗◌}
use extension_field_pcg.Algebra.Cube.{Cube, Triple-eq, cube_ring, evaluate}
use extension_field_pcg.Algebra.Cube.Linear.{evaluate-nil, evaluate-add}
use extension_field_pcg.Algebra.Sum.{sum, sum_congr, sum-mul-sum}
use extension_field_pcg.F4.Ring.{Block, f4_ring}
use extension_field_pcg.Fft.Defs.{Store}
use extension_field_pcg.Fft.Root.{root}
use extension_field_pcg.Fft.View.{cube, cube_congr, cube_at}
use extension_field_pcg.Fft.Inverse.{IsForwardFft}
use extension_field_pcg.Fft.Ternary.{IsTernary}
use extension_field_pcg.Fft.Spike.{spike, values, cube-nil, values-spike_add}

cube-add :
    (k base : ℕ) (a b : Store)
    → cube k base (λ t. a t ⊕ b t) ≡ (cube_ring f4_ring k).add (cube k base a) (cube k base b)
cube-add zero base a b = refl
cube-add (suc k) base a b =
    Triple-eq (cube-add k base a b) (cube-add k (base + 3 ^ k) a b)
      (cube-add k (base + 2 * 3 ^ k) a b)

cube-mul :
    (k base : ℕ) (a b : Store)
    → cube k base (λ t. a t ⊗ b t) ≡ (cube_ring f4_ring k).mul (cube k base a) (cube k base b)
cube-mul zero base a b = refl
cube-mul (suc k) base a b =
    Triple-eq (cube-mul k base a b) (cube-mul k (base + 3 ^ k) a b)
      (cube-mul k (base + 2 * 3 ^ k) a b)

values-add :
    (k base : ℕ) (a b : Store)
    → values k base (λ t. a t ⊕ b t) ≡ (cube_ring f4_ring k).add (values k base a) (values k base b)
values-add k base a b =
    ap (λ c. evaluate f4_ring root k c) (cube-add k base a b)
    ∙ evaluate-add f4_ring root k (cube k base a) (cube k base b)

-- A transform that evaluates keeps sums.
pub foleage_fft-add :
    (foleage_fft : ℕ → ℕ → ℕ → Store → Store)
    → IsForwardFft foleage_fft
    → (k : ℕ) (a b : Store) (t : ℕ) → t < 3 ^ k
    → foleage_fft k (3 ^ k / 3) 0 (λ i. a i ⊕ b i) t
      ≡ foleage_fft k (3 ^ k / 3) 0 a t ⊕ foleage_fft k (3 ^ k / 3) 0 b t
foleage_fft-add fft forward k a b t l =
    let f = fft k (3 ^ k / 3) 0 in
    cube_at k 0 (f (λ i. a i ⊕ b i)) (λ i. f a i ⊕ f b i)
      (forward.evaluates k 0 (λ i. a i ⊕ b i)
        ∙ values-add k 0 a b
        ∙ sym (ap₂ (cube_ring f4_ring k).add (forward.evaluates k 0 a) (forward.evaluates k 0 b))
        ∙ sym (cube-add k 0 (f a) (f b)))
      t (omega arith) (omega arith)

abbrev cube_sum : (k : ℕ) → ℕ → (ℕ → Cube Block k) → Cube Block k
cube_sum k n f = sum ⦃r = cube_ring f4_ring k⦄ n f

values-sum :
    (k base n : ℕ) (f : ℕ → Store)
    → values k base (λ t. sum n (λ i. f i t)) ≡ cube_sum k n (λ i. values k base (f i))
unfolding sum
values-sum k base zero f =
    ap (λ c. evaluate f4_ring root k c) (cube-nil k base) ∙ evaluate-nil f4_ring root k
values-sum k base (suc n) f =
    values-add k base (λ t. sum n (λ i. f i t)) (f n)
    ∙ ap (λ c. (cube_ring f4_ring k).add c (values k base (f n))) (values-sum k base n f)

-- A sparse array: n blocks at given places.
abbrev pub sparse : ℕ → (ℕ → ℕ) → Store → Store
sparse n place coeff t = sum n (λ i. spike (place i) (coeff i) t)

-- The blocks of the product of two sparse polynomials, whose exponents are added by `add`.
abbrev pub sparse_product : (ℕ → ℕ → ℕ) → ℕ → (ℕ → ℕ) → Store → (ℕ → ℕ) → Store → Store
sparse_product add n place0 coeff0 place1 coeff1 t =
    sum n (λ i. sum n (λ j. spike (add (place0 i) (place1 j)) (coeff0 i ⊗ coeff1 j) t))

module _ (add : ℕ → ℕ → ℕ) (ternary : IsTernary add) (k n : ℕ) (small : k ≤ 32)
    (place0 place1 : ℕ → ℕ) (coeff0 coeff1 : Store) (within0 : (i : ℕ) → i < n → place0 i < 3 ^ k)
    (within1 : (i : ℕ) → i < n → place1 i < 3 ^ k) where
  values-sparse_product :
      values k 0 (sparse_product add n place0 coeff0 place1 coeff1)
      ≡ (cube_ring f4_ring k).mul
          (values k 0 (sparse n place0 coeff0))
          (values k 0 (sparse n place1 coeff1))
  values-sparse_product =
      values-sum k 0 n _
      ∙ sum_congr ⦃r = cube_ring f4_ring k⦄ n _ _ (λ i l.
        values-sum k 0 n _ ∙ sum_congr ⦃r = cube_ring f4_ring k⦄ n _ _ (λ j m. one_pair i j l m))
      ∙ sym (sum-mul-sum ⦃r = cube_ring f4_ring k⦄ n n _ _)
      ∙ sym (ap₂ (cube_ring f4_ring k).mul (values-sum k 0 n _) (values-sum k 0 n _))
    where
      flat : (t : ℕ) → t ≡ 0 + t
      flat t = omega arith

      one_pair :
          (i j : ℕ)
          → i < n
          → j < n
          → values k 0 (spike (add (place0 i) (place1 j)) (coeff0 i ⊗ coeff1 j))
            ≡ (cube_ring f4_ring k).mul
                (values k 0 (spike (place0 i) (coeff0 i)))
                (values k 0 (spike (place1 j) (coeff1 j)))
      one_pair i j l m =
          ap (λ t. values k 0 (spike t (coeff0 i ⊗ coeff1 j))) (flat (add (place0 i) (place1 j)))
          ∙ values-spike_add add ternary k (place0 i) (place1 j) (coeff0 i) (coeff1 j) small
              (within0 i l) (within1 j m) 0 0 0
          ∙ ap₂
              (λ s t.
                (cube_ring f4_ring k).mul (values k 0 (spike s (coeff0 i)))
                  (values k 0 (spike t (coeff1 j))))
              (sym (flat (place0 i))) (sym (flat (place1 j)))

  -- Shares of the product: after a transform that evaluates, they add up to the product of the
  -- transforms of the two sparse arrays, block by block.
  pub fft-sparse_product :
      (foleage_fft : ℕ → ℕ → ℕ → Store → Store)
      → IsForwardFft foleage_fft
      → (a b s0 s1 : Store)
      → ((t : ℕ) → t < 3 ^ k → a t ⊕ b t ≡ sparse_product add n place0 coeff0 place1 coeff1 t)
      → ((t : ℕ) → t < 3 ^ k → s0 t ≡ sparse n place0 coeff0 t)
      → ((t : ℕ) → t < 3 ^ k → s1 t ≡ sparse n place1 coeff1 t)
      → (t : ℕ) → t < 3 ^ k
      → foleage_fft k (3 ^ k / 3) 0 a t ⊕ foleage_fft k (3 ^ k / 3) 0 b t
        ≡ foleage_fft k (3 ^ k / 3) 0 s0 t ⊗ foleage_fft k (3 ^ k / 3) 0 s1 t
  fft-sparse_product fft forward a b s0 s1 shares h0 h1 t l =
      let f = fft k (3 ^ k / 3) 0 in
      cube_at k 0 (λ t. f a t ⊕ f b t) (λ t. f s0 t ⊗ f s1 t)
        (cube-add k 0 (f a) (f b)
          ∙ ap₂ (cube_ring f4_ring k).add (forward.evaluates k 0 a) (forward.evaluates k 0 b)
          ∙ sym (values-add k 0 a b)
          ∙ ap (λ c. evaluate f4_ring root k c) (same (λ t. a t ⊕ b t) _ shares)
          ∙ values-sparse_product
          ∙ ap₂ (cube_ring f4_ring k).mul (sym (ap (λ c. evaluate f4_ring root k c) (same s0 _ h0)))
              (sym (ap (λ c. evaluate f4_ring root k c) (same s1 _ h1)))
          ∙ sym
              (ap₂ (cube_ring f4_ring k).mul (forward.evaluates k 0 s0) (forward.evaluates k 0 s1))
          ∙ sym (cube-mul k 0 (f s0) (f s1)))
        t (omega arith) (omega arith)
    where
      same : (x y : Store) → ((t : ℕ) → t < 3 ^ k → x t ≡ y t) → cube k 0 x ≡ cube k 0 y
      same x y h = cube_congr k 0 x y (λ t l. h (0 + t) (omega arith))
