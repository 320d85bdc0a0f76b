-- ===== src/Algebra/Sum.antt =====
-- Finite sums in a ring of characteristic two.
use native.Mathlib.Nat.{suc-mul}
use extension_field_pcg.Common.{
  ℕ, zero, suc, ◌+◌, ◌*◌, ◌<◌, ◌≡◌, refl, sym, ap, ap₂, ◌∙◌, arith, [], ◌∷◌,
}
use extension_field_pcg.Common.{◌≢◌, inl, inr, equal_or_not}
use extension_field_pcg.Loop.{loop, loop_from_zero}
use extension_field_pcg.Algebra.{Ring2, ◌⊕◌, ◌⊗◌, add-nil, add-mul, nil-mul, mul-nil}
use extension_field_pcg.Algebra.Solver.{var, ◌:+◌, solve, norm}

module _ {ℓ} {A : Type ℓ} ⦃r : Ring2 A⦄ where
  unfoldable pub sum : ℕ → (ℕ → A) → A
  sum zero f = r.nil
  sum (suc n) f = sum n f ⊕ f n

  pub sum_congr : (n : ℕ) (f g : ℕ → A) → ((i : ℕ) → i < n → f i ≡ g i) → sum n f ≡ sum n g
  unfolding sum
  sum_congr zero f g h = refl
  sum_congr (suc n) f g h = ap₂ ◌⊕◌ (sum_congr n f g (λ i l. h i (omega arith))) (h n (omega arith))

  pub sum-nil : (n : ℕ) (f : ℕ → A) → ((i : ℕ) → i < n → f i ≡ r.nil) → sum n f ≡ r.nil
  unfolding sum
  sum-nil zero f h = refl
  sum-nil (suc n) f h =
      ap₂ ◌⊕◌ (sum-nil n f (λ i l. h i (omega arith))) (h n (omega arith)) ∙ r.nil-add r.nil

  pub sum-add : (n : ℕ) (f g : ℕ → A) → sum n (λ i. f i ⊕ g i) ≡ sum n f ⊕ sum n g
  unfolding sum norm
  sum-add zero f g = sym (r.nil-add r.nil)
  sum-add (suc n) f g =
      ap (λ t. t ⊕ (f n ⊕ g n)) (sum-add n f g)
      ∙ solve (sum n f ∷ sum n g ∷ f n ∷ g n ∷ []) (var 0 :+ var 1 :+ (var 2 :+ var 3))
          (var 0 :+ var 2 :+ (var 1 :+ var 3)) refl

  pub mul-sum : (x : A) (n : ℕ) (f : ℕ → A) → x ⊗ sum n f ≡ sum n (λ i. x ⊗ f i)
  unfolding sum
  mul-sum x zero f = mul-nil x
  mul-sum x (suc n) f = r.mul-add x (sum n f) (f n) ∙ ap (λ t. t ⊕ x ⊗ f n) (mul-sum x n f)

  pub sum-mul : (n : ℕ) (f : ℕ → A) (x : A) → sum n f ⊗ x ≡ sum n (λ i. f i ⊗ x)
  unfolding sum
  sum-mul zero f x = nil-mul x
  sum-mul (suc n) f x = add-mul (sum n f) (f n) x ∙ ap (λ t. t ⊕ f n ⊗ x) (sum-mul n f x)

  -- The product of two sums.
  pub sum-mul-sum :
      (n m : ℕ) (f g : ℕ → A) → sum n f ⊗ sum m g ≡ sum n (λ i. sum m (λ j. f i ⊗ g j))
  sum-mul-sum n m f g = sum-mul n f (sum m g) ∙ sum_congr n _ _ (λ i l. mul-sum (f i) m g)

  pub sum-append : (n m : ℕ) (f : ℕ → A) → sum (n + m) f ≡ sum n f ⊕ sum m (λ i. f (n + i))
  unfolding sum
  sum-append n zero f =
      ap (λ t. sum t f) {x = n + 0} {y = n} (omega arith) ∙ sym (add-nil (sum n f))
  sum-append n (suc m) f =
      ap (λ t. sum t f) {x = n + suc m} {y = suc (n + m)} (omega arith)
      ∙ ap (λ t. t ⊕ f (n + m)) (sum-append n m f)
      ∙ r.add_assoc (sum n f) (sum m (λ i. f (n + i))) (f (n + m))

  -- A sum over pairs, row by row.
  pub sum-pairs : (n m : ℕ) (f : ℕ → A) → sum (n * m) f ≡ sum n (λ i. sum m (λ j. f (i * m + j)))
  unfolding sum
  sum-pairs zero m f = ap (λ t. sum t f) {x = 0 * m} {y = 0} (omega arith)
  sum-pairs (suc n) m f =
      ap (λ t. sum t f) {x = suc n * m} {y = n * m + m} (suc-mul n m)
      ∙ sum-append (n * m) m f
      ∙ ap (λ t. t ⊕ sum m (λ j. f (n * m + j))) (sum-pairs n m f)

  -- A loop whose rounds each add a term to every entry of an array.
  pub loop-sum :
      (body : ℕ → (ℕ → A) → ℕ → A) (g : ℕ → ℕ → A) (n : ℕ) (a : ℕ → A)
      → ((i : ℕ) (s : ℕ → A) (t : ℕ) → i < n → body i s t ≡ s t ⊕ g i t)
      → (t : ℕ) → loop body n 0 a t ≡ a t ⊕ sum n (λ i. g i t)
  unfolding sum
  loop-sum body g n a h t =
      loop_from_zero (λ j s. s t ≡ a t ⊕ sum j (λ i. g i t)) body n a
        (λ j s l p.
          h j s t l ∙ ap (λ x. x ⊕ g j t) p ∙ r.add_assoc (a t) (sum j (λ i. g i t)) (g j t))
        (sym (add-nil (a t)))

  -- The same for a loop with one accumulator.
  pub loop-sum_one :
      (body : ℕ → A → A) (g : ℕ → A) (n : ℕ) (a : A)
      → ((i : ℕ) (s : A) → i < n → body i s ≡ s ⊕ g i)
      → loop body n 0 a ≡ a ⊕ sum n g
  unfolding sum
  loop-sum_one body g n a h =
      loop_from_zero (λ j s. s ≡ a ⊕ sum j g) body n a
        (λ j s l p. h j s l ∙ ap (λ x. x ⊕ g j) p ∙ r.add_assoc a (sum j g) (g j)) (sym (add-nil a))

  -- A sum with one term that counts.
  pub sum_single :
      (n q : ℕ) (f : ℕ → A) → q < n → ((i : ℕ) → i < n → i ≢ q → f i ≡ r.nil) → sum n f ≡ f q
  unfolding sum
  sum_single zero q f l h = absurd (omega arith)
  sum_single (suc n) q f l h = elim (equal_or_not q n) [
    | inl e ↦
        ap (λ t. t ⊕ f n) (sum-nil n f (λ i m. h i (omega arith) (omega arith)))
        ∙ r.nil-add (f n)
        ∙ ap f (sym e)
    | inr d ↦
        ap₂ ◌⊕◌ (sum_single n q f (omega arith) (λ i m. h i (omega arith)))
          (h n (omega arith) (omega arith))
        ∙ add-nil (f q)
  ]
