-- ===== src/Algebra/Scatter.antt =====
-- Weighted sums of an array that is filled at given places.
use extension_field_pcg.Common.{
  ℕ, ◌<◌, true, false, ◌==◌, if◌then◌else◌, ◌≡◌, ◌≢◌, refl, sym, ap, ap₂, ◌∙◌, subst, arith, write,
  write_self, write_other, equal_or_not, inl, inr,
}
use extension_field_pcg.Loop.{loop_from_zero, scatter}
use extension_field_pcg.Algebra.{Ring2, ◌⊕◌, ◌⊗◌, add-nil, mul-nil}
use extension_field_pcg.Algebra.Sum.{sum, sum_congr, sum-nil, sum-add, sum_single}

-- A weighted sum after one entry that was zero is set.
sum-write :
    {A : Type 0} ⦃r : Ring2 A⦄ (n q : ℕ) (p a : ℕ → A) (v : A)
    → q < n
    → a q ≡ r.nil
    → sum n (λ j. p j ⊗ write a q v j) ≡ sum n (λ j. p j ⊗ a j) ⊕ p q ⊗ v
sum-write {A} ⦃r⦄ n q p a v l e =
    sum_congr n _ (λ j. p j ⊗ a j ⊕ only j) (λ j m. split j)
    ∙ sum-add n _ only
    ∙ ap (λ x. sum n (λ j. p j ⊗ a j) ⊕ x)
        (sum_single n q only l (λ j m d. ap (λ b. if b then p q ⊗ v else r.nil) (differ j q d))
          ∙ ap (λ b. if b then p q ⊗ v else r.nil) (same q))
  where
    only : ℕ → A
    only j = if j == q then p q ⊗ v else r.nil

    same : (j : ℕ) → (j == j) ≡ true
    same j = ground arith

    differ : (j k : ℕ) → j ≢ k → (j == k) ≡ false
    differ j k d = ground arith

    split : (j : ℕ) → p j ⊗ write a q v j ≡ p j ⊗ a j ⊕ only j
    split j = elim (equal_or_not j q) [
      | inl here ↦
          subst (λ x. p x ⊗ write a q v x ≡ p x ⊗ a x ⊕ only x) (sym here)
            (ap (λ x. p q ⊗ x) (write_self a q v)
              ∙ sym (
                  ap₂ ◌⊕◌ (ap (λ x. p q ⊗ x) e ∙ mul-nil (p q))
                    (ap (λ b. if b then p q ⊗ v else r.nil) (same q))
                  ∙ r.nil-add (p q ⊗ v)))
      | inr other ↦
          ap (λ x. p j ⊗ x) (write_other a q j v other)
          ∙ sym (
              ap (λ b. p j ⊗ a j ⊕ (if b then p q ⊗ v else r.nil)) (differ j q other)
              ∙ add-nil (p j ⊗ a j))
    ]

-- A weighted sum of what is put to distinct places below n, from zero on.
pub sum-scatter :
    {A : Type 0} ⦃r : Ring2 A⦄ (n : ℕ) (p : ℕ → A) (s : ℕ → ℕ) (c : ℕ → A) (count : ℕ)
    → ((t : ℕ) → t < count → s t < n)
    → ((t u : ℕ) → t < count → u < count → s t ≡ s u → t ≡ u)
    → sum n (λ j. p j ⊗ scatter s c count (λ i. r.nil) j) ≡ sum count (λ t. p (s t) ⊗ c t)
unfolding scatter sum
sum-scatter ⦃r⦄ n p s c count inside distinct =
    (loop_from_zero
      (λ j a.
        (sum n (λ i. p i ⊗ a i) ≡ sum j (λ t. p (s t) ⊗ c t))
        × ((q : ℕ) → ((t : ℕ) → t < j → q ≢ s t) → a q ≡ r.nil))
      (λ i a. write a (s i) (c i)) count (λ i. r.nil)
      (λ j a l (e, free). (
        sum-write n (s j) p a (c j) (inside j l)
              (free (s j) (λ t m d. absurd (omega (arith, distinct j t l (omega arith) d))))
            ∙ ap (λ x. x ⊕ p (s j) ⊗ c j) e,
        λ q avoids.
            write_other a (s j) q (c j) (avoids j (omega arith))
            ∙ free q (λ t m. avoids t (omega arith)),
      ))
      (sum-nil n _ (λ i l. mul-nil (p i)), λ q avoids. refl)).0
