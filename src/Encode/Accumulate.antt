-- ===== src/Encode/Accumulate.antt =====
-- The accumulation loops of test.h, and `EA_encode_test_PCS`, for a context whose coefficients form a ring
-- of characteristic two. The random matrix and its columns are arguments.
use extension_field_pcg.Common.{
  ℕ, suc, ◌+◌, ◌-◌, ◌*◌, ◌==◌, ◌≤◌, ◌<◌, ◌≡◌, ◌≢◌, refl, sym, ap, ap₂, ◌∙◌, arith, if◌then◌else◌,
}
use extension_field_pcg.Common.{write, write_self, write_other, equal_or_not, inl, inr}
use extension_field_pcg.Loop.{loop, loop_rule}
use extension_field_pcg.Algebra.{Ring2, ◌⊕◌, ◌⊗◌, add-nil}
use extension_field_pcg.Algebra.Sum.{sum, sum_congr, loop-sum}

module _ {ℓ} {A : Type ℓ} ⦃r : Ring2 A⦄ where
  -- `for (i = 1; i < length; i++) plus(x[i], x[i], x[i - 1]);`, in one of the encoders with the operands
  -- exchanged.
  unfoldable pub accumulate : ℕ → (ℕ → A) → ℕ → A
  accumulate length x = loop (λ i s. write s i (s i ⊕ s (i - 1))) (length - 1) 1 x

  -- Each entry becomes the sum of those up to it, and the others stay.
  accumulate_from :
      (rounds : ℕ) (x : ℕ → A) (t : ℕ)
      → (t < 1 + rounds → loop (λ i s. write s i (s i ⊕ s (i - 1))) rounds 1 x t ≡ sum (suc t) x)
        × (1 + rounds ≤ t → loop (λ i s. write s i (s i ⊕ s (i - 1))) rounds 1 x t ≡ x t)
  unfolding sum
  accumulate_from rounds x t =
      loop_rule (λ j s. (t : ℕ) → (t < j → s t ≡ sum (suc t) x) × (j ≤ t → s t ≡ x t))
        (λ i s. write s i (s i ⊕ s (i - 1))) rounds 1 x
        (λ j s l u before t. (
          λ h. elim (equal_or_not t j) [
            | inl e ↦
                ap (write s j (s j ⊕ s (j - 1))) e
                ∙ write_self s j _
                ∙ next j s l before
                ∙ ap (λ i. sum (suc i) x) (sym e)
            | inr d ↦ write_other s j t _ d ∙ (before t).0 (omega arith)
          ],
          λ h. write_other s j t _ (omega arith) ∙ (before t).1 (omega arith),
        ))
        (λ t. (
          λ h.
              (ap x {x = t} {y = 0} (omega arith)
                ∙ first
                ∙ ap (λ i. sum (suc i) x) {x = 0} {y = t} (omega arith)),
          λ h. refl,
        ))
        t
    where
      first : x 0 ≡ sum 1 x
      first = sym (r.nil-add (x 0))

      next :
          (j : ℕ) (s : ℕ → A)
          → 1 ≤ j
          → ((t : ℕ) → (t < j → s t ≡ sum (suc t) x) × (j ≤ t → s t ≡ x t))
          → s j ⊕ s (j - 1) ≡ sum (suc j) x
      next j s l before =
          ap₂ ◌⊕◌ ((before j).1 (omega arith)) (
            (before (j - 1)).0 (omega arith)
            ∙ ap (λ i. sum i x) {x = suc (j - 1)} {y = j} (omega arith))
          ∙ r.add_comm (x j) (sum j x)

  pub accumulate_lem :
      (length : ℕ) (x : ℕ → A) (t : ℕ) → t < length → accumulate length x t ≡ sum (suc t) x
  unfolding accumulate
  accumulate_lem length x t h = (accumulate_from (length - 1) x t).0 (omega arith)

  -- `codeword[column] += matrix * message[i]`, for the entries of the matrix row by row.
  unfoldable pub expand_rows : ℕ → ℕ → (ℕ → ℕ) → (ℕ → A) → (ℕ → A) → (ℕ → A) → ℕ → A
  expand_rows n nonzero_column matrix_column matrix message codeword =
      loop
        (λ i s.
          loop
            (λ j u.
              let at = i * nonzero_column + j in
              write u (matrix_column at) (u (matrix_column at) ⊕ matrix at ⊗ message i))
            nonzero_column 0 s)
        n 0 codeword

  -- `EA_encode_test_PCS`.
  unfoldable pub ea_encode : ℕ → ℕ → ℕ → (ℕ → ℕ) → (ℕ → A) → (ℕ → A) → ℕ → A
  ea_encode n nonzero_column inverse_rate matrix_column matrix message =
      let length = n * inverse_rate in
      accumulate length (expand_rows n nonzero_column matrix_column matrix message (λ i. r.nil))

  -- v at the column, and zero elsewhere.
  abbrev pub at_column : ℕ → A → ℕ → A
  at_column column v t = if t == column then v else r.nil

  write-at_column :
      (s : ℕ → A) (i : ℕ) (v : A) (t : ℕ) → write s i (s i ⊕ v) t ≡ s t ⊕ at_column i v t
  write-at_column s i v t = elim (equal_or_not t i) [
    | inl e ↦
        ap (write s i (s i ⊕ v)) e
        ∙ write_self s i (s i ⊕ v)
        ∙ sym (ap₂ ◌⊕◌ (ap s e) (at_column_self i v t e))
    | inr d ↦
        write_other s i t (s i ⊕ v) d
        ∙ sym (add-nil (s t))
        ∙ ap (λ b. s t ⊕ b) (sym (at_column_other i v t d))
  ]
    where
      at_column_self : (i : ℕ) (v : A) (t : ℕ) → t ≡ i → at_column i v t ≡ v
      at_column_self i v t e = ground arith

      at_column_other : (i : ℕ) (v : A) (t : ℕ) → t ≢ i → at_column i v t ≡ r.nil
      at_column_other i v t d = ground arith

  expand_rows_lem :
      (n w : ℕ) (column : ℕ → ℕ) (matrix message codeword : ℕ → A) (t : ℕ)
      → expand_rows n w column matrix message codeword t
        ≡ codeword t
          ⊕ sum n
              (λ i. sum w (λ j. at_column (column (i * w + j)) (matrix (i * w + j) ⊗ message i) t))
  unfolding expand_rows
  expand_rows_lem n w column matrix message codeword t =
      loop-sum _ _ n codeword
        (λ i s x l.
          loop-sum _ (λ j. at_column (column (i * w + j)) (matrix (i * w + j) ⊗ message i)) w s
            (λ j u y m. write-at_column u (column (i * w + j)) (matrix (i * w + j) ⊗ message i) y)
            x)
        t

  -- Entry t of the codeword is the sum of all entries up to t of the product of the message with the
  -- sparse matrix, whose rows have `nonzero_column` entries at the given columns; two entries at one column
  -- add up.
  pub ea_encode_lem :
      (n nonzero_column inverse_rate : ℕ) (matrix_column : ℕ → ℕ) (matrix message : ℕ → A) (t : ℕ)
      → t < n * inverse_rate
      → ea_encode n nonzero_column inverse_rate matrix_column matrix message t
        ≡ sum (suc t) (λ s. sum n (λ i. sum nonzero_column (λ j.
          at_column
            (matrix_column (i * nonzero_column + j))
            (matrix (i * nonzero_column + j) ⊗ message i)
            s)))
  unfolding ea_encode
  ea_encode_lem n w inverse_rate column matrix message t h =
      accumulate_lem (n * inverse_rate) _ t h
      ∙ sum_congr (suc t) _ _
          (λ s l. expand_rows_lem n w column matrix message (λ i. r.nil) s ∙ r.nil-add _)
