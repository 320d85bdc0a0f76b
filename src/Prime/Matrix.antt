-- ===== src/Prime/Matrix.antt =====
-- The matrix operations of `CoeffCtxIntegerPrime_128`, on arrays by row and column.
use extension_field_pcg.Common.{first_or_later}
use extension_field_pcg.Common.{
  ℕ, zero, suc, ◌+◌, ◌%◌, ◌^◌, ◌≤◌, ◌<◌, ◌≡◌, refl, sym, ap, ◌∙◌, subst, arith,
}
use extension_field_pcg.Common.{inl, inr, write, write_self, write_other}
use extension_field_pcg.Prime.Defs.{pr, plus, minus, mul}
use extension_field_pcg.Prime.Arith.{plus-minus}
use extension_field_pcg.Prime.Fill.{fill, fill_at}

-- A matrix by its rows, all of `columns` entries.
pub record Matrix : Type 0 where
  pub rows : ℕ
  pub columns : ℕ
  pub entry : ℕ → ℕ → ℕ

-- A loop over the rows and one over the columns.
unfoldable pub fill_matrix : (ℕ → ℕ → ℕ) → ℕ → ℕ → (ℕ → ℕ → ℕ) → ℕ → ℕ → ℕ
fill_matrix f rows columns ret = fill (λ i row. fill (λ j old. f i j) columns 0 row) rows 0 ret

unfoldable pub matrix_plus : (ℕ → ℕ → ℕ) → Matrix → Matrix → ℕ → ℕ → ℕ
matrix_plus ret a b = fill_matrix (λ i j. plus (a.entry i j) (b.entry i j)) a.rows a.columns ret

unfoldable pub matrix_minus : (ℕ → ℕ → ℕ) → Matrix → Matrix → ℕ → ℕ → ℕ
matrix_minus ret a b = fill_matrix (λ i j. minus (a.entry i j) (b.entry i j)) a.rows a.columns ret

unfoldable pub matrix_scaler : (ℕ → ℕ → ℕ) → ℕ → Matrix → ℕ → ℕ → ℕ
matrix_scaler ret x a = fill_matrix (λ i j. mul x (a.entry i j)) a.rows a.columns ret

-- `ret[j][i] = matrix[i][j]`, row by row of the matrix: the inner loop writes column i of the result.
unfoldable pub transpose_loop : Matrix → ℕ → ℕ → (ℕ → ℕ → ℕ) → ℕ → ℕ → ℕ
transpose_loop a zero i ret = ret
transpose_loop a (suc left) i ret =
    transpose_loop a left (suc i) (fill (λ j row. write row i (a.entry i j)) a.columns 0 ret)

unfoldable pub transpose : (ℕ → ℕ → ℕ) → Matrix → ℕ → ℕ → ℕ
unfolding transpose_loop
transpose ret a = transpose_loop a a.rows 0 ret

-- A matrix is filled entry by entry.
fill_matrix_at :
    (f : ℕ → ℕ → ℕ) (rows columns : ℕ) (ret : ℕ → ℕ → ℕ) (i j : ℕ)
    → i < rows
    → j < columns
    → fill_matrix f rows columns ret i j ≡ f i j
unfolding fill_matrix
fill_matrix_at f rows columns ret i j p q =
    ap (λ row. row j) (fill_at _ rows 0 ret i (omega arith) (omega arith))
    ∙ fill_at _ columns 0 (ret i) j (omega arith) (omega arith)

-- For two matrices of 128-bit entries, `matrix_plus` adds the second one back to their difference by
-- `matrix_minus`: each entry of the first one's rows and columns is its entry modulo 2^127 - 1.
pub matrix_plus-matrix_minus :
    (ret before : ℕ → ℕ → ℕ) (a b : Matrix)
    → ((i j : ℕ) → a.entry i j < 2 ^ 128)
    → ((i j : ℕ) → b.entry i j < 2 ^ 128)
    → (i j : ℕ) → i < a.rows
    → j < a.columns
    → matrix_plus ret (record a { entry = matrix_minus before a b }) b i j ≡ a.entry i j % pr
unfolding matrix_plus matrix_minus
matrix_plus-matrix_minus ret before a b ha hb i j p q =
    fill_matrix_at _ a.rows a.columns ret i j p q
    ∙ ap (λ x. plus x (b.entry i j)) (fill_matrix_at _ a.rows a.columns before i j p q)
    ∙ plus-minus (a.entry i j) (b.entry i j) (ha i j) (hb i j)

-- Column i of a transposed matrix is row i.
transpose_loop_before :
    (a : Matrix) (left i : ℕ) (ret : ℕ → ℕ → ℕ) (j t : ℕ)
    → j < a.columns
    → t < i
    → transpose_loop a left i ret j t ≡ ret j t
unfolding transpose_loop
transpose_loop_before a zero i ret j t p h = refl
transpose_loop_before a (suc left) i ret j t p h =
    transpose_loop_before a left (suc i) _ j t p (omega arith)
    ∙ ap (λ row. row t)
        (fill_at (λ j row. write row i (a.entry i j)) a.columns 0 ret j (omega arith) (omega arith))
    ∙ write_other (ret j) i t _ (omega arith)

transpose_loop_at :
    (a : Matrix) (left i : ℕ) (ret : ℕ → ℕ → ℕ) (j t : ℕ)
    → j < a.columns
    → i ≤ t
    → t < i + left
    → transpose_loop a left i ret j t ≡ a.entry t j
unfolding transpose_loop
transpose_loop_at a zero i ret j t p l u = absurd (omega arith)
transpose_loop_at a (suc left) i ret j t p l u =
    let next = fill (λ j row. write row i (a.entry i j)) a.columns 0 ret in
    elim (first_or_later i t l) [
      | inl e ↦
          subst (λ x. transpose_loop a left (suc i) next j x ≡ a.entry x j) (sym e)
            (transpose_loop_before a left (suc i) next j i p (omega arith)
              ∙ ap (λ row. row i)
                  (fill_at (λ j row. write row i (a.entry i j)) a.columns 0 ret j (omega arith)
                    (omega arith))
              ∙ write_self (ret j) i _)
      | inr later ↦ transpose_loop_at a left (suc i) next j t p later (omega arith)
    ]

-- Transposing twice gives back each entry of the rows and columns of the matrix.
pub transpose-transpose :
    (ret before : ℕ → ℕ → ℕ) (a : Matrix) (i j : ℕ)
    → i < a.rows
    → j < a.columns
    → transpose ret (record { rows = a.columns; columns = a.rows; entry = transpose before a }) i j
      ≡ a.entry i j
unfolding transpose
transpose-transpose ret before a i j p q =
    transpose_loop_at (record { rows = a.columns; columns = a.rows; entry = transpose before a })
      a.columns 0 ret i j p (omega arith) (omega arith)
    ∙ transpose_loop_at a a.rows 0 before j i q (omega arith) (omega arith)
