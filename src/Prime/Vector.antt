-- ===== src/Prime/Vector.antt =====
-- The vector operations of `CoeffCtxIntegerPrime_128`, on arrays by index.
use extension_field_pcg.Common.{ℕ, ◌%◌, ◌^◌, ◌<◌, ◌≡◌, sym, ap, ap₂, ◌∙◌, arith}
use extension_field_pcg.Prime.Defs.{pr, plus, minus, mul}
use extension_field_pcg.Prime.Arith.{plus-minus, mul-plus}
use extension_field_pcg.Prime.Fill.{fill, fill_at}

pub record Vector : Type 0 where
  pub size : ℕ
  pub at : ℕ → ℕ

-- The vector operations: the loops of `vector_plus`, `vector_minus` and `vector_scaler`.
unfoldable pub vector_plus : (ℕ → ℕ) → Vector → Vector → ℕ → ℕ
vector_plus ret vec_a vec_b = fill (λ i old. plus (vec_a.at i) (vec_b.at i)) vec_a.size 0 ret

unfoldable pub vector_minus : (ℕ → ℕ) → Vector → Vector → ℕ → ℕ
vector_minus ret vec_a vec_b = fill (λ i old. minus (vec_a.at i) (vec_b.at i)) vec_a.size 0 ret

unfoldable pub vector_scaler : (ℕ → ℕ) → ℕ → Vector → ℕ → ℕ
vector_scaler ret x vec = fill (λ i old. mul x (vec.at i)) vec.size 0 ret

-- Each entry below the size is the operation's result there.
vector_plus_at :
    (ret : ℕ → ℕ) (a b : Vector) (i : ℕ)
    → i < a.size
    → vector_plus ret a b i ≡ plus (a.at i) (b.at i)
unfolding vector_plus
vector_plus_at ret a b i h = fill_at _ a.size 0 ret i (omega arith) (omega arith)

vector_minus_at :
    (ret : ℕ → ℕ) (a b : Vector) (i : ℕ)
    → i < a.size
    → vector_minus ret a b i ≡ minus (a.at i) (b.at i)
unfolding vector_minus
vector_minus_at ret a b i h = fill_at _ a.size 0 ret i (omega arith) (omega arith)

vector_scaler_at :
    (ret : ℕ → ℕ) (x : ℕ) (a : Vector) (i : ℕ)
    → i < a.size
    → vector_scaler ret x a i ≡ mul x (a.at i)
unfolding vector_scaler
vector_scaler_at ret x a i h = fill_at _ a.size 0 ret i (omega arith) (omega arith)

-- For two vectors of 128-bit entries, `vector_plus` adds the second one back to their difference by
-- `vector_minus`: each entry below the first one's size is its entry modulo 2^127 - 1.
pub vector_plus-vector_minus :
    (ret before : ℕ → ℕ) (a b : Vector)
    → ((i : ℕ) → a.at i < 2 ^ 128)
    → ((i : ℕ) → b.at i < 2 ^ 128)
    → (i : ℕ) → i < a.size
    → vector_plus ret (record { size = a.size; at = vector_minus before a b }) b i ≡ a.at i % pr
vector_plus-vector_minus ret before a b ha hb i h =
    vector_plus_at ret (record { size = a.size; at = vector_minus before a b }) b i h
    ∙ ap (λ x. plus x (b.at i)) (vector_minus_at before a b i h)
    ∙ plus-minus (a.at i) (b.at i) (ha i) (hb i)

-- `vector_scaler` of a `vector_plus` is the `vector_plus` of the two scaled vectors, at each entry, for two
-- vectors of the same size.
pub vector_scaler-vector_plus :
    (ret other left right sum : ℕ → ℕ) (x : ℕ) (a b : Vector)
    → a.size ≡ b.size
    → (i : ℕ) → i < a.size
    → vector_scaler ret x (record { size = a.size; at = vector_plus sum a b }) i
      ≡ vector_plus other
          (record { size = a.size; at = vector_scaler left x a })
          (record { size = b.size; at = vector_scaler right x b })
          i
vector_scaler-vector_plus ret other left right sum x a b e i h =
    vector_scaler_at ret x (record { size = a.size; at = vector_plus sum a b }) i h
    ∙ ap (mul x) (vector_plus_at sum a b i h)
    ∙ mul-plus x (a.at i) (b.at i)
    ∙ sym (
        vector_plus_at other (record { size = a.size; at = vector_scaler left x a })
          (record { size = b.size; at = vector_scaler right x b }) i h
        ∙ ap₂ plus (vector_scaler_at left x a i h)
            (vector_scaler_at right x b i (omega (arith, e))))
