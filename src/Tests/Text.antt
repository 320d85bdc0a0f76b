-- ===== src/Tests/Text.antt =====
-- Text, vectors and matrices over the prime field at concrete inputs.
use extension_field_pcg.Common.{ℕ, ◌+◌, ◌*◌, ◌^◌, ◌≡◌, ◌≤◌, refl, [], ◌∷◌, arith}
use extension_field_pcg.Prime.Text.{str, str_loop, is_positive, IsDecimal, str-IsDecimal}
use extension_field_pcg.Common.{◌<◌, some}
use extension_field_pcg.Prime.Memory.{
  bytes_of, numbers_in, serialize, deserialize, deserialize-serialize,
}
use extension_field_pcg.Prime.Bytes.{zero_range, one_range, one_range_lem}

str_test : str 907 ≡ 57 ∷ 48 ∷ 55 ∷ []
unfolding str str_loop is_positive
str_test = refl

str-IsDecimal_example : IsDecimal (2 ^ 100) (str (2 ^ 100))
str-IsDecimal_example = str-IsDecimal (2 ^ 100) (omega arith) (omega arith)

abbrev empty : ℕ → ℕ → ℕ
empty i j = 0

deserialize-serialize_example :
    (b : ℕ → ℕ) × (m : ℕ → ℕ) × (serialize 16 1 3
        (λ i. 64 + i * 16)
        (λ i. 512 + i * 1)
        (bytes_of 16 (λ i. i * 1000))
        (λ a. 7)
      ≡ some b)
    × (deserialize 1 16 48 (λ i. 512 + i * 1) (λ i. 256 + i * 16) b (λ a. 9) ≡ some m)
    × ((i : ℕ) → i < 3 → numbers_in 16 m i ≡ i * 1000)
deserialize-serialize_example =
    deserialize-serialize 3 (λ i. i * 1000) (λ a. 7) (λ a. 9) (λ i. 64 + i * 16) (λ i. 512 + i * 1)
      (λ i. 256 + i * 16) (omega arith) (λ i h. omega arith) (λ i. omega arith) (λ i. omega arith)
      (λ i. omega arith)

one_range_lem_example :
    ((i : ℕ)
      → i < 3
      → (numbers_in 16 (zero_range 16 3 (λ a. 7)) i ≡ 0)
        × (numbers_in 16 (one_range 16 3 (λ a. 7)) i ≡ 1))
    × ((a : ℕ) → 3 * 16 ≤ a → (zero_range 16 3 (λ b. 7) a ≡ 7) × (one_range 16 3 (λ b. 7) a ≡ 7))
one_range_lem_example = one_range_lem 16 3 (λ a. 7) (omega arith) (omega arith)
