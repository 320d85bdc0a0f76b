-- ===== src/Prime/Memory.antt =====
-- Elements of `CoeffCtxIntegerPrime_128` in memory: `binaryDecomposition`, `fromBlock`, `serialize` and
-- `deserialize` of Coeff128.h. A buffer is the sequence of its bytes, and a number its digits, lowest first.
use native.Mathlib.Nat.{
  pow-zero, pow-succ', div-div-eq-div-mul, mod-add-div, div-one, div-lt_iff_lt-mul, mul_comm,
  mul-add-div_right, mul-add-mod_self_right, mod-eq_of_lt, div-eq_of_lt, suc-mul, mul-le-mul_right,
  mul-mod_left, mul-div_left,
}
use extension_field_pcg.Common.{
  ℕ, zero, suc, ◌+◌, ◌-◌, not, ◌*◌, ◌/◌, ◌%◌, ◌^◌, ◌==◌, ltb, lt→ltb, ◌≤◌, ◌<◌, ◌≡◌, refl, sym, ap,
  ap₂, ◌∙◌, arith, true, false, Option, none, some, if◌then◌else◌,
}

-- The number with the first n digits d.
unfoldable pub of_digits : ℕ → ℕ → (ℕ → ℕ) → ℕ
of_digits base zero d = 0
of_digits base (suc n) d = d 0 + base * of_digits base n (λ k. d (suc k))

pub of_digits_congr :
    (base n : ℕ) (d e : ℕ → ℕ)
    → ((k : ℕ) → k < n → d k ≡ e k)
    → of_digits base n d ≡ of_digits base n e
unfolding of_digits
of_digits_congr base zero d e h = refl
of_digits_congr base (suc n) d e h =
    ap₂ (λ x y. x + base * y) (h 0 (omega arith))
      (of_digits_congr base n _ _ (λ k l. h (suc k) (omega arith)))

-- A number below base^n from its first n digits.
of_digits_lem :
    (base n x : ℕ) → 0 < base → x < base ^ n → of_digits base n (λ k. x / base ^ k % base) ≡ x
unfolding of_digits
of_digits_lem base zero x pos h = omega (arith, h, pow-zero base)
of_digits_lem base (suc n) x pos h =
    ap₂ (λ y z. y % base + base * z) (ap (λ y. x / y) (pow-zero base) ∙ div-one x)
      (of_digits_congr base n _ _ (λ k l.
          ap (λ y. x / y % base) (pow-succ' base k)
          ∙ ap (λ y. y % base) (sym (div-div-eq-div-mul x base (base ^ k))))
        ∙ of_digits_lem base n (x / base) pos (
            (div-lt_iff_lt-mul {k = base} {x = x} {y = base ^ n} pos).1
              (omega (arith, h, pow-succ' base n, mul_comm base (base ^ n)))))
    ∙ mod-add-div x base

-- `binaryDecomposition(x)[i]`, of which there are 128.
unfoldable pub binary_decomposition : ℕ → ℕ → ℕ
binary_decomposition x i = x / 2 ^ i % 2

-- The bits of a 128-bit number add up to it, as the comment says: x = sum 2^i * binaryDecomposition(x)[i].
pub of_digits-binary_decomposition :
    (x : ℕ) → x < 2 ^ 128 → of_digits 2 128 (binary_decomposition x) ≡ x
unfolding binary_decomposition
of_digits-binary_decomposition x h = of_digits_lem 2 128 x (omega arith) h

-- The bytes of a sequence of numbers of `size` bytes each, and the numbers that bytes hold.
unfoldable pub bytes_of : ℕ → (ℕ → ℕ) → ℕ → ℕ
bytes_of size v a = v (a / size) / 256 ^ (a % size) % 256

unfoldable pub numbers_in : ℕ → (ℕ → ℕ) → ℕ → ℕ
numbers_in size b i = of_digits 256 size (λ k. b (i * size + k))

-- `deserialize` of `src_count` elements: the destination's bytes from dstBegin on, or none where the code
-- terminates. `src_at` and `dst_at` are the addresses of the elements that the iterators point to.
unfoldable pub deserialize : ℕ → ℕ → ℕ → (ℕ → ℕ) → (ℕ → ℕ) → (ℕ → ℕ) → (ℕ → ℕ) → Option (ℕ → ℕ)
deserialize src_size dst_size src_count src_at dst_at src dst =
    let n = src_count * src_size in
    let dst_count = n / dst_size in
    if src_count == 0
    then some dst
    else if not (n % dst_size == 0)
    then none
    else if not (dst_at 0 + (n - dst_size) == dst_at (dst_count - 1))
    then none
    else if not (src_at 0 + (n - src_size) == src_at (src_count - 1))
    then none
    else some (λ a. if ltb a n then src a else dst a)

-- `serialize`, which calls it.
unfoldable pub serialize : ℕ → ℕ → ℕ → (ℕ → ℕ) → (ℕ → ℕ) → (ℕ → ℕ) → (ℕ → ℕ) → Option (ℕ → ℕ)
serialize src_size dst_size src_count src_at dst_at src dst =
    deserialize src_size dst_size src_count src_at dst_at src dst

-- Elements of `size` bytes that lie one behind the other.
abbrev pub IsContiguous : ℕ → (ℕ → ℕ) → Type 0
IsContiguous size at = (i : ℕ) → at i ≡ at 0 + i * size

numbers_in-bytes_of :
    (size n : ℕ) (v b : ℕ → ℕ) (i : ℕ)
    → 0 < size
    → i < n
    → v i < 256 ^ size
    → ((a : ℕ) → a < n * size → b a ≡ bytes_of size v a)
    → numbers_in size b i ≡ v i
unfolding numbers_in bytes_of
numbers_in-bytes_of size n v b i pos l h same =
    of_digits_congr 256 size _ _ (λ k m.
      same (i * size + k) (within k m)
      ∙ ap₂ (λ x y. v x / 256 ^ y % 256)
          (mul-add-div_right pos i k ∙ ap (λ x. i + x) (div-eq_of_lt m) ∙ (omega arith))
          (mul-add-mod_self_right i size k ∙ mod-eq_of_lt m))
    ∙ of_digits_lem 256 size (v i) (omega arith) h
  where
    within : (k : ℕ) → k < size → i * size + k < n * size
    within k m =
        let up : suc i * size ≤ n * size = mul-le-mul_right size l in
        omega (arith, suc-mul i size, up)

copied_bytes_at :
    (n : ℕ) (src dst : ℕ → ℕ) (a : ℕ) → a < n → (if ltb a n then src a else dst a) ≡ src a
copied_bytes_at n src dst a h = ap (λ t. if t then src a else dst a) (lt→ltb a n h)

not_zero : (n : ℕ) → 0 < n → (n == 0) ≡ false
not_zero n h = ground arith

is_zero : (n : ℕ) → n ≡ 0 → (n == 0) ≡ true
is_zero n h = ground arith

-- The last of n elements that lie one behind the other.
last-test :
    (size n : ℕ) (at : ℕ → ℕ)
    → 0 < n
    → IsContiguous size at
    → not (at 0 + (n * size - size) == at (n - 1)) ≡ false
last-test size n at pos row =
    ap not (is_equal _ _ (ap (λ z. at 0 + z) (sym (sub_one n size pos)) ∙ sym (row (n - 1))))
  where
    is_equal : (a b : ℕ) → a ≡ b → (a == b) ≡ true
    is_equal a b e = ground arith

    sub_one : (k z : ℕ) → 0 < k → (k - 1) * z ≡ k * z - z
    sub_one zero z h = absurd (omega arith)
    sub_one (suc k) z h =
        ap (λ x. x * z) {x = suc k - 1} {y = k} (omega arith) ∙ omega (arith, suc-mul k z)

-- A buffer of whole elements on both sides is copied, if both lie one behind the other.
pub deserialize-some :
    (src_size dst_size src_count dst_count : ℕ) (src_at dst_at src dst : ℕ → ℕ)
    → 0 < src_count
    → 0 < dst_count
    → 0 < dst_size
    → src_count * src_size ≡ dst_count * dst_size
    → IsContiguous src_size src_at
    → IsContiguous dst_size dst_at
    → deserialize src_size dst_size src_count src_at dst_at src dst
      ≡ some (λ a. if ltb a (src_count * src_size) then src a else dst a)
unfolding deserialize
deserialize-some src_size dst_size src_count dst_count src_at dst_at src dst pos dst_pos size_pos h
      src_row dst_row =
    rw
      (
        not_zero src_count pos,
        ap not (
            is_zero (src_count * src_size % dst_size)
              (ap (λ n. n % dst_size) h ∙ mul-mod_left dst_count dst_size)),
        ap₂ (λ n k. not (dst_at 0 + (n - dst_size) == dst_at (k - 1))) h
              (ap (λ n. n / dst_size) h ∙ mul-div_left dst_count size_pos)
            ∙ last-test dst_size dst_count dst_at dst_pos dst_row,
        last-test src_size src_count src_at pos src_row,
      )
      refl

-- What `serialize` writes of n elements of 128 bits, `deserialize` reads back, for n above 0 and iterators over
-- elements and bytes that lie one behind the other: neither terminates, and the elements are again those that
-- were written, whatever the two buffers held.
pub deserialize-serialize :
    (n : ℕ) (v buffer memory from_at bytes_at to_at : ℕ → ℕ)
    → 0 < n
    → ((i : ℕ) → i < n → v i < 2 ^ 128)
    → IsContiguous 16 from_at
    → IsContiguous 1 bytes_at
    → IsContiguous 16 to_at
    → (b : ℕ → ℕ) × (m : ℕ → ℕ) × (serialize 16 1 n from_at bytes_at (bytes_of 16 v) buffer
        ≡ some b)
      × (deserialize 1 16 (n * 16) bytes_at to_at b memory ≡ some m)
      × ((i : ℕ) → i < n → numbers_in 16 m i ≡ v i)
unfolding serialize
deserialize-serialize n v buffer memory from_at bytes_at to_at pos h from_row bytes_row to_row =
    let b : ℕ → ℕ = λ a. if ltb a (n * 16) then bytes_of 16 v a else buffer a in
    let m : ℕ → ℕ = λ a. if ltb a (n * 16 * 1) then b a else memory a in
    (
      b,
      m,
      deserialize-some 16 1 n (n * 16) from_at bytes_at (bytes_of 16 v) buffer pos (omega arith)
          (omega arith) (omega arith) from_row bytes_row,
      deserialize-some 1 16 (n * 16) n bytes_at to_at b memory (omega arith) pos (omega arith)
          (omega arith) bytes_row to_row,
      λ i l. numbers_in-bytes_of 16 n v m i (omega arith) l (h i l) (λ a k.
          copied_bytes_at (n * 16 * 1) b memory a (omega arith)
          ∙ copied_bytes_at (n * 16) (bytes_of 16 v) buffer a k),
    )
