-- ===== src/Prime/Bytes.antt =====
-- The operations of `CoeffCtxIntegerPrime_128` in Coeff128.h on memory: the sizes, `fromBlock`, `copy`, `zero`
-- and `one`. An element has `size` bytes, lowest first.
use native.Mathlib.Nat.{
  mul-add-mod_self_right, mul-mod_left, mod-eq_of_lt, mul-div_left, suc-mul, mul-le-mul_right,
}
use extension_field_pcg.Common.{
  ℕ, zero, suc, ◌+◌, ◌*◌, ◌/◌, ◌%◌, ◌==◌, ltb, leb, lt→ltb, ltb-false, ◌≤◌, ◌<◌, ◌≡◌, ◌≢◌, refl,
  sym, ap, ap₂, ◌∙◌, arith, if◌then◌else◌, write, Bool-cases, test→eq, inl, inr,
}
use extension_field_pcg.Loop.{loop, scatter, scatter_at, scatter_other}
use extension_field_pcg.Prime.Memory.{of_digits, of_digits_congr, numbers_in}

-- `bitSize` and `byteSize` of a type of `size` bytes.
unfoldable pub bit_size : ℕ → ℕ
bit_size size = size * 8

unfoldable pub byte_size : ℕ → ℕ
byte_size size = size

-- `memcpy` of n bytes.
abbrev pub memcpy : (ℕ → ℕ) → (ℕ → ℕ) → ℕ → ℕ → ℕ
memcpy dst src n a = if ltb a n then src a else dst a

-- `memset` to zero of n bytes.
abbrev pub memset_zero : (ℕ → ℕ) → ℕ → ℕ → ℕ
memset_zero dst n a = if ltb a n then 0 else dst a

-- `copy` of n elements.
unfoldable pub copy_range : ℕ → ℕ → (ℕ → ℕ) → (ℕ → ℕ) → ℕ → ℕ
copy_range size n src dst = memcpy dst src (n * size)

-- `fromBlock`, for a type that is not `block` itself: the bytes of the block, or as many as are asked for of
-- its expansion by the library's AES in counter mode.
unfoldable pub from_block : ((ℕ → ℕ) → ℕ → ℕ) → ℕ → (ℕ → ℕ) → (ℕ → ℕ) → ℕ → ℕ
from_block ecb_enc_counter_mode size b ret =
    if leb size 16 then memcpy ret b size else memcpy ret (ecb_enc_counter_mode b) size

-- `zero` on n elements.
unfoldable pub zero_range : ℕ → ℕ → (ℕ → ℕ) → ℕ → ℕ
zero_range size n dst = if n == 0 then dst else memset_zero dst (n * size)

-- `one` on n elements: all bytes are cleared, and the first byte of each is then set.
unfoldable pub one_range : ℕ → ℕ → (ℕ → ℕ) → ℕ → ℕ
one_range size n dst =
    if n == 0 then dst else loop (λ i s. write s (i * size) 1) n 0 (memset_zero dst (n * size))

of_digits-nil : (base n : ℕ) (d : ℕ → ℕ) → ((k : ℕ) → k < n → d k ≡ 0) → of_digits base n d ≡ 0
unfolding of_digits
of_digits-nil base zero d h = refl
of_digits-nil base (suc n) d h =
    ap₂ (λ x y. x + base * y) (h 0 (omega arith))
      (of_digits-nil base n _ (λ k l. h (suc k) (omega arith)))
    ∙ omega arith

of_digits-one :
    (base n : ℕ) (d : ℕ → ℕ)
    → 0 < n
    → d 0 ≡ 1
    → ((k : ℕ) → 0 < k → k < n → d k ≡ 0)
    → of_digits base n d ≡ 1
unfolding of_digits
of_digits-one base zero d pos e h = absurd (omega arith)
of_digits-one base (suc n) d pos e h =
    ap₂ (λ x y. x + base * y) e
      (of_digits-nil base n _ (λ k l. h (suc k) (omega arith) (omega arith)))
    ∙ omega arith

inside : (size n i k : ℕ) → i < n → k < size → i * size + k < n * size
inside size n i k l m =
    let up : suc i * size ≤ n * size = mul-le-mul_right size l in omega (arith, suc-mul i size, up)

not_first : (size i j k : ℕ) → 0 < k → k < size → i * size + k ≢ j * size
not_first size i j k pos l e = absurd (
    omega (
      arith,
      sym (mul-add-mod_self_right i size k ∙ mod-eq_of_lt l)
          ∙ ap (λ z. z % size) e
          ∙ mul-mod_left j size,
    ))

-- What holds of a loop that is not started for n = 0.
started : {A : Type 0} (n : ℕ) (x y : A) → 0 < n → (if n == 0 then x else y) ≡ y
started n x y h = elim (Bool-cases (n == 0)) [
  | inl e ↦ absurd (omega (arith, test→eq n 0 e))
  | inr e ↦ ap (λ b. if b then x else y) e
]

-- After `zero` each of the n elements is the number 0, and after `one` each is the number 1, whatever the
-- memory held; no byte behind them changes.
pub one_range_lem :
    (size n : ℕ) (dst : ℕ → ℕ)
    → 0 < size
    → 0 < n
    → ((i : ℕ)
        → i < n
        → (numbers_in size (zero_range size n dst) i ≡ 0)
          × (numbers_in size (one_range size n dst) i ≡ 1))
      × ((a : ℕ)
          → n * size ≤ a
          → (zero_range size n dst a ≡ dst a) × (one_range size n dst a ≡ dst a))
unfolding zero_range one_range numbers_in scatter
one_range_lem size n dst pos some_elements = (
  λ i l. (
    of_digits-nil 256 size _ (λ k m.
        ap (λ f. f (i * size + k)) (started n dst (memset_zero dst (n * size)) some_elements)
        ∙ cleared (i * size + k) (inside size n i k l m)),
    of_digits-one 256 size _ pos
        (ap (λ f. f (i * size + 0)) begun
          ∙ ap set {x = i * size + 0} {y = i * size} (omega arith)
          ∙ scatter_at (λ j. j * size) (λ j. 1) n (memset_zero dst (n * size))
              (λ u v l' m' e. sym (mul-div_left u pos) ∙ ap (λ z. z / size) e ∙ mul-div_left v pos)
              i l)
        (λ k k_pos m.
          ap (λ f. f (i * size + k)) begun
          ∙ scatter_other (λ j. j * size) (λ j. 1) n (memset_zero dst (n * size)) (i * size + k)
              (λ j u. not_first size i j k k_pos m)
          ∙ cleared (i * size + k) (inside size n i k l m)),
  ),
  λ a h. (
    ap (λ f. f a) (started n dst (memset_zero dst (n * size)) some_elements) ∙ kept a h,
    ap (λ f. f a) begun
        ∙ scatter_other (λ j. j * size) (λ j. 1) n (memset_zero dst (n * size)) a
            (λ j u e.
              let up : suc j * size ≤ n * size = mul-le-mul_right size u in
              absurd (omega (arith, e, suc-mul j size, up)))
        ∙ kept a h,
  ),
)
  where
    set : ℕ → ℕ
    set = loop (λ i s. write s (i * size) 1) n 0 (memset_zero dst (n * size))

    begun : one_range size n dst ≡ set
    begun = started n dst set some_elements

    cleared : (a : ℕ) → a < n * size → memset_zero dst (n * size) a ≡ 0
    cleared a h = ap (λ b. if b then 0 else dst a) (lt→ltb a (n * size) h)

    kept : (a : ℕ) → n * size ≤ a → memset_zero dst (n * size) a ≡ dst a
    kept a h = ap (λ b. if b then 0 else dst a) (ltb-false a (n * size) h)

-- `fromBlock` keeps the number of a block for a type of 128 bits.
pub numbers_in-from_block :
    (aes : (ℕ → ℕ) → ℕ → ℕ) (b ret : ℕ → ℕ)
    → numbers_in 16 (from_block aes 16 b ret) 0 ≡ numbers_in 16 b 0
unfolding numbers_in from_block
numbers_in-from_block aes b ret = of_digits_congr 256 16 _ _ (λ k l.
    ap (λ t. if t then b (0 * 16 + k) else ret (0 * 16 + k)) (lt→ltb (0 * 16 + k) 16 (omega arith)))
