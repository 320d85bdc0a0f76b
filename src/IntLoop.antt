-- ===== src/IntLoop.antt =====
-- `for (int i = 0; i < n; i++)` with a 64-bit n: the `int` is converted for the comparison.
use native.Mathlib.Nat.{pow-le-pow_right, mod-eq_of_lt}
use extension_field_pcg.Common.{
  ℕ, ◌+◌, ◌-◌, ◌*◌, ◌%◌, ◌^◌, ◌∙◌, ◌≤◌, ◌<◌, ltb, lt→ltb, if◌then◌else◌, ◌≡◌, ap, arith,
}

-- The rounds that are made. The `int` overflows after 2^31 rounds, which the language leaves undefined;
-- where it wraps around, it is then converted to a number above n, and the loop ends.
unfoldable pub int_rounds : ℕ → ℕ
int_rounds n = if ltb n (2 ^ 31) then n else 2 ^ 31

pub int_rounds_small : (n : ℕ) → n < 2 ^ 31 → int_rounds n ≡ n
unfolding int_rounds
int_rounds_small n h = ap (λ b. if b then n else 2 ^ 31) (lt→ltb n (2 ^ 31) h)

-- A product of two `int`s, given where a `u64` or an offset is wanted. From 2^31 on it overflows, which the
-- language leaves undefined; where it wraps around, the sign is extended.
unfoldable pub int_product : ℕ → ℕ → ℕ
int_product a b = let n = a * b % 2 ^ 32 in if ltb n (2 ^ 31) then n else n + 2 ^ 64 - 2 ^ 32

pub int_product_small : (a b : ℕ) → a * b < 2 ^ 31 → int_product a b ≡ a * b
unfolding int_product
int_product_small a b h =
    ap (λ n. if ltb n (2 ^ 31) then n else n + 2 ^ 64 - 2 ^ 32)
      (mod-eq_of_lt {n = a * b} {m = 2 ^ 32} (omega arith))
    ∙ ap (λ t. if t then a * b else a * b + 2 ^ 64 - 2 ^ 32) (lt→ltb (a * b) (2 ^ 31) h)

-- The powers of three that an `int` holds.
pub pow-small : (k : ℕ) → k ≤ 19 → 3 ^ k < 2 ^ 31
pow-small k h = omega (arith, pow-le-pow_right {n = 3} (omega arith) {i = k} {j = 19} h)
