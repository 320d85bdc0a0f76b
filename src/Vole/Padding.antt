-- ===== src/Vole/Padding.antt =====
-- The length that `VOLE_QASD` of test.h works with, a `u64`.
use native.Mathlib.Nat.{pow-le-pow_right, mul-le-mul, pow-suc}
use extension_field_pcg.Common.{
  ℕ, zero, suc, ◌+◌, ◌-◌, ◌*◌, ◌%◌, ◌^◌, ◌≤◌, ◌<◌, ◌==◌, if◌then◌else◌, ◌≡◌, refl, sym, subst,
  arith,
}
use extension_field_pcg.Common.{first_or_later, inl, inr}
use extension_field_pcg.Vole.Defs.{round_log3}
use extension_field_pcg.Vole.Rounding.{IsRoundedLog3-unique, round_log3-IsRoundedLog3, pow-square}

-- `parity`: what an odd n is short of the next multiple of 64.
unfoldable pub padding : ℕ → ℕ
padding n = if n % 2 == 1 then 64 - n % 64 else 0

-- `n = n + parity`.
unfoldable pub padded : ℕ → ℕ
unfolding padding
padded n = (n + padding n) % 2 ^ 64

-- `n = n - parity`, after the vectors are made.
unfoldable pub unpadded : ℕ → ℕ → ℕ
unpadded n parity = (n + 2 ^ 64 - parity) % 2 ^ 64

-- What the padding of n gives: no less than n and at most 63 more, a multiple of 64 if n is odd; the
-- subtraction gives n again.
pub record IsEnlarged (n : ℕ) : Type 0 where
  pub above : n ≤ padded n
  pub close : padded n ≤ n + 63
  pub multiple : n % 2 ≡ 1 → padded n % 64 ≡ 0
  pub undone : unpadded (padded n) (padding n) ≡ n

-- For n below 2^64 - 64, the padded length is at least n and at most n + 63, and a multiple of 64 if n is odd;
-- subtracting the padding again gives n: neither operation on `u64` wraps around.
pub padded-IsEnlarged : (n : ℕ) → n < 2 ^ 64 - 64 → IsEnlarged n
unfolding padded unpadded padding
padded-IsEnlarged n h = record {
  above = ground arith;
  close = ground arith;
  multiple = λ o. ground arith;
  undone = ground arith;
}

pow-odd : (k : ℕ) → 3 ^ k % 2 ≡ 1
pow-odd zero = refl
pow-odd (suc k) = omega (arith, pow-suc 3 k, pow-odd k)

pub pow-bound : (k : ℕ) → k ≤ 40 → 3 ^ k < 2 ^ 64 - 64
pow-bound k h = omega (arith, pow-le-pow_right {n = 3} (omega arith) {i = k} {j = 40} h)

-- A number that is at least 3^k and whose square is below 3^(2k + 1) has the rounded logarithm k.
round_log3-between : (k p : ℕ) → 3 ^ k ≤ p → p * p < 3 ^ suc (2 * k) → round_log3 p ≡ k
round_log3-between k p low high =
    IsRoundedLog3-unique p (round_log3 p) k (round_log3-IsRoundedLog3 p) (record {
      upper = high;
      lower = λ j e. omega (
        arith,
        pow-square k,
        mul-le-mul {n₁ = 3 ^ k} {m₁ = 3 ^ k} {n₂ = p} {m₂ = p} low low,
        pow-le-pow_right {n = 3} (omega arith) {i = suc (2 * j)} {j = 2 * k} (omega arith),
      );
    })

-- A number that is little above a large one has less than three times its square.
square_below : (x p : ℕ) → 243 ≤ x → p ≤ x + 63 → p * p < 3 * (x * x)
square_below x p h l =
    let expand : (x + 63) * (x + 63) ≡ x * x + 126 * x + 3969 = grind arith in
    omega (
      arith,
      expand,
      mul-le-mul {n₁ = p} {m₁ = p} {n₂ = x + 63} {m₂ = x + 63} l l,
      mul-le-mul {n₁ = 243} {m₁ = x} {n₂ = x} {m₂ = x} h (omega arith),
    )

round_log3-four : round_log3 (padded (3 ^ 4)) ≡ 4
unfolding round_log3 padded
round_log3-four = refl

-- From 3^4 to 3^40, the padding does not change the rounded logarithm.
pub round_log3-padded : (k : ℕ) → 4 ≤ k → k ≤ 40 → round_log3 (padded (3 ^ k)) ≡ k
round_log3-padded k low high = elim (first_or_later 4 k low) [
  | inl e ↦ subst (λ j. round_log3 (padded (3 ^ j)) ≡ j) (sym e) round_log3-four
  | inr later ↦
      let p = padded-IsEnlarged (3 ^ k) (pow-bound k high) in
      let large = pow-le-pow_right {n = 3} (omega arith) {i = 5} {j = k} later in
      round_log3-between k (padded (3 ^ k)) p.above (
        omega (
          arith,
          pow-suc 3 (2 * k),
          pow-square k,
          square_below (3 ^ k) (padded (3 ^ k)) large p.close,
        ))
]

-- Below 3^4, the padded length is rounded to more entries than there are.
pub padded-short : (k : ℕ) → k ≤ 3 → padded (3 ^ k) < 3 ^ round_log3 (padded (3 ^ k))
unfolding round_log3 padded
padded-short zero h = omega arith
padded-short (suc zero) h = omega arith
padded-short (suc (suc zero)) h = omega arith
padded-short (suc (suc (suc zero))) h = omega arith
padded-short (suc (suc (suc (suc k)))) h = absurd (omega arith)
