-- ===== src/Vole/Rounding.antt =====
-- The number of variables of the encoding: the logarithm of the length, rounded.
use native.Mathlib.Nat.{pow-suc, pow-le-pow_right, mul-le-mul}
use extension_field_pcg.Common.{
  ℕ, zero, suc, ◌+◌, ◌*◌, ◌^◌, ◌≤◌, ◌<◌, ◌≡◌, refl, sym, ap, ◌∙◌, arith,
}
use extension_field_pcg.Common.{inl, inr, Bool, true, false, ltb, ltb→lt, below_or_from}
use extension_field_pcg.Common.{subst}
use extension_field_pcg.Prime.Arith.{pow-add}
use extension_field_pcg.Vole.Defs.{round_log3, round_log3_from}

-- k is the integer closest to the logarithm of n to the base 3: 3^(k - 1/2) ≤ n < 3^(k + 1/2), in
-- squares.
pub record IsRoundedLog3 (n k : ℕ) : Type 0 where
  pub upper : n * n < 3 ^ suc (2 * k)
  pub lower : (j : ℕ) → k ≡ suc j → 3 ^ suc (2 * j) ≤ n * n

not_below : (a b : ℕ) → ltb a b ≡ false → b ≤ a
not_below a b h = ground arith

round_log3_from-IsRoundedLog3 :
    (fuel k n : ℕ)
    → ((j : ℕ) → k ≡ suc j → 3 ^ suc (2 * j) ≤ n * n)
    → n * n < 3 ^ suc (2 * (k + fuel))
    → IsRoundedLog3 n (round_log3_from fuel k n)
unfolding round_log3_from
round_log3_from-IsRoundedLog3 zero k n low enough = record {
  upper = subst (λ t. n * n < 3 ^ suc (2 * t)) {x = k + 0} {y = k} (omega arith) enough;
  lower = low;
}
round_log3_from-IsRoundedLog3 (suc fuel) k n low enough =
    decide
      (λ e.
        round_log3_from-IsRoundedLog3 fuel (suc k) n
          (λ j q.
            subst (λ t. 3 ^ suc (2 * t) ≤ n * n) {x = k} {y = j} (omega arith)
              (not_below (n * n) (3 ^ suc (2 * k)) e))
          (subst (λ t. n * n < 3 ^ suc (2 * t)) {x = k + suc fuel} {y = suc k + fuel} (omega arith)
            enough))
      (ltb (n * n) (3 ^ suc (2 * k))) refl
  where
    decide :
        (ltb (n * n) (3 ^ suc (2 * k)) ≡ false → IsRoundedLog3 n (round_log3_from fuel (suc k) n))
        → (b : Bool) → ltb (n * n) (3 ^ suc (2 * k)) ≡ b
        → IsRoundedLog3 n (elim b [ true ↦ k | false ↦ round_log3_from fuel (suc k) n ])
    decide later true e = record { upper = ltb→lt (n * n) (3 ^ suc (2 * k)) e; lower = low }
    decide later false e = later e

lt-pow : (n : ℕ) → n < 3 ^ n
lt-pow zero = omega arith
lt-pow (suc n) = omega (arith, pow-suc 3 n, lt-pow n)

pub pow-square : (n : ℕ) → 3 ^ n * 3 ^ n ≡ 3 ^ (2 * n)
pow-square n = sym (ap (λ t. 3 ^ t) {x = 2 * n} {y = n + n} (omega arith) ∙ pow-add 3 n n)

-- For every n, the search with fuel n finds the integer k closest to the logarithm of n to the base 3:
-- n^2 < 3^(2k + 1), and 3^(2k - 1) ≤ n^2 unless k is 0.
pub round_log3-IsRoundedLog3 : (n : ℕ) → IsRoundedLog3 n (round_log3 n)
unfolding round_log3
round_log3-IsRoundedLog3 n =
    round_log3_from-IsRoundedLog3 n 0 n (λ j q. absurd (omega arith))
      (omega (
        arith,
        pow-suc 3 (2 * (0 + n)),
        pow-square n,
        ap (λ t. 3 ^ t) {x = 2 * (0 + n)} {y = 2 * n} (omega arith),
        mul-le-mul {n₁ = n} {m₁ = n} {n₂ = 3 ^ n} {m₂ = 3 ^ n} (omega (arith, lt-pow n))
            (omega (arith, lt-pow n)),
        lt-pow (2 * n),
      ))

-- Only one number is closest.
not_later : (n j k : ℕ) → IsRoundedLog3 n j → IsRoundedLog3 n k → k ≤ j
not_later n j zero p q = omega arith
not_later n j (suc i) p q = elim (below_or_from (suc j) (suc i)) [
  | inl h ↦ omega arith
  | inr h ↦ absurd (
      omega (
        arith,
        p.upper,
        q.lower i refl,
        pow-le-pow_right {n = 3} (omega arith) {i = suc (2 * j)} {j = suc (2 * i)} (omega arith),
      ))
]

pub IsRoundedLog3-unique : (n j k : ℕ) → IsRoundedLog3 n j → IsRoundedLog3 n k → j ≡ k
IsRoundedLog3-unique n j k p q = omega (arith, not_later n j k p q, not_later n k j q p)

pow-IsRoundedLog3 : (k : ℕ) → IsRoundedLog3 (3 ^ k) k
pow-IsRoundedLog3 k = record {
  upper = omega (arith, pow-square k, pow-suc 3 (2 * k), lt-pow (2 * k));
  lower = λ j q. omega (
    arith,
    pow-square k,
    pow-le-pow_right {n = 3} (omega arith) {i = suc (2 * j)} {j = 2 * k} (omega arith),
  );
}

-- The rounded logarithm of 3^k is k.
pub round_log3-pow : (k : ℕ) → round_log3 (3 ^ k) ≡ k
round_log3-pow k =
    IsRoundedLog3-unique (3 ^ k) (round_log3 (3 ^ k)) k (round_log3-IsRoundedLog3 (3 ^ k))
      (pow-IsRoundedLog3 k)
