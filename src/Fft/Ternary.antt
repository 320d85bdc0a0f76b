-- ===== src/Fft/Ternary.antt =====
-- Numbers by their digits to the base 3, and their addition without carries.
use native.Mathlib.Nat.{pow-suc, mod-add-div, mod-lt, div-lt_iff_lt-mul, mul_comm, mul-le-mul_right}
use extension_field_pcg.Common.{
  ℕ, zero, suc, ◌+◌, ◌*◌, ◌/◌, ◌%◌, ◌^◌, ◌≤◌, ◌<◌, ◌≡◌, sym, ap, ap₂, ◌∙◌, subst, arith,
}

-- What is asked of an addition of numbers by their digits to the base 3, without carries: 32 digits.
pub record IsTernary (add : ℕ → ℕ → ℕ) : Type 0 where
  pub digit : (x y : ℕ) → x < 3 → y < 3 → add x y ≡ (x + y) % 3
  pub split :
      (k m x y a b : ℕ)
      → k + m ≤ 32
      → x < 3 ^ m
      → y < 3 ^ m
      → a < 3 ^ k
      → b < 3 ^ k
      → add (x * 3 ^ k + a) (y * 3 ^ k + b) ≡ add x y * 3 ^ k + add a b

-- The leading digit of a number below 3^(k + 1), and the rest.
pub pow_pos : (k : ℕ) → 0 < 3 ^ k
pow_pos zero = omega arith
pow_pos (suc k) = omega (arith, pow-suc 3 k, pow_pos k)

pub record Digits (k a : ℕ) : Type 0 where
  pub leading : ℕ
  pub rest : ℕ
  pub leading-lt : leading < 3
  pub rest-lt : rest < 3 ^ k
  pub whole : a ≡ leading * 3 ^ k + rest

pub digits : (k a : ℕ) → a < 3 ^ suc k → Digits k a
digits k a h = record {
  leading = a / 3 ^ k;
  rest = a % 3 ^ k;
  leading-lt =
      (div-lt_iff_lt-mul {k = 3 ^ k} {x = a} {y = 3} (pow_pos k)).1 (omega (arith, pow-suc 3 k));
  rest-lt = mod-lt a (pow_pos k);
  whole = omega (arith, mod-add-div a (3 ^ k), mul_comm (3 ^ k) (a / 3 ^ k));
}

module _ (add : ℕ → ℕ → ℕ) (ternary : IsTernary add) where
  pub add-digits :
      (k x y a b : ℕ)
      → k < 32
      → x < 3
      → y < 3
      → a < 3 ^ k
      → b < 3 ^ k
      → add (x * 3 ^ k + a) (y * 3 ^ k + b) ≡ (x + y) % 3 * 3 ^ k + add a b
  add-digits k x y a b c h l p q =
      ternary.split k 1 x y a b (omega arith) h l p q
      ∙ ap (λ t. t * 3 ^ k + add a b) (ternary.digit x y h l)

  pub add-zero : (a b : ℕ) → a < 1 → b < 1 → add a b ≡ 0
  add-zero a b h l =
      ap₂ add {x = a} {y = 0} (omega arith) (omega arith)
      ∙ ternary.digit 0 0 (omega arith) (omega arith)

  add_digits-lt :
      (k x y a b : ℕ)
      → k < 32
      → x < 3
      → y < 3
      → a < 3 ^ k
      → b < 3 ^ k
      → add a b < 3 ^ k
      → add (x * 3 ^ k + a) (y * 3 ^ k + b) < 3 ^ suc k
  add_digits-lt k x y a b c h l p q small =
      let top : (x + y) % 3 * 3 ^ k ≤ 2 * 3 ^ k = mul-le-mul_right (3 ^ k) (omega arith) in
      omega (arith, add-digits k x y a b c h l p q, pow-suc 3 k, top)

  pub add-lt : (k a b : ℕ) → k ≤ 32 → a < 3 ^ k → b < 3 ^ k → add a b < 3 ^ k
  add-lt zero a b c h l = omega (arith, add-zero a b)
  add-lt (suc k) a b c h l =
      let p = digits k a h in
      let q = digits k b l in
      subst (λ t. t < 3 ^ suc k) (sym (ap₂ add p.whole q.whole))
        (add_digits-lt k p.leading q.leading p.rest q.rest (omega arith) p.leading-lt q.leading-lt
          p.rest-lt q.rest-lt (add-lt k p.rest q.rest (omega arith) p.rest-lt q.rest-lt))
