-- ===== src/Prime/Mask.antt =====
-- Conjunction with a mask of low bits is a remainder.
use Prim.Native.Nat.{bit_and, digits, bit_and-bitwise, min}
use native.Mathlib.Nat.{
  pow-suc, mod-one, mod-lt, mod-add-div, mod-eq_of_lt, add-mul-mod_self_left, mul_assoc, one-le-pow,
  zero-mod,
}
use extension_field_pcg.Common.{
  ℕ, zero, suc, ◌+◌, ◌-◌, ◌*◌, ◌/◌, ◌%◌, ◌^◌, ◌≤◌, ◌<◌, ◌≡◌, refl, sym, ap, ap₂, ◌∙◌, arith,
}

pub two-pow_pos : (k : ℕ) → 0 < 2 ^ k
two-pow_pos k = one-le-pow k 2 (omega arith)

abbrev and_digits : ℕ → ℕ → ℕ → ℕ
and_digits n a b = digits (λ b. zero) min n a b

min_zero : (a : ℕ) → min a 0 ≡ 0
min_zero a = ground arith

min_one : (a : ℕ) → a < 2 → min a 1 ≡ a
min_one a h = ground arith

no_digits : (n a : ℕ) → and_digits n a 0 ≡ 0
no_digits zero a = refl
no_digits (suc n) zero = refl
no_digits (suc n) (suc a) = ap₂ (λ x y. x * 2 + y) (no_digits n (suc a / 2)) (min_zero (suc a % 2))

-- The remainder by 2^(k + 1) is that of the half by 2^k, with the lowest digit behind it.
mod-pow-suc : (a k : ℕ) → a / 2 % 2 ^ k * 2 + a % 2 ≡ a % 2 ^ suc k
mod-pow-suc a k =
    let m = 2 ^ suc k in
    let q = a / 2 / 2 ^ k in
    let r = a / 2 % 2 ^ k * 2 + a % 2 in
    let whole : m * q ≡ 2 * (2 ^ k * q) =
      ap (λ t. t * q) {x = m} {y = 2 * 2 ^ k} (omega (arith, pow-suc 2 k))
      ∙ mul_assoc 2 (2 ^ k) q in
    let split : a ≡ r + m * q = omega (arith, whole, mod-add-div (a / 2) (2 ^ k)) in
    let small : r < m = omega (arith, pow-suc 2 k, mod-lt (a / 2) {m = 2 ^ k} (two-pow_pos k)) in
    sym (ap (λ t. t % m) split ∙ add-mul-mod_self_left r m q ∙ mod-eq_of_lt small)

and_digits_mask : (k n a : ℕ) → a ≤ n → and_digits n a (2 ^ k - 1) ≡ a % 2 ^ k
and_digits_mask zero n a h = no_digits n a ∙ sym (mod-one a)
and_digits_mask (suc k) zero a h =
    sym (ap (λ t. t % 2 ^ suc k) {x = a} {y = 0} (omega arith) ∙ zero-mod (2 ^ suc k))
and_digits_mask (suc k) (suc n) zero h = sym (zero-mod (2 ^ suc k))
and_digits_mask (suc k) (suc n) (suc a) h =
    let half : (2 ^ suc k - 1) / 2 ≡ 2 ^ k - 1 = omega (arith, pow-suc 2 k, two-pow_pos k) in
    let last : (2 ^ suc k - 1) % 2 ≡ 1 = omega (arith, pow-suc 2 k, two-pow_pos k) in
    ap₂ (λ x y. x * 2 + y)
      (ap (and_digits n (suc a / 2)) half ∙ and_digits_mask k n (suc a / 2) (omega arith))
      (ap (min (suc a % 2)) last ∙ min_one (suc a % 2) (omega arith))
    ∙ mod-pow-suc (suc a) k

pub bit_and-mask : (a k : ℕ) → bit_and a (2 ^ k - 1) ≡ a % 2 ^ k
bit_and-mask a k = bit_and-bitwise a (2 ^ k - 1) ∙ and_digits_mask k a a (omega arith)
