-- ===== src/Prime/Arith.antt =====
-- The scalar operations and the arithmetic of the integers modulo 2^127 - 1.
use native.Mathlib.Nat.{
  mul-one, pow-zero, add-mul-mod_self_left, mod-add-div, mul_comm, mul_assoc, mul-add, mul-le-mul,
  add-mod, mod-eq_of_lt, pow-suc, pow-le-pow_right,
}
use extension_field_pcg.Common.{
  ℕ, zero, suc, ◌+◌, ◌-◌, ◌*◌, ◌/◌, ◌%◌, ◌^◌, ◌≤◌, ◌<◌, ◌≡◌, sym, ap, ap₂, ◌∙◌, arith,
}
use extension_field_pcg.Common.{true, if◌then◌else◌, leb, ◌↔◌}
use extension_field_pcg.Prime.Defs.{pr, u128, u256, plus, minus, mul, eq, power_of_two}
use extension_field_pcg.Prime.Mask.{bit_and-mask}

-- `plus` of any two numbers is their sum modulo 2^127 - 1: the 128-bit sum in it never wraps around.
pub plus_lem : (a b : ℕ) → plus a b ≡ (a + b) % pr
unfolding plus
plus_lem a b = omega arith

-- For 128-bit operands, the difference that `minus` computes plus the subtrahend is the minuend modulo
-- 2^127 - 1, also where the subtrahend is the larger one or an operand is not reduced.
pub plus-minus : (a b : ℕ) → a < 2 ^ 128 → b < 2 ^ 128 → plus (minus a b) b ≡ a % pr
unfolding plus minus
plus-minus a b ha hb = ground arith

mod-mul_left : (a b m : ℕ) → a % m * b % m ≡ a * b % m
mod-mul_left a b m =
    let whole : a * b ≡ a % m * b + m * (a / m * b) =
      ap (λ t. t * b) (sym (mod-add-div a m))
      ∙ omega (
        arith,
        mul_assoc m (a / m) b,
        mul-add b (a % m) (m * (a / m)),
        mul_comm b (a % m + m * (a / m)),
        mul_comm b (a % m),
        mul_comm b (m * (a / m)),
      ) in
    sym (ap (λ t. t % m) whole ∙ add-mul-mod_self_left (a % m * b) m (a / m * b))

mul-mod_right : (a b m : ℕ) → a * (b % m) % m ≡ a * b % m
mul-mod_right a b m =
    ap (λ t. t % m) (mul_comm a (b % m)) ∙ mod-mul_left b a m ∙ ap (λ t. t % m) (mul_comm b a)

mod-mul : (a b m : ℕ) → a % m * (b % m) % m ≡ a * b % m
mod-mul a b m = mod-mul_left a (b % m) m ∙ mul-mod_right a b m

two-pow-below : (p : ℕ) → p < 128 → u128 (2 ^ p) ≡ 2 ^ p
two-pow-below p h =
    mod-eq_of_lt
      (omega (arith, pow-le-pow_right {n = 2} (omega arith) {i = p} {j = 127} (omega arith)))

pub pow-add : (n p q : ℕ) → n ^ (p + q) ≡ n ^ p * n ^ q
pow-add n p zero =
    ap (λ t. n ^ t) {x = p + 0} {y = p} (omega arith)
    ∙ sym (ap (λ t. n ^ p * t) (pow-zero n) ∙ mul-one (n ^ p))
pow-add n p (suc q) =
    ap (λ t. n ^ t) {x = p + suc q} {y = suc (p + q)} (omega arith)
    ∙ pow-suc n (p + q)
    ∙ ap (λ t. t * n) (pow-add n p q)
    ∙ mul_assoc (n ^ p) (n ^ q) n
    ∙ ap (λ t. n ^ p * t) (sym (pow-suc n q))

-- One fold of a product and one conditional subtraction reduce it.
fold : ℕ → ℕ
fold prod =
    let ret = u128 (u128 (prod % 2 ^ 127) + u128 (prod / 2 ^ 127)) in
    if leb pr ret then u128 (ret + 2 ^ 128 - pr) else ret

fold_lem : (prod : ℕ) → prod ≤ (pr - 1) * (pr - 1) → fold prod ≡ prod % pr
unfolding fold
fold_lem prod h = ground arith

-- `mul` of any two numbers is their product modulo 2^127 - 1: one Mersenne fold and one conditional
-- subtraction reduce it, and nothing in it wraps around.
pub mul_lem : (a b : ℕ) → mul a b ≡ a * b % pr
unfolding mul fold
mul_lem a b =
    let prod = a % pr * (b % pr) in
    let bound : prod ≤ (pr - 1) * (pr - 1) =
      mul-le-mul {n₁ = a % pr} {m₁ = b % pr} {n₂ = pr - 1} {m₂ = pr - 1} (omega arith)
        (omega arith) in
    let exact : u256 prod ≡ prod = omega arith in
    ap
      (λ t.
        if leb pr (u128 (u128 t + u128 (u256 prod / 2 ^ 127)))
        then u128 (u128 (u128 t + u128 (u256 prod / 2 ^ 127)) + 2 ^ 128 - pr)
        else u128 (u128 t + u128 (u256 prod / 2 ^ 127)))
      (bit_and-mask (u256 prod) 127)
    ∙ ap fold exact
    ∙ fold_lem prod bound
    ∙ mod-mul a b pr

-- `eq` answers true exactly for two numbers with the same residue modulo 2^127 - 1.
pub eq_lem : (a b : ℕ) → (eq a b ≡ true) ↔ (a % pr ≡ b % pr)
unfolding eq
eq_lem a b = (λ h. ground arith, λ h. ground arith)

-- `mul` distributes over `plus`, on any three numbers.
pub mul-plus : (a b c : ℕ) → mul a (plus b c) ≡ plus (mul a b) (mul a c)
mul-plus a b c =
    mul_lem a (plus b c)
    ∙ ap (λ t. a * t % pr) (plus_lem b c)
    ∙ mul-mod_right a (b + c) pr
    ∙ ap (λ t. t % pr) (mul-add a b c)
    ∙ add-mod (a * b) (a * c) pr
    ∙ ap₂ (λ s t. (s + t) % pr) (sym (mul_lem a b)) (sym (mul_lem a c))
    ∙ sym (plus_lem (mul a b) (mul a c))

-- `mul` is associative, on any three numbers.
pub mul-mul : (a b c : ℕ) → mul (mul a b) c ≡ mul a (mul b c)
mul-mul a b c =
    mul_lem (mul a b) c
    ∙ ap (λ t. t * c % pr) (mul_lem a b)
    ∙ mod-mul_left (a * b) c pr
    ∙ ap (λ t. t % pr) (mul_assoc a b c)
    ∙ sym (mul-mod_right a (b * c) pr)
    ∙ ap (λ t. a * t % pr) (sym (mul_lem b c))
    ∙ sym (mul_lem a (mul b c))

-- The product of two of the `powerOfTwo` values is the value for the sum of the exponents, if the sum
-- is below 128.
pub mul-power_of_two :
    (p q : ℕ) → p + q < 128 → mul (power_of_two p) (power_of_two q) ≡ power_of_two (p + q)
unfolding power_of_two
mul-power_of_two p q h =
    mul_lem (power_of_two p) (power_of_two q)
    ∙ ap₂ (λ s t. s % pr * (t % pr) % pr) (two-pow-below p (omega arith))
        (two-pow-below q (omega arith))
    ∙ mod-mul (2 ^ p) (2 ^ q) pr
    ∙ ap (λ t. t % pr) (sym (pow-add 2 p q) ∙ sym (two-pow-below (p + q) h))
