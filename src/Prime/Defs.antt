-- ===== src/Prime/Defs.antt =====
-- The operations, on values below 2^128. Each result of a 128-bit operation is cut off by `u128`,
-- and `u256` is the 256-bit type of the boost library.
use Prim.Native.Nat.{bit_and}
use extension_field_pcg.Common.{ℕ, ◌+◌, ◌-◌, ◌*◌, ◌/◌, ◌%◌, ◌^◌, ◌==◌, ltb, leb}
use extension_field_pcg.Common.{Bool, if◌then◌else◌}

abbrev pub u128 : ℕ → ℕ
u128 n = n % 2 ^ 128

abbrev pub u256 : ℕ → ℕ
u256 n = n % 2 ^ 256

-- `PR = (uint128_t(1) << 127) - 1`
abbrev pub pr : ℕ
pr = 2 ^ 127 - 1

unfoldable pub modp : ℕ → ℕ
modp a = a % pr

unfoldable pub plus : ℕ → ℕ → ℕ
plus lhs rhs = u128 (lhs % pr + rhs % pr) % pr

-- 2^128 is added before the subtraction, which wraps around.
unfoldable pub minus : ℕ → ℕ → ℕ
minus lhs rhs =
    let l = if ltb pr lhs then lhs % pr else lhs in
    let r = if ltb pr rhs then rhs % pr else rhs in u128 (u128 (l + pr) + 2 ^ 128 - r) % pr

unfoldable pub mul : ℕ → ℕ → ℕ
mul lhs rhs =
    let prod = u256 (lhs % pr * (rhs % pr)) in
    let ret = u128 (u128 (bit_and prod pr) + u128 (prod / 2 ^ 127)) in
    if leb pr ret then u128 (ret + 2 ^ 128 - pr) else ret

unfoldable pub eq : ℕ → ℕ → Bool
eq lhs rhs = lhs % pr == rhs % pr

-- `hi64` and `lo64`
unfoldable pub hi64 : ℕ → ℕ
hi64 x = x / 2 ^ 64 % 2 ^ 64

unfoldable pub lo64 : ℕ → ℕ
lo64 x = x % 2 ^ 64

unfoldable pub power_of_two : ℕ → ℕ
power_of_two power = u128 (2 ^ power) % pr
