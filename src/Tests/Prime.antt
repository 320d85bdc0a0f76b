-- ===== src/Tests/Prime.antt =====
-- The prime field at concrete numbers.
use extension_field_pcg.Common.{◌-◌, ◌*◌, ◌%◌, ◌^◌, ◌≡◌, refl, arith}
use extension_field_pcg.Prime.{pr, plus, minus, mul}
use extension_field_pcg.Prime.Arith.{plus-minus, mul_lem}

plus_test : plus (2 ^ 127 - 2) (2 ^ 128 - 1) ≡ 0
unfolding plus
plus_test = refl

mul_test : mul (2 ^ 128 - 2) 5 ≡ 0
unfolding mul
mul_test = refl

plus-minus_example : plus (minus 3 (2 ^ 128 - 1)) (2 ^ 128 - 1) ≡ 3 % pr
plus-minus_example = plus-minus 3 (2 ^ 128 - 1) (omega arith) (omega arith)

mul_lem_example : mul (2 ^ 128 - 1) (2 ^ 126) ≡ (2 ^ 128 - 1) * 2 ^ 126 % pr
mul_lem_example = mul_lem (2 ^ 128 - 1) (2 ^ 126)
