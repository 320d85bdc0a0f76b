-- ===== src/F4/Defs.antt =====
-- The functions of F4.h on a `block`.
use extension_field_pcg.Algebra.{◌⊕◌}
use extension_field_pcg.Algebra.Series.{series}
use extension_field_pcg.Word.{Bits, of_ℕ, either, block, extract_low, extract_high, f2}
use extension_field_pcg.Word.{shift_left, shift_right, clmulepi64, pdep, pext}

abbrev pub even_mask : Bits
even_mask = of_ℕ 0xAAAAAAAAAAAAAAAA

abbrev pub odd_mask : Bits
odd_mask = of_ℕ 0x5555555555555555

unfoldable pub interleave : Bits → Bits → Bits
interleave a b =
    let even_part_low = pdep b even_mask in
    let odd_part_low = pdep a odd_mask in
    let low64 = either even_part_low odd_part_low in
    let high64 = either (pdep (shift_right b 32) even_mask) (pdep (shift_right a 32) odd_mask) in
    block high64 low64

unfoldable pub odd_bit_extraction : Bits → Bits
odd_bit_extraction x =
    let x_low = extract_low x in
    let x_high = extract_high x in
    let temp_a = pext x_low odd_mask in
    let temp_b = pext x_high odd_mask in either (shift_left temp_b 32) temp_a

unfoldable pub even_bit_extraction : Bits → Bits
even_bit_extraction x =
    let x_low = extract_low x in
    let x_high = extract_high x in
    let temp_a = pext x_low even_mask in
    let temp_b = pext x_high even_mask in either (shift_left temp_b 32) temp_a

-- `block mod(0b1010, 0b1)`
abbrev pub modulus_low_terms : Bits
modulus_low_terms = block (of_ℕ 0b1010) (of_ℕ 0b1)

unfoldable pub f4_reduce : Bits → Bits → Bits
f4_reduce odd even =
    let m = modulus_low_terms in
    let t1 = clmulepi64 odd m 0x01 in
    let t2 = clmulepi64 odd m 0x11 in
    let t3 = clmulepi64 even m 0x01 in
    let t4 = clmulepi64 even m 0x11 in
    let reduced_odd = t1 ⊕ t4 in
    let reduced_even = t2 ⊕ t3 ⊕ t4 in
    let s1 = clmulepi64 reduced_odd m 0x01 in
    let s2 = clmulepi64 reduced_odd m 0x11 in
    let s3 = clmulepi64 reduced_even m 0x01 in
    let s4 = clmulepi64 reduced_even m 0x11 in
    let final_reduced_odd = s1 ⊕ s4 in
    let final_reduced_even = s2 ⊕ s3 ⊕ s4 in
    let odd_64 = extract_low (odd ⊕ final_reduced_odd ⊕ reduced_odd) in
    let even_64 = extract_low (even ⊕ final_reduced_even ⊕ reduced_even) in
    interleave odd_64 even_64

unfoldable pub f4_mul : Bits → Bits → Bits
f4_mul x y =
    let x_odd = odd_bit_extraction x in
    let x_even = even_bit_extraction x in
    let y_odd = odd_bit_extraction y in
    let y_even = even_bit_extraction y in
    let temp_x = block x_even x_odd in
    let temp_y = block y_even y_odd in
    let t1 = clmulepi64 temp_x temp_y 0x00 in
    let t2 = clmulepi64 temp_x temp_y 0x10 in
    let t3 = clmulepi64 temp_x temp_y 0x01 in
    let t4 = clmulepi64 temp_x temp_y 0x11 in
    let prod_odd = t1 ⊕ t4 in let prod_even = t2 ⊕ t3 ⊕ t4 in f4_reduce prod_odd prod_even
