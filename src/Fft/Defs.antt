-- ===== src/Fft/Defs.antt =====
-- The loop and the recursion of `inv_foleageFft`.
use extension_field_pcg.Common.{write}
use extension_field_pcg.Common.{ℕ, zero, suc, ◌+◌, ◌*◌, ◌/◌}
use extension_field_pcg.Common.{xor, and-false, false, ◌||◌, ltb-false, ap, ◌∙◌}
use extension_field_pcg.Algebra.{◌⊕◌}
use extension_field_pcg.Algebra.Series.{series}
use extension_field_pcg.Word.{
  f2, xor_self, Bits, both, either, set_bytes, shift_left_halves, shift_right_halves,
}
use extension_field_pcg.F4.Ring.{Block, IsBlock, f4_ring}

abbrev pub mask_h : Bits
mask_h = set_bytes 0b10101010

abbrev pub mask_l : Bits
mask_l = set_bytes 0b01010101

-- `mult`, computed from coeffsM[j] ^ coeffsR[j].
unfoldable pub mult_bits : Bits → Bits
mult_bits x =
    let xor_h = both x mask_h in
    let xor_l = both x mask_l in
    either (shift_right_halves xor_h 1 ⊕ xor_l) (shift_left_halves xor_l 1)

mult_bits-IsBlock : (x : Bits) → IsBlock (mult_bits x)
unfolding mult_bits shift_left_halves shift_right_halves set_bytes
mult_bits-IsBlock x i h =
    rw (ltb-false i 128 h)
      (ap (λ b. xor false b || false) (and-false (x i)) ∙ ap (λ b. b || false) (xor_self false))

unfoldable pub mult : Block → Block
unfolding mult_bits-IsBlock
mult x = (mult_bits x.0, mult_bits-IsBlock x.0)

-- The blocks in memory, by address.
abbrev pub Store : Type 0
Store = ℕ → Block

-- The body of the loop at index j.
unfoldable pub inv_butterfly : ℕ → ℕ → ℕ → Store → Store
inv_butterfly base num_coeffs j a =
    let l = base + j in
    let m = base + num_coeffs + j in
    let r = base + 2 * num_coeffs + j in
    let t = mult (a m ⊕ a r) in
    let t_l = a l ⊕ a m ⊕ a r in
    let t_m = a l ⊕ a r ⊕ t in let a' = write a m (a l ⊕ a m ⊕ t) in write (write a' l t_l) r t_m

-- `for (j = ...; j < num_coeffs; j++)` with `left` rounds to go.
unfoldable pub inv_loop : ℕ → ℕ → ℕ → ℕ → Store → Store
inv_loop base num_coeffs zero j a = a
inv_loop base num_coeffs (suc left) j a =
    inv_loop base num_coeffs left (suc j) (inv_butterfly base num_coeffs j a)

-- `inv_foleageFft(coeffs, num_vars, num_coeffs)` on the span that starts at `base`.
unfoldable pub inv_foleage_fft : ℕ → ℕ → ℕ → Store → Store
inv_foleage_fft zero num_coeffs base a = inv_loop base num_coeffs num_coeffs 0 a
inv_foleage_fft (suc zero) num_coeffs base a = inv_loop base num_coeffs num_coeffs 0 a
inv_foleage_fft (suc (suc k)) num_coeffs base a =
    let a1 = inv_foleage_fft (suc k) (num_coeffs / 3) base a in
    let a2 = inv_foleage_fft (suc k) (num_coeffs / 3) (base + num_coeffs) a1 in
    let a3 = inv_foleage_fft (suc k) (num_coeffs / 3) (base + 2 * num_coeffs) a2 in
    inv_loop base num_coeffs num_coeffs 0 a3
