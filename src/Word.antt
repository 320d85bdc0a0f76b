-- ===== src/Word.antt =====
-- Machine words as sequences of bits, lowest first: `uint64_t` and the 128-bit `block` of the
-- library's block.h, with the operations that the sources use of the C++ language and of the
-- compiler's x86 intrinsics (emmintrin.h, immintrin.h). A bit beyond the width is false.
mod Defs
pub mod Lanes
pub mod Halves
pub use Defs.{xor_comm, false-xor, xor_self}
unfoldable pub use Defs.{f2, Bits, of_ℕ, both, either, block, extract_low, extract_high}
unfoldable pub use Defs.{shift_left, shift_right, half_of, clmulepi64, pdep, pext}
unfoldable pub use Defs.{shift_left_halves, shift_right_halves, set_bytes}
