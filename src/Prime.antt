-- ===== src/Prime.antt =====
-- `CoeffCtxIntegerPrime_128` of Coeff128.h: arithmetic modulo 2^127 - 1 on `uint128_t`.
mod Defs
pub mod Mask
pub mod Arith
pub mod Text
pub mod Memory
pub mod Bytes
pub mod Fill
pub mod Vector
pub mod Matrix
unfoldable pub use Defs.*
