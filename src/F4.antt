-- ===== src/F4.antt =====
-- F4.h: 128-bit blocks as polynomials over F4 of degree below 64, bit 2i the coefficient of x^i and
-- bit 2i + 1 that of α x^i, and their product modulo x^64 + α x^3 + α x + 1.
mod Defs
pub mod Lanes
pub mod Interleave
pub mod Poly
pub mod Reduce
pub mod Unique
pub mod Congruence
pub mod Mul
pub mod Ring
pub mod Units
pub mod Constant
unfoldable pub use Defs.*
