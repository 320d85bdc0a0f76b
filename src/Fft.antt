-- ===== src/Fft.antt =====
-- `inv_foleageFft` of F4.h, on an array of 128-bit blocks: the store is a function of the address,
-- and a span is its first address.
mod Defs
pub mod Root
pub mod Loop
pub mod View
pub mod Inverse
pub mod Ternary
pub mod Spike
pub mod Sparse
unfoldable pub use Defs.*
