-- ===== src/Ole.antt =====
-- OLE.h for 128-bit blocks with the context `CoeffCtxGF128_F4`: the shares of the products of two
-- sparse polynomials' coefficients, and the points that belong to them.
mod Defs
pub mod Sharing
pub mod Points
pub mod Dpf
pub mod Products
pub mod Total
pub mod Sampling
pub mod Run
pub mod Combine
pub mod Pair
pub mod Correct
pub mod TwoTerms
pub mod TwoTermsCorrect
unfoldable pub use Defs.*
