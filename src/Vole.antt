-- ===== src/Vole.antt =====
-- SilentWalshVoleReceiver.h and SilentWalshVoleSender.h for 128-bit blocks with the context
-- `CoeffCtxGF128_F4`, whose plus and minus are the xor of the library and whose mul is `F4_mul`.
mod Defs
pub mod Rounding
pub mod Noise
pub mod Correlation
pub mod Setup
pub mod Sharing
pub mod Receiver
pub mod CheckRt
pub mod Sender
pub mod Protocol
pub mod Sending
pub mod Joint
pub mod Rules
pub mod BaseOts
pub mod Receiving
pub mod Programming
pub mod Connected
pub mod Padding
pub mod Qasd
pub mod QasdCorrect
pub mod Malicious
pub mod Liveness
pub mod Drawing
pub mod Lpn
unfoldable pub use Defs.*
