-- ===== src/Encode.antt =====
-- The encoders that test.h measures, without the clock: the quasi-abelian code, the code that repeats,
-- permutes and accumulates twice, and the one that expands and accumulates; and the functions that test
-- the library's codes against an expansion and an accumulation of their own.
pub mod QuasiAbelian
pub mod Accumulate
pub mod Permute
pub mod Drawing
pub mod Slots
pub mod Places
pub mod Stepping
pub mod Coefficients
pub mod EcSyndrome
pub mod EcExpansion
pub mod EcCorrect
pub mod EaSyndrome
