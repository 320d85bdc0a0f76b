-- ===== src/Tests.antt =====
-- The theorems at concrete inputs.
mod F4
mod Fft
mod Prime
mod Vole
mod Text
mod OleRun
mod Protocol
mod Encode
mod Qasd
mod Codes
mod Command
