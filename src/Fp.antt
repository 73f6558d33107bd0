-- ===== src/Fp.antt =====
-- veax/dex/src/fp: fixed point numbers.
pub mod Uint
pub mod Errors
pub mod Sums
pub mod U128x128
pub mod U192x64
pub mod U192x192
pub mod U256x128
pub mod U256x256
pub mod U256x320
pub mod U320x64
pub mod U320x128
pub mod Unsigned
pub mod Convert
pub mod Signed
pub mod SignedTypes
pub mod Examples
pub mod WordExamples
