-- ===== src/Fp/Uint.antt =====
-- veax/dex/src/fp/types.rs: the integers of several 64-bit words, least significant word first. The
-- arithmetic is that of the crate `uint`, which is not part of the repository: it is an interface,
-- with what the crate documents as laws. A panic stands for each overflow.
pub mod Words
pub mod Laws
pub mod Roots
pub mod Exact
pub mod Splits
