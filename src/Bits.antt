-- ===== src/Bits.antt =====
-- Laws of the bitwise operations at variables, for the wire bytes and the checksum.
pub mod Step
pub mod Xor
pub mod Fields
pub mod Split
