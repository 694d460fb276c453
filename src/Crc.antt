-- ===== src/Crc.antt =====
-- include/panicdump_crc32.h
pub mod Reach
pub mod Inject
pub mod Word
pub mod Division
use panicdump.Base.{ℕ, zero, suc, ◌+◌, List, bit_and, bit_xor, if◌then◌else◌, ◌!=◌, ◌>>>◌}
use panicdump.Wire.{byte_at}

abbrev pub polynomial : ℕ
polynomial = 0xEDB88320

-- One round of the inner loop.
unfoldable pub crc_bit : ℕ → ℕ
crc_bit crc = if bit_and crc 1 != 0 then bit_xor (crc >>> 1) polynomial else crc >>> 1

-- The inner loop with `n` rounds left.
unfoldable pub crc_bits : ℕ → ℕ → ℕ
unfolding crc_bit
crc_bits zero crc = crc
crc_bits (suc n) crc = crc_bits n (crc_bit crc)

-- The body of the outer loop.
unfoldable pub crc_byte : ℕ → ℕ → ℕ
unfolding crc_bits
crc_byte crc byte = crc_bits 8 (bit_xor crc byte)

-- `len` bytes of `data` from the offset `off` on.
unfoldable pub crc32_update : ℕ → List ℕ → ℕ → ℕ → ℕ
crc32_update crc bytes off zero = crc
crc32_update crc bytes off (suc len) =
    crc32_update (crc_byte crc (byte_at bytes off)) bytes (off + 1) len

unfoldable pub crc32 : List ℕ → ℕ → ℕ
crc32 bytes len = bit_xor (crc32_update 0xFFFFFFFF bytes 0 len) 0xFFFFFFFF
