-- ===== src/Wire.antt =====
-- src/panicdump_wire.h and src/panicdump_util.h: little-endian words in a byte array, and the two
-- byte loops. A pointer into an array is the array with an offset; a function that writes through
-- it returns the array.
pub mod Word
use panicdump.Base.{
  ℕ, zero, suc, ◌+◌, List, bit_and, bit_or, get_or, set, u8, u16, u32, ◌<<<◌, ◌>>>◌,
}

abbrev pub byte_at : List ℕ → ℕ → ℕ
byte_at bytes i = get_or bytes i 0

unfoldable pub store_u16 : List ℕ → ℕ → ℕ → List ℕ
store_u16 dst off value =
    let dst0 = set dst off (u8 (bit_and value 0xff)) in
    set dst0 (off + 1) (u8 (bit_and (value >>> 8) 0xff))

unfoldable pub store_u32 : List ℕ → ℕ → ℕ → List ℕ
store_u32 dst off value =
    let dst0 = set dst off (u8 (bit_and value 0xff)) in
    let dst1 = set dst0 (off + 1) (u8 (bit_and (value >>> 8) 0xff)) in
    let dst2 = set dst1 (off + 2) (u8 (bit_and (value >>> 16) 0xff)) in
    set dst2 (off + 3) (u8 (bit_and (value >>> 24) 0xff))

unfoldable pub load_u16 : List ℕ → ℕ → ℕ
load_u16 src off = u16 (bit_or (byte_at src off) (byte_at src (off + 1) <<< 8))

unfoldable pub load_u32 : List ℕ → ℕ → ℕ
load_u32 src off =
    bit_or
      (bit_or (bit_or (byte_at src off) (u32 (byte_at src (off + 1) <<< 8)))
        (u32 (byte_at src (off + 2) <<< 16)))
      (u32 (byte_at src (off + 3) <<< 24))

-- The loop with `len` rounds left, at the next byte.
unfoldable pub zero_bytes : List ℕ → ℕ → ℕ → List ℕ
zero_bytes dst off zero = dst
zero_bytes dst off (suc len) = zero_bytes (set dst off 0) (off + 1) len

-- The two arrays do not overlap.
unfoldable pub copy_bytes : List ℕ → ℕ → List ℕ → ℕ → ℕ → List ℕ
copy_bytes dst off src from zero = dst
copy_bytes dst off src from (suc len) =
    copy_bytes (set dst off (byte_at src from)) (off + 1) src (from + 1) len
