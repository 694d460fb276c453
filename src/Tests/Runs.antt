-- ===== src/Tests/Runs.antt =====
-- The model runs: on a dump made by the repository's own tools, and on the calls of
-- tests/panicdump_core_test.c.
use panicdump.Base.{◌≡◌, refl, some, true, false, set, [], ◌∷◌}
use panicdump.Wire.{load_u16, load_u32}
use panicdump.Crc.{crc32, crc32_update, crc_byte}
use panicdump.Fields.{crc32_with_zero_crc, crc32_magic_prefix}
use panicdump.Codec.{validate_wire, image_valid}
use panicdump.Tests.Samples.{valid_hardfault}

-- CRC-32 of "123456789".
crc32_check_value : crc32 (49 ∷ 50 ∷ 51 ∷ 52 ∷ 53 ∷ 54 ∷ 55 ∷ 56 ∷ 57 ∷ []) 9 ≡ 0xCBF43926
unfolding crc32 crc32_update crc_byte
crc32_check_value = refl

pub vector_is_valid : validate_wire (some valid_hardfault) 192 ≡ true
unfolding validate_wire image_valid load_u32 load_u16 crc32_with_zero_crc crc32_magic_prefix
    crc32_update crc_byte
vector_is_valid = refl

damaged_vector_is_not : validate_wire (some (set valid_hardfault 128 255)) 192 ≡ false
unfolding validate_wire image_valid load_u32 load_u16 crc32_with_zero_crc crc32_magic_prefix
    crc32_update crc_byte
damaged_vector_is_not = refl
