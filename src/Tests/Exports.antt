-- ===== src/Tests/Exports.antt =====
-- The theorems on the export, with a callback that keeps what it is given and refuses the rest once
-- it is full.
use panicdump.Base.{
  ℕ, ◌≡◌, refl, List, [], ◌∷◌, ◌++◌, some, true, false, length, ltb, if◌then◌else◌,
}
use panicdump.Wire.{load_u16, load_u32}
use panicdump.Crc.{crc32_update, crc_byte}
use panicdump.Fields.{crc32_with_zero_crc, crc32_magic_prefix}
use panicdump.Codec.{validate_wire, image_valid}
use panicdump.Slot.{Slot, has_valid}
use panicdump.Export.{
  Writer, ok, short_write, no_dump, export_hex, boot_check_and_export, hex_digit,
}
use panicdump.Export.Feed.{feed}
use panicdump.Export.Text.{dump_text, lines_text, bytes_text}
use panicdump.Export.Spec.{export_hex_lem}
use panicdump.Tests.Samples.{used_slot, valid_hardfault, valid_hardfault-IsBytes}

abbrev keep : ℕ → ℕ → Writer (List ℕ)
keep room c out = if ltb (length out) room then (true, out ++ c ∷ []) else (false, out)

abbrev crashed : Slot
crashed = record used_slot { dump_wire = valid_hardfault }

-- The text of a dump has 444 characters: 25 and 23 for the markers, six lines of 66.
text_length : length (dump_text valid_hardfault) ≡ 444
unfolding dump_text lines_text bytes_text
text_length = refl

all_taken : (boot_check_and_export (some (keep 444)) crashed []).0 ≡ ok
unfolding boot_check_and_export has_valid validate_wire image_valid load_u32 load_u16
    crc32_with_zero_crc crc32_magic_prefix crc32_update crc_byte hex_digit
all_taken = refl

last_refused : (boot_check_and_export (some (keep 443)) crashed []).0 ≡ short_write
unfolding boot_check_and_export has_valid validate_wire image_valid load_u32 load_u16
    crc32_with_zero_crc crc32_magic_prefix crc32_update crc_byte hex_digit
last_refused = refl

export_hex_lem_example : export_hex (some (keep 100)) crashed [] ≡ (
    if has_valid crashed
    then (let (all, s') = feed (keep 100) (dump_text valid_hardfault) [] in
        (if all then ok else short_write, s'))
    else (no_dump, []))
export_hex_lem_example = export_hex_lem (keep 100) crashed [] valid_hardfault-IsBytes
