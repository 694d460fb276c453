-- ===== src/Codec.antt =====
-- src/panicdump.c: the validity checks, and encoding and decoding on caller buffers. A pointer that may
-- be null is an option; a function that writes through a pointer returns what it points to.
pub mod Valid
pub mod Header
pub mod RoundTrip
pub mod Corrupt
pub mod Burst
pub mod Reencode
use panicdump.Base.{
  ℕ, ◌+◌, List, Bool, true, false, Option, none, some, ◌&&◌, bit_and, ltb, ◌==◌, ◌!=◌,
  if◌then◌else◌,
}
use panicdump.Wire.{load_u16, load_u32}
use panicdump.Format
use panicdump.Dump.{Dump}
use panicdump.Fields.{write_u32_field, crc32_with_zero_crc, encode_dump_fields, decode_dump_fields}

-- `~(INVALID_FRAME | USE_PSP | STACK_VALID | FRAME_VALID)`
abbrev pub unknown_flags : ℕ
unknown_flags = 0xFFFFFFF0

unfoldable pub fields_valid : Dump → Bool
fields_valid dump =
    if dump.magic != Format.magic
    then false
    else if dump.version != Format.version
    then false
    else if dump.header_size != Format.header_size
    then false
    else if dump.total_size != Format.wire_total_size
    then false
    else if bit_and dump.flags unknown_flags != 0
    then false
    else if dump.arch_id != Format.arch_cortex_m3 && dump.arch_id != Format.arch_cortex_m4
    then false
    else if ltb Format.fault_sw_trigger dump.fault_reason
    then false
    else if ltb Format.stack_slice_bytes dump.stack.stack_bytes
    then false
    else if dump.stack.stack_bytes != 0 && dump.stack.stack_bytes != Format.stack_slice_bytes
    then false
    else true

unfoldable pub dump_fields_valid : Option Dump → Bool
dump_fields_valid none = false
dump_fields_valid (some dump) = fields_valid dump

-- `panicdump_validate_wire` past its test for null and length.
unfoldable pub image_valid : List ℕ → Bool
image_valid wire =
    if load_u32 wire Format.magic_offset != Format.magic
    then false
    else if load_u16 wire Format.version_offset != Format.version
    then false
    else if load_u16 wire Format.header_size_offset != Format.header_size
    then false
    else if load_u32 wire Format.total_size_offset != Format.wire_total_size
    then false
    else let flags = load_u32 wire Format.flags_offset in
      let arch_id = load_u32 wire Format.arch_id_offset in
      let fault_reason = load_u32 wire Format.fault_reason_offset in
      let stack_bytes = load_u32 wire (Format.stack_offset + 4) in
      let stored_crc = load_u32 wire Format.crc32_offset in
      if bit_and flags unknown_flags != 0
      then false
      else if arch_id != Format.arch_cortex_m3 && arch_id != Format.arch_cortex_m4
      then false
      else if ltb Format.fault_sw_trigger fault_reason
      then false
      else if ltb Format.stack_slice_bytes stack_bytes
      then false
      else if stack_bytes != 0 && stack_bytes != Format.stack_slice_bytes
      then false
      else stored_crc == crc32_with_zero_crc wire

unfoldable pub validate_wire : Option (List ℕ) → ℕ → Bool
validate_wire none wire_len = false
validate_wire (some wire) wire_len =
    if wire_len != Format.wire_total_size then false else image_valid wire

-- The result, and the output buffer afterwards.
unfoldable pub encode_dump : Option (List ℕ) → ℕ → Option Dump → Bool × Option (List ℕ)
encode_dump none out_wire_len dump = (false, none)
encode_dump (some out_wire) out_wire_len none = (false, some out_wire)
encode_dump (some out_wire) out_wire_len (some dump) =
    if dump_fields_valid (some dump)
    then (if out_wire_len != Format.wire_total_size
        then (false, some out_wire)
        else let wire = encode_dump_fields out_wire dump in
          let wire' = write_u32_field wire Format.crc32_offset (crc32_with_zero_crc wire) in
          (validate_wire (some wire') out_wire_len, some wire'))
    else (false, some out_wire)

-- The result, and `*out_dump` afterwards.
unfoldable pub decode_dump : Option Dump → Option (List ℕ) → ℕ → Bool × Option Dump
decode_dump none wire wire_len = (false, none)
decode_dump (some out) none wire_len = (false, some out)
decode_dump (some out) (some wire) wire_len =
    if validate_wire (some wire) wire_len
    then (true, some (decode_dump_fields wire))
    else (false, some out)

-- `wire` is the local array, which C leaves uninitialised.
unfoldable pub validate_dump : List ℕ → Option Dump → Bool
validate_dump wire dump =
    if dump_fields_valid dump
    then (encode_dump (some wire) Format.wire_total_size dump).0
    else false
