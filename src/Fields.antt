-- ===== src/Fields.antt =====
-- src/panicdump.c: the checksum of an image, and the fields of a dump written into an image and read
-- from it.
pub mod Image
pub mod Checksum
pub mod Decode
pub mod Canonical
use panicdump.Base.{
  ℕ, ◌+◌, ◌-◌, List, [], ◌∷◌, bit_and, bit_xor, ltb, ◌!=◌, if◌then◌else◌, ◌>>>◌, u8,
}
use panicdump.Wire.{store_u16, store_u32, load_u16, load_u32, zero_bytes, copy_bytes}
use panicdump.Crc.{crc32_update}
use panicdump.Format
use panicdump.Dump.{Regs, Stack, Dump, zero_stack}

-- `panicdump_wire_crc32_magic_prefix`
unfoldable pub crc32_magic_prefix : ℕ
crc32_magic_prefix =
    crc32_update 0xFFFFFFFF
      (u8 (bit_and Format.magic 0xff)
        ∷ u8 (bit_and (Format.magic >>> 8) 0xff)
        ∷ u8 (bit_and (Format.magic >>> 16) 0xff)
        ∷ u8 (bit_and (Format.magic >>> 24) 0xff)
        ∷ [])
      0 4

unfoldable pub crc32_with_zero_crc : List ℕ → ℕ
crc32_with_zero_crc wire =
    let crc = crc32_update crc32_magic_prefix wire 4 (Format.crc32_offset - 4) in
    let crc' = crc32_update crc (0 ∷ 0 ∷ 0 ∷ 0 ∷ []) 0 4 in
    let rest = Format.wire_total_size - (Format.crc32_offset + 4) in
    bit_xor (crc32_update crc' wire (Format.crc32_offset + 4) rest) 0xFFFFFFFF

abbrev pub write_u32_field : List ℕ → ℕ → ℕ → List ℕ
write_u32_field wire offset value = store_u32 wire offset value

abbrev pub write_u16_field : List ℕ → ℕ → ℕ → List ℕ
write_u16_field wire offset value = store_u16 wire offset value

-- The array `values` of `panicdump_write_regs`.
abbrev pub reg_values : Regs → List ℕ
reg_values regs =
    regs.r0 ∷ regs.r1 ∷ regs.r2 ∷ regs.r3 ∷ regs.r12 ∷ regs.lr ∷ regs.pc ∷ regs.xpsr ∷ regs.msp
    ∷ regs.psp ∷ regs.control ∷ regs.primask ∷ regs.basepri ∷ regs.faultmask ∷ regs.cfsr ∷ regs.hfsr
    ∷ regs.dfsr ∷ regs.mmfar ∷ regs.bfar ∷ regs.afsr ∷ regs.shcsr ∷ []

-- Its loop, over the values that are left.
unfoldable pub write_words : List ℕ → ℕ → List ℕ → List ℕ
unfolding store_u32
write_words wire offset [] = wire
write_words wire offset (value ∷ values) =
    write_words (write_u32_field wire offset value) (offset + 4) values

unfoldable pub write_regs : List ℕ → Regs → List ℕ
unfolding write_words
write_regs wire regs = write_words wire Format.regs_offset (reg_values regs)

unfoldable pub write_stack : List ℕ → Stack → List ℕ
unfolding store_u32 copy_bytes zero_bytes
write_stack wire stack =
    let offset = Format.stack_offset in
    let wire1 = write_u32_field wire offset stack.captured_sp in
    let wire2 = write_u32_field wire1 (offset + 4) stack.stack_bytes in
    if stack.stack_bytes != 0
    then copy_bytes wire2 (offset + 8) stack.slice 0 Format.stack_slice_bytes
    else zero_bytes wire2 (offset + 8) Format.stack_slice_bytes

unfoldable pub read_regs : List ℕ → Regs
unfolding load_u32
read_regs wire =
    let p = Format.regs_offset in
    record {
      r0 = load_u32 wire (p + 0);
      r1 = load_u32 wire (p + 4);
      r2 = load_u32 wire (p + 8);
      r3 = load_u32 wire (p + 12);
      r12 = load_u32 wire (p + 16);
      lr = load_u32 wire (p + 20);
      pc = load_u32 wire (p + 24);
      xpsr = load_u32 wire (p + 28);
      msp = load_u32 wire (p + 32);
      psp = load_u32 wire (p + 36);
      control = load_u32 wire (p + 40);
      primask = load_u32 wire (p + 44);
      basepri = load_u32 wire (p + 48);
      faultmask = load_u32 wire (p + 52);
      cfsr = load_u32 wire (p + 56);
      hfsr = load_u32 wire (p + 60);
      dfsr = load_u32 wire (p + 64);
      mmfar = load_u32 wire (p + 68);
      bfar = load_u32 wire (p + 72);
      afsr = load_u32 wire (p + 76);
      shcsr = load_u32 wire (p + 80);
    }

-- `stack` is what `panicdump_decode_dump_fields` has zeroed.
unfoldable pub read_stack : Stack → List ℕ → Stack
unfolding load_u32 copy_bytes
read_stack stack wire =
    let p = Format.stack_offset in
    let bytes = load_u32 wire (p + 4) in
    record {
      captured_sp = load_u32 wire (p + 0);
      stack_bytes = if ltb Format.stack_slice_bytes bytes then 0 else bytes;
      slice = copy_bytes stack.slice 0 wire (p + 8) Format.stack_slice_bytes;
    }

unfoldable pub encode_header : List ℕ → Dump → List ℕ
unfolding store_u16 store_u32
encode_header wire dump =
    let wire1 = write_u16_field wire Format.version_offset dump.version in
    let wire2 = write_u16_field wire1 Format.header_size_offset dump.header_size in
    let wire3 = write_u32_field wire2 Format.total_size_offset dump.total_size in
    let wire4 = write_u32_field wire3 Format.flags_offset dump.flags in
    let wire5 = write_u32_field wire4 Format.arch_id_offset dump.arch_id in
    let wire6 = write_u32_field wire5 Format.fault_reason_offset dump.fault_reason in
    let wire7 = write_u32_field wire6 Format.sequence_offset dump.sequence in
    let wire8 = write_u32_field wire7 Format.user_tag_offset dump.user_tag in
    write_u32_field wire8 Format.crc32_offset dump.crc32

unfoldable pub encode_dump_fields : List ℕ → Dump → List ℕ
unfolding zero_bytes store_u32 encode_header write_regs write_stack
encode_dump_fields wire dump =
    let wire1 = zero_bytes wire 0 Format.wire_total_size in
    let wire2 = write_u32_field wire1 Format.magic_offset dump.magic in
    let wire3 = encode_header wire2 dump in
    let wire4 = write_regs wire3 dump.regs in write_stack wire4 dump.stack

-- Every field of the zeroed struct is assigned, so what it held before does not enter.
unfoldable pub decode_dump_fields : List ℕ → Dump
unfolding load_u16 load_u32 read_regs read_stack
decode_dump_fields wire = record {
  magic = load_u32 wire Format.magic_offset;
  version = load_u16 wire Format.version_offset;
  header_size = load_u16 wire Format.header_size_offset;
  total_size = load_u32 wire Format.total_size_offset;
  flags = load_u32 wire Format.flags_offset;
  arch_id = load_u32 wire Format.arch_id_offset;
  fault_reason = load_u32 wire Format.fault_reason_offset;
  sequence = load_u32 wire Format.sequence_offset;
  user_tag = load_u32 wire Format.user_tag_offset;
  crc32 = load_u32 wire Format.crc32_offset;
  regs = read_regs wire;
  stack = read_stack zero_stack wire;
}
