-- ===== src/Codec/Header.antt =====
-- The validity check on the image of a dump sees the dump's own fields.
use panicdump.Base.{ℕ, ◌≡◌, ◌↔◌, arith, List}
use panicdump.Wire.{load_u16, load_u32}
use panicdump.Wire.Word.{load_u16-le_u16, load_u32-le_u32}
use panicdump.Dump.{Dump, IsDump}
use panicdump.Fields.{crc32_with_zero_crc}
use panicdump.Fields.Image.{image, length-image}
use panicdump.Fields.Checksum.{checksum-crc32}
use panicdump.Codec.Valid.{IsValidDump, IsValidImage}

-- The fields that the check loads are those of the dump.
record Holds (wire : List ℕ) (d : Dump) : Type 0 where
  magic : load_u32 wire 0 ≡ d.magic
  version : load_u16 wire 4 ≡ d.version
  header_size : load_u16 wire 6 ≡ d.header_size
  total_size : load_u32 wire 8 ≡ d.total_size
  flags : load_u32 wire 12 ≡ d.flags
  arch_id : load_u32 wire 16 ≡ d.arch_id
  fault_reason : load_u32 wire 20 ≡ d.fault_reason
  crc32 : load_u32 wire 32 ≡ d.crc32
  stack_bytes : load_u32 wire 124 ≡ d.stack.stack_bytes

image-Holds : (dump : Dump) → IsDump dump → Holds (image dump) dump
unfolding image load_u32 load_u16
image-Holds dump h = record {
  magic = load_u32-le_u32 dump.magic h.magic;
  version = load_u16-le_u16 dump.version h.version;
  header_size = load_u16-le_u16 dump.header_size h.header_size;
  total_size = load_u32-le_u32 dump.total_size h.total_size;
  flags = load_u32-le_u32 dump.flags h.flags;
  arch_id = load_u32-le_u32 dump.arch_id h.arch_id;
  fault_reason = load_u32-le_u32 dump.fault_reason h.fault_reason;
  crc32 = load_u32-le_u32 dump.crc32 h.crc32;
  stack_bytes = load_u32-le_u32 dump.stack.stack_bytes h.stack.stack_bytes;
}

-- The image of a dump is valid exactly if the dump's fields are and its checksum is the image's.
pub image-IsValidImage_iff :
    (dump : Dump)
    → IsDump dump
    → IsValidImage (image dump)
      ↔ (IsValidDump dump × (dump.crc32 ≡ crc32_with_zero_crc (image dump)))
image-IsValidImage_iff dump h =
    let held = image-Holds dump h in
    let whole = checksum-crc32 (image dump) (length-image dump h.stack.slice_length) in
    ground (arith, held, whole)
