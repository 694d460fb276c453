-- ===== src/Codec/Valid.antt =====
-- The two validity checks, of a struct and of an image, against the list of docs/FORMAT.md.
use panicdump.Base.{
  ℕ, ◌+◌, ◌*◌, ◌/◌, ◌%◌, ◌^◌, ◌≤◌, ◌<◌, ◌≡◌, ◌⊎◌, ◌↔◌, ap, ◌∙◌, arith, List, true, some, length,
  ℕ_discrete, bit_and,
}
use panicdump.Bits.Fields.{and-high, and-mask}
use panicdump.Wire.{load_u16, load_u32}
use panicdump.Dump.{Dump, IsDump, IsBytes}
use panicdump.Wire.Word.{load_u32-lt}
use panicdump.Crc.{crc32}
use panicdump.Fields.Checksum.{sealed, checksum-crc32}
use panicdump.Codec.{fields_valid, image_valid, validate_wire, unknown_flags}

-- The magic, version, sizes, flags, architecture, reason and slice length of a dump.
pub record IsValidDump (d : Dump) : Type 0 where
  pub magic : d.magic ≡ 0x50444331
  pub version : d.version ≡ 1
  pub header_size : d.header_size ≡ 36
  pub total_size : d.total_size ≡ 192
  pub flags : d.flags < 16
  pub arch_id : (d.arch_id ≡ 3) ⊎ (d.arch_id ≡ 4)
  pub fault_reason : d.fault_reason ≤ 5
  pub stack_bytes : (d.stack.stack_bytes ≡ 0) ⊎ (d.stack.stack_bytes ≡ 64)

-- The same of an image, and the checksum.
pub record IsValidImage (wire : List ℕ) : Type 0 where
  pub magic : load_u32 wire 0 ≡ 0x50444331
  pub version : load_u16 wire 4 ≡ 1
  pub header_size : load_u16 wire 6 ≡ 36
  pub total_size : load_u32 wire 8 ≡ 192
  pub flags : load_u32 wire 12 < 16
  pub arch_id : (load_u32 wire 16 ≡ 3) ⊎ (load_u32 wire 16 ≡ 4)
  pub fault_reason : load_u32 wire 20 ≤ 5
  pub stack_bytes : (load_u32 wire 124 ≡ 0) ⊎ (load_u32 wire 124 ≡ 64)
  pub crc32 : load_u32 wire 32 ≡ crc32 (sealed wire) 192

-- No bit above the four flags is set.
pub known_flags : (f : ℕ) → f < 2 ^ 32 → bit_and f unknown_flags ≡ f / 16 * 16
known_flags f h =
    let split : f ≡ f / 16 * 2 ^ 4 + f % 16 = omega arith in
    ap (λ t. bit_and t 0xFFFFFFF0) split
    ∙ and-high 4 (f / 16) (f % 16) 0xFFFFFFF (omega arith)
    ∙ omega (arith, and-mask 28 (f / 16))

pub fields_valid_iff : (d : Dump) → IsDump d → (fields_valid d ≡ true) ↔ IsValidDump d
unfolding fields_valid
fields_valid_iff d h = ground (arith, known_flags d.flags h.flags)

pub image_valid_iff :
    (wire : List ℕ)
    → length wire ≡ 192
    → load_u32 wire 12 < 2 ^ 32
    → (image_valid wire ≡ true) ↔ IsValidImage wire
unfolding image_valid
image_valid_iff wire e h = ground (arith, known_flags (load_u32 wire 12) h, checksum-crc32 wire e)

-- On an array of `wire_len` bytes, `panicdump_validate_wire` accepts exactly the images of 192 bytes
-- that meet the conditions of docs/FORMAT.md, the checksum taken over the whole image with the
-- magic in place and its own field zero, and that have no other flag than the four.
pub validate_wire_iff :
    (wire : List ℕ) (wire_len : ℕ)
    → length wire ≡ wire_len
    → IsBytes wire
    → (validate_wire (some wire) wire_len ≡ true) ↔ ((wire_len ≡ 192) × IsValidImage wire)
unfolding validate_wire
validate_wire_iff wire wire_len e bytes = elim (ℕ_discrete wire_len 192) [
  | yes full ↦
      let valid = image_valid_iff wire (e ∙ full) (load_u32-lt wire 12 bytes) in
      ground (arith, valid)
  | no other ↦ ground arith
]
