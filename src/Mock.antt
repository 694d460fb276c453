-- ===== src/Mock.antt =====
-- tools/make_mock_dump.py: `build_dump` and `build_hex_framed`. The fault names are the choices of the
-- option --fault, the keys of FAULT_CODES, and `zlib.crc32` is a parameter. `none` is the
-- `struct.error` of a number that is not a word.
pub mod Image
pub mod Valid
pub mod Text
pub mod Files
use panicdump.Base.{
  ℕ, zero, suc, ◌+◌, ◌-◌, ◌/◌, ◌%◌, ◌<◌, ◌^◌, List, [], ◌∷◌, ◌++◌, Bool, Option, none, some, ◌>>=◌,
  ◌&&◌, ◌==◌, ltb, leb, if◌then◌else◌, bit_and, bit_or, bit_xor, length, replicate, get_or, set,
  take,
}
use panicdump.Dump.{Regs, zero_regs}
use panicdump.Wire.Word.{le_u16, le_u32}
use panicdump.Export.{codes}
use panicdump.Decoder.Strings.{drop, hex}

pub data Fault : Type 0 where
  unknown hardfault memmanage busfault usagefault sw_trigger : Fault

-- FAULT_CODES
abbrev pub fault_code : Fault → ℕ
fault_code unknown = 0
fault_code hardfault = 1
fault_code memmanage = 2
fault_code busfault = 3
fault_code usagefault = 4
fault_code sw_trigger = 5

-- `base["hardfault"]`
abbrev pub hardfault_regs : Regs
hardfault_regs = record zero_regs {
  pc = 0x08001234;
  lr = 0xFFFFFFF9;
  xpsr = 0x21000000;
  r1 = 0x20001000;
  r2 = 0x00000010;
  r3 = 0xDEADBEEF;
  msp = 0x20007FF0;
  cfsr = 0x00008200;
  hfsr = 0x40000000;
  bfar = 0x20010004;
}

-- `base.get(fault, base["hardfault"])`
abbrev pub template : Fault → Regs
template memmanage = record zero_regs {
  pc = 0x08002345;
  lr = 0xFFFFFFF9;
  xpsr = 0x21000000;
  r1 = 1;
  r2 = 2;
  r3 = 3;
  msp = 0x20007FE0;
  cfsr = 0x00000082;
  mmfar = 0x08000000;
  shcsr = 0x00010000;
}
template usagefault = record zero_regs {
  pc = 0x08003456;
  lr = 0xFFFFFFF9;
  xpsr = 0x21000000;
  r0 = 0xCAFEBABE;
  msp = 0x20007FC0;
  cfsr = 0x02000000;
  hfsr = 0x40000000;
}
template sw_trigger = record zero_regs {
  pc = 0x08004567;
  lr = 0x08004555;
  xpsr = 0x01000000;
  msp = 0x20007FA0;
}
template unknown = hardfault_regs
template hardfault = hardfault_regs
template busfault = hardfault_regs

-- The values in the order of `fields`.
abbrev pub make_regs : Fault → List ℕ
make_regs fault =
    let t = template fault in
    t.r0 ∷ t.r1 ∷ t.r2 ∷ t.r3 ∷ t.r12 ∷ t.lr ∷ t.pc ∷ t.xpsr ∷ t.msp ∷ t.psp ∷ t.control ∷ t.primask
    ∷ t.basepri ∷ t.faultmask ∷ t.cfsr ∷ t.hfsr ∷ t.dfsr ∷ t.mmfar ∷ t.bfar ∷ t.afsr ∷ t.shcsr ∷ []

-- `struct.pack_into("<I", data, offset, v)`
abbrev pub pack_into : List ℕ → ℕ → ℕ → List ℕ
pack_into bytes offset v =
    set
      (set (set (set bytes offset (v % 256)) (offset + 1) (v / 256 % 256)) (offset + 2)
        (v / 65536 % 256))
      (offset + 3) (v / 16777216 % 256)

abbrev pub make_stack_slice : ℕ → List ℕ
make_stack_slice sp =
    pack_into
      (pack_into (pack_into (pack_into (replicate 64 0) 0 0x08001100) 4 0x08002200) 8 0x08003300) 12
      0x20001000

-- `struct.pack` of "<" and an "I" for each word.
abbrev pub pack_words : List ℕ → List ℕ
pack_words [] = []
pack_words (v ∷ values) = le_u32 v ++ pack_words values

-- What HEADER_FMT packs, with the version, the sizes and the architecture, which are constants.
abbrev pub header_fields : ℕ → ℕ → ℕ → ℕ → ℕ → ℕ → List ℕ
header_fields magic flags code sequence user_tag checksum =
    le_u32 magic
    ++ (le_u16 1
        ++ (le_u16 36 ++ pack_words (192 ∷ flags ∷ 4 ∷ code ∷ sequence ∷ user_tag ∷ checksum ∷ [])))

-- `struct.pack(HEADER_FMT, …)`
unfoldable pub pack_header : ℕ → ℕ → ℕ → ℕ → ℕ → ℕ → Option (List ℕ)
pack_header magic flags code sequence user_tag checksum =
    if ltb flags (2 ^ 32)
      && (ltb sequence (2 ^ 32) && (ltb user_tag (2 ^ 32) && ltb checksum (2 ^ 32)))
    then some (header_fields magic flags code sequence user_tag checksum)
    else none

-- The flags and the sequence that `build_dump` takes.
abbrev pub set_flags : Fault → ℕ → ℕ → ℕ × ℕ
set_flags sw_trigger sequence flags = (0, 0)
set_flags fault sequence zero = (bit_or 4 8, 0xFFFFFFF9)
set_flags fault sequence flags = (flags, sequence)

-- `regs_bytes + stack_bytes`
unfoldable pub pack_body : Fault → List ℕ
pack_body fault =
    let regs = make_regs fault in
    let sp = get_or regs 8 0 in
    pack_words regs ++ (pack_words (sp ∷ 64 ∷ []) ++ make_stack_slice sp)

module _ (zlib_crc32 : List ℕ → ℕ) where
  unfoldable pub crc32 : List ℕ → ℕ
  crc32 bytes = bit_and (zlib_crc32 bytes) 0xFFFFFFFF

  -- With the flags and the sequence set.
  unfoldable pub build_event : Fault → ℕ → ℕ → ℕ → Bool → Bool → Option (List ℕ)
  unfolding crc32 pack_header pack_body
  build_event fault user_tag sequence flags corrupt_crc partial = do
    let code = fault_code fault
    let body = pack_body fault
    unsealed ← pack_header 0x50444331 flags code sequence user_tag 0
    let plain = crc32 (unsealed ++ body)
    let checksum = if corrupt_crc then bit_xor plain 0xDEADBEEF else plain
    header ← pack_header 0x50444331 flags code sequence user_tag checksum
    uncommitted ← pack_header 0 0 code sequence user_tag checksum
    some ((if partial then uncommitted else header) ++ body)

  unfoldable pub build_dump : Fault → ℕ → ℕ → ℕ → Bool → Bool → Option (List ℕ)
  unfolding build_event
  build_dump fault user_tag sequence flags corrupt_crc partial =
      let (flags', sequence') = set_flags fault sequence flags in
      build_event fault user_tag sequence' flags' corrupt_crc partial

-- `str.upper()` of a text of ASCII.
abbrev pub upper_char : ℕ → ℕ
upper_char c = if leb 97 c && leb c 122 then c - 32 else c

unfoldable pub upper : List ℕ → List ℕ
upper [] = []
upper (c ∷ s) = upper_char c ∷ upper s

-- The slices of 64 characters from `i` on.
unfoldable pub slices : List ℕ → ℕ → ℕ → List (List ℕ)
slices raw i zero = []
slices raw i (suc left) = take 64 (drop i raw) ∷ slices raw (i + 64) left

-- `"\r\n".join(lines) + "\r\n"`
unfoldable pub join_lines : List (List ℕ) → List ℕ
join_lines [] = []
join_lines (line ∷ lines) = line ++ (13 ∷ 10 ∷ join_lines lines)

-- The lines with the markers.
unfoldable pub framed_lines : List ℕ → List ℕ
unfolding slices join_lines
framed_lines raw = join_lines (
    codes "=== PANICDUMP BEGIN ==="
    ∷ (slices raw 0 ((length raw + 63) / 64) ++ (codes "=== PANICDUMP END ===" ∷ [])))

unfoldable pub build_hex_framed : List ℕ → List ℕ
unfolding hex upper framed_lines
build_hex_framed dump_bytes = framed_lines (upper (hex dump_bytes))
