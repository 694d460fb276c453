-- ===== src/Decoder/Parse.antt =====
-- `parse` and `verify_crc` of tools/decode_panicdump.py. `zlib.crc32` is a parameter.
pub mod Agree
pub mod Valid
pub mod Fields
use panicdump.Base.{
  ℕ, ◌+◌, ◌*◌, List, Bool, true, Option, none, some, ◌!=◌, ◌==◌, ◌&&◌, ltb, leb, if◌then◌else◌, not,
  length, take, set, tabulate, bit_and,
}
use panicdump.Wire.{byte_at}
use panicdump.Dump.{Regs}

-- `struct.unpack_from` of "<I" and "<H".
abbrev pub unpack_u32 : List ℕ → ℕ → ℕ
unpack_u32 raw i =
    byte_at raw i
    + byte_at raw (i + 1) * 256
    + byte_at raw (i + 2) * 65536
    + byte_at raw (i + 3) * 16777216

abbrev pub unpack_u16 : List ℕ → ℕ → ℕ
unpack_u16 raw i = byte_at raw i + byte_at raw (i + 1) * 256

-- The messages of the `ValueError`s, with the number that they show.
pub data ParseError : Type 0 where
  bad_length bad_magic bad_version bad_header_size bad_total_size : ℕ → ParseError
  bad_flags bad_arch_id bad_fault_reason bad_stack_bytes unsupported_stack_bytes : ℕ → ParseError

pub record PanicDump : Type 0 where
  pub magic : ℕ
  pub version : ℕ
  pub header_size : ℕ
  pub total_size : ℕ
  pub flags : ℕ
  pub arch_id : ℕ
  pub fault_reason : ℕ
  pub sequence : ℕ
  pub user_tag : ℕ
  pub crc32 : ℕ
  pub crc_ok : Bool
  pub regs : Regs
  pub stack_sp : ℕ
  pub stack_bytes : ℕ
  pub stack_data : List ℕ

pub data Parsed : Type 0 where
  parsed : PanicDump → Parsed
  refused : ParseError → Parsed

-- The `ValueError`, or the dump.
abbrev pub outcome : Option ParseError → PanicDump → Parsed
outcome (some e) d = refused e
outcome none d = parsed d

-- The keys of ARCH_NAMES and FAULT_NAMES.
abbrev pub is_arch_name : ℕ → Bool
is_arch_name n = if n == 0x0003 then true else n == 0x0004

abbrev pub is_fault_name : ℕ → Bool
is_fault_name n = leb n 5

-- The tests of `parse`, in order. The numbers are words, so the mask `~VALID_FLAGS_MASK` is cut to
-- 32 bits.
unfoldable pub field_error : ℕ → ℕ → ℕ → ℕ → ℕ → ℕ → ℕ → ℕ → ℕ → Option ParseError
field_error size magic version header_size total_size flags arch_id fault_reason stack_bytes =
    if size != 192
    then some (bad_length size)
    else if magic != 0x50444331
    then some (bad_magic magic)
    else if version != 1
    then some (bad_version version)
    else if header_size != 36
    then some (bad_header_size header_size)
    else if total_size != 192
    then some (bad_total_size total_size)
    else if bit_and flags 0xFFFFFFF0 != 0
    then some (bad_flags flags)
    else if not (is_arch_name arch_id)
    then some (bad_arch_id arch_id)
    else if not (is_fault_name fault_reason)
    then some (bad_fault_reason fault_reason)
    else if ltb 64 stack_bytes
    then some (bad_stack_bytes stack_bytes)
    else if stack_bytes != 0 && stack_bytes != 64
    then some (unsupported_stack_bytes stack_bytes)
    else none

-- `dict(zip(REGS_FIELDS, reg_vals))`
unfoldable pub unpack_regs : List ℕ → Regs
unpack_regs raw = record {
  r0 = unpack_u32 raw 36;
  r1 = unpack_u32 raw 40;
  r2 = unpack_u32 raw 44;
  r3 = unpack_u32 raw 48;
  r12 = unpack_u32 raw 52;
  lr = unpack_u32 raw 56;
  pc = unpack_u32 raw 60;
  xpsr = unpack_u32 raw 64;
  msp = unpack_u32 raw 68;
  psp = unpack_u32 raw 72;
  control = unpack_u32 raw 76;
  primask = unpack_u32 raw 80;
  basepri = unpack_u32 raw 84;
  faultmask = unpack_u32 raw 88;
  cfsr = unpack_u32 raw 92;
  hfsr = unpack_u32 raw 96;
  dfsr = unpack_u32 raw 100;
  mmfar = unpack_u32 raw 104;
  bfar = unpack_u32 raw 108;
  afsr = unpack_u32 raw 112;
  shcsr = unpack_u32 raw 116;
}

-- `struct.pack_into("<I", mutable, crc_offset, 0)`
abbrev pub with_zero_crc : List ℕ → List ℕ
with_zero_crc raw = set (set (set (set raw 32 0) 33 0) 34 0) 35 0

module _ (zlib_crc32 : List ℕ → ℕ) where
  unfoldable pub compute_crc32 : List ℕ → ℕ
  compute_crc32 bytes = bit_and (zlib_crc32 bytes) 0xFFFFFFFF

  -- The first of the three results.
  unfoldable pub verify_crc : List ℕ → Bool
  unfolding compute_crc32
  verify_crc raw = unpack_u32 raw 32 == compute_crc32 (with_zero_crc raw)

  unfoldable pub unpack_dump : List ℕ → PanicDump
  unfolding verify_crc unpack_regs
  unpack_dump raw =
      let stack_bytes = unpack_u32 raw 124 in
      record {
        magic = unpack_u32 raw 0;
        version = unpack_u16 raw 4;
        header_size = unpack_u16 raw 6;
        total_size = unpack_u32 raw 8;
        flags = unpack_u32 raw 12;
        arch_id = unpack_u32 raw 16;
        fault_reason = unpack_u32 raw 20;
        sequence = unpack_u32 raw 24;
        user_tag = unpack_u32 raw 28;
        crc32 = unpack_u32 raw 32;
        crc_ok = verify_crc raw;
        regs = unpack_regs raw;
        stack_sp = unpack_u32 raw 120;
        stack_bytes = stack_bytes;
        stack_data = take stack_bytes (tabulate 64 128 (byte_at raw));
      }

  unfoldable pub parse : List ℕ → Parsed
  unfolding unpack_dump
  parse raw =
      let d = unpack_dump raw in
      outcome
        (field_error (length raw) d.magic d.version d.header_size d.total_size d.flags d.arch_id
          d.fault_reason d.stack_bytes)
        d
