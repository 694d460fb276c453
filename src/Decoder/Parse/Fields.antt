-- ===== src/Decoder/Parse/Fields.antt =====
-- What `parse` returns for a dump that the library accepts.
use panicdump.Base.{
  ℕ, ◌≡◌, refl, ap, ◌∙◌, arith, List, true, some, length, take, ltb, if◌then◌else◌, tabulate,
}
use panicdump.Wire.{byte_at, load_u32, copy_bytes}
use panicdump.Crc.{crc32}
use panicdump.Dump.{IsBytes}
use panicdump.Fields.{read_regs, read_stack, decode_dump_fields}
use panicdump.Codec.{validate_wire}
use panicdump.Codec.Valid.{IsValidImage, validate_wire_iff}
use panicdump.Decoder.Parse.{parsed, parse, unpack_dump, unpack_regs, unpack_u32}
use panicdump.Decoder.Parse.Agree.{decoded, word, half, verify_crc_iff}
use panicdump.Decoder.Parse.Valid.{valid-parse}

module _ (zlib_crc32 : List ℕ → ℕ) (zlib : (s : List ℕ) → zlib_crc32 s ≡ crc32 s (length s))
    (raw : List ℕ) (bytes : IsBytes raw) where
  w : (i : ℕ) → unpack_u32 raw i ≡ load_u32 raw i
  w = word raw bytes

  unpack_regs-read_regs : unpack_regs raw ≡ read_regs raw
  unfolding unpack_regs read_regs
  unpack_regs-read_regs = λ i. record {
    r0 = w 36 i;
    r1 = w 40 i;
    r2 = w 44 i;
    r3 = w 48 i;
    r12 = w 52 i;
    lr = w 56 i;
    pc = w 60 i;
    xpsr = w 64 i;
    msp = w 68 i;
    psp = w 72 i;
    control = w 76 i;
    primask = w 80 i;
    basepri = w 84 i;
    faultmask = w 88 i;
    cfsr = w 92 i;
    hfsr = w 96 i;
    dfsr = w 100 i;
    mmfar = w 104 i;
    bfar = w 108 i;
    afsr = w 112 i;
    shcsr = w 116 i;
  }

  unpack_dump-decoded :
      length raw ≡ 192
      → IsValidImage raw
      → unpack_dump zlib_crc32 raw ≡ decoded (decode_dump_fields raw)
  unfolding unpack_dump decode_dump_fields read_stack copy_bytes
  unpack_dump-decoded full v =
      let kept : unpack_u32 raw 124 ≡ (if ltb 64 (load_u32 raw 124) then 0 else load_u32 raw 124) =
        ground (arith, w 124, v.stack_bytes) in
      λ i. record {
        magic = w 0 i;
        version = half raw bytes 4 i;
        header_size = half raw bytes 6 i;
        total_size = w 8 i;
        flags = w 12 i;
        arch_id = w 16 i;
        fault_reason = w 20 i;
        sequence = w 24 i;
        user_tag = w 28 i;
        crc32 = w 32 i;
        crc_ok = (verify_crc_iff raw bytes zlib_crc32 zlib full v.magic).1 v.crc32 i;
        regs = unpack_regs-read_regs i;
        stack_sp = w 120 i;
        stack_bytes = kept i;
        stack_data = take (kept i) (tabulate 64 128 (byte_at raw));
      }

  -- Of a dump that `panicdump_validate_wire` accepts, `parse` returns the same fields and registers as
  -- `panicdump_decode_dump`, the first `stack_bytes` bytes of the same slice, and that its checksum
  -- is right, if `zlib.crc32` is the CRC-32 of the format.
  pub parse-decode_dump_fields :
      validate_wire (some raw) (length raw) ≡ true
      → parse zlib_crc32 raw ≡ parsed (decoded (decode_dump_fields raw))
  parse-decode_dump_fields valid =
      let (full, v) = (validate_wire_iff raw (length raw) refl bytes).0 valid in
      valid-parse zlib_crc32 zlib raw bytes valid ∙ ap parsed (unpack_dump-decoded full v)
