-- ===== src/Codec/Reencode.antt =====
-- Decoding a valid image and encoding the dump gives the image back.
use panicdump.Base.{ℕ, ◌≡◌, refl, sym, ap, ◌∙◌, arith, List, true, some, length, length-tabulate}
use panicdump.Wire.{copy_bytes, byte_at}
use panicdump.Wire.Word.{load_u32-lt, load_u16-lt, byte_at-lt, tabulate-IsBytes}
use panicdump.Dump.{Dump, IsRegs, IsStack, IsDump, IsBytes, zero_stack}
use panicdump.Fields.{crc32_with_zero_crc, read_regs, read_stack, decode_dump_fields}
use panicdump.Fields.Image.{image}
use panicdump.Fields.Canonical.{IsCanonical, image-decode}
use panicdump.Fields.Checksum.{checksum-crc32}
use panicdump.Codec.{validate_wire, encode_dump, decode_dump}
use panicdump.Codec.Valid.{IsValidDump, IsValidImage, fields_valid_iff, validate_wire_iff}
use panicdump.Codec.RoundTrip.{encode_dump_lem}

-- What is read from bytes is in range.
read_regs-IsRegs : (w : List ℕ) → IsBytes w → IsRegs (read_regs w)
unfolding read_regs
read_regs-IsRegs w h = record {
  r0 = load_u32-lt w 36 h;
  r1 = load_u32-lt w 40 h;
  r2 = load_u32-lt w 44 h;
  r3 = load_u32-lt w 48 h;
  r12 = load_u32-lt w 52 h;
  lr = load_u32-lt w 56 h;
  pc = load_u32-lt w 60 h;
  xpsr = load_u32-lt w 64 h;
  msp = load_u32-lt w 68 h;
  psp = load_u32-lt w 72 h;
  control = load_u32-lt w 76 h;
  primask = load_u32-lt w 80 h;
  basepri = load_u32-lt w 84 h;
  faultmask = load_u32-lt w 88 h;
  cfsr = load_u32-lt w 92 h;
  hfsr = load_u32-lt w 96 h;
  dfsr = load_u32-lt w 100 h;
  mmfar = load_u32-lt w 104 h;
  bfar = load_u32-lt w 108 h;
  afsr = load_u32-lt w 112 h;
  shcsr = load_u32-lt w 116 h;
}

read_stack-IsStack : (w : List ℕ) → IsBytes w → IsStack (read_stack zero_stack w)
unfolding read_stack copy_bytes
read_stack-IsStack w h = record {
  captured_sp = load_u32-lt w 120 h;
  stack_bytes = ground (arith, load_u32-lt w 124 h);
  slice_length = length-tabulate 64 128 (byte_at w);
  slice_bytes = tabulate-IsBytes 64 128 (byte_at w) (λ i. byte_at-lt w i h);
}

pub decode-IsDump : (w : List ℕ) → IsBytes w → IsDump (decode_dump_fields w)
unfolding decode_dump_fields
decode-IsDump w h = record {
  magic = load_u32-lt w 0 h;
  version = load_u16-lt w 4 h;
  header_size = load_u16-lt w 6 h;
  total_size = load_u32-lt w 8 h;
  flags = load_u32-lt w 12 h;
  arch_id = load_u32-lt w 16 h;
  fault_reason = load_u32-lt w 20 h;
  sequence = load_u32-lt w 24 h;
  user_tag = load_u32-lt w 28 h;
  crc32 = load_u32-lt w 32 h;
  regs = read_regs-IsRegs w h;
  stack = read_stack-IsStack w h;
}

-- The struct decoded from a valid image passes the struct's own check.
pub decode-IsValidDump : (w : List ℕ) → IsValidImage w → IsValidDump (decode_dump_fields w)
unfolding decode_dump_fields read_stack
decode-IsValidDump w v = record {
  magic = v.magic;
  version = v.version;
  header_size = v.header_size;
  total_size = v.total_size;
  flags = v.flags;
  arch_id = v.arch_id;
  fault_reason = v.fault_reason;
  stack_bytes = ground (arith, v.stack_bytes);
}

-- What `panicdump_decode_dump` returns for a valid image, `panicdump_encode_dump` turns into that
-- image again, byte for byte, whatever the output buffer held. An empty slice has to be zero in the
-- image: its bytes are decoded, but not encoded.
pub encode-decode :
    (wire buffer : List ℕ) (out : Dump)
    → length wire ≡ 192
    → length buffer ≡ 192
    → IsBytes wire
    → IsCanonical wire
    → validate_wire (some wire) 192 ≡ true
    → let (ok, dump) = decode_dump (some out) (some wire) 192 in
      (ok ≡ true) × (encode_dump (some buffer) 192 dump ≡ (true, some wire))
unfolding decode_dump
encode-decode wire buffer out e f bytes canonical valid =
    let v = ((validate_wire_iff wire 192 e bytes).0 valid).1 in
    let dump = decode_dump_fields wire in
    let typed = decode-IsDump wire bytes in
    let accepted = (fields_valid_iff dump typed).1 (decode-IsValidDump wire v) in
    let again = image-decode wire e bytes canonical in
    let checksum : dump.crc32 ≡ crc32_with_zero_crc (image dump) =
      unfold decode_dump_fields in
      v.crc32 ∙ sym (checksum-crc32 wire e) ∙ ap crc32_with_zero_crc (sym again) in
    let sealed = ap (λ c. image (record dump { crc32 = c })) (sym checksum) ∙ again in
    rw valid (
      refl,
      encode_dump_lem buffer 192 dump f typed ∙ rw accepted (ap (λ w. (true, some w)) sealed),
    )
