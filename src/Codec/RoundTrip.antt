-- ===== src/Codec/RoundTrip.antt =====
-- `panicdump_encode_dump` and `panicdump_decode_dump` against each other.
use panicdump.Base.{
  ◌==◌, ◌&&◌, Bool-cases, inl, inr, false, if◌then◌else◌, ℕ, ◌≡◌, ℕ_discrete, refl, sym, ◌∙◌, arith,
  List, true, some, length,
}
use panicdump.Wire.{store_u32}
use panicdump.Dump.{Dump, IsDump}
use panicdump.Fields.{crc32_with_zero_crc}
use panicdump.Fields.Image.{image, length-image, image-IsBytes, encode-image}
use panicdump.Fields.Decode.{stored, decode-image}
use panicdump.Fields.Checksum.{checksum-lt, checksum-image}
use panicdump.Codec.{
  fields_valid, dump_fields_valid, image_valid, validate_wire, encode_dump, decode_dump,
  validate_dump,
}
use panicdump.Codec.Header.{image-IsValidImage_iff}
use panicdump.Codec.Valid.{IsValidDump, fields_valid_iff, image_valid_iff}

-- The dump with the checksum of its image.
abbrev pub with_checksum : Dump → Dump
with_checksum dump = record dump { crc32 = crc32_with_zero_crc (image dump) }

pub with_checksum-IsDump : (dump : Dump) → IsDump dump → IsDump (with_checksum dump)
with_checksum-IsDump dump h =
    let crc32 = checksum-lt (image dump) (image-IsBytes dump h.stack.slice_bytes) in
    record {
      magic = h.magic;
      version = h.version;
      header_size = h.header_size;
      total_size = h.total_size;
      flags = h.flags;
      arch_id = h.arch_id;
      fault_reason = h.fault_reason;
      sequence = h.sequence;
      user_tag = h.user_tag;
      crc32 = crc32;
      regs = h.regs;
      stack = h.stack;
    }

store-checksum :
    (dump : Dump) (c : ℕ) → store_u32 (image dump) 32 c ≡ image (record dump { crc32 = c })
unfolding store_u32 image
store-checksum dump c = refl

-- What encoding leaves in the buffer passes the validity check.
pub image_valid-image :
    (dump : Dump) → IsDump dump → IsValidDump dump → image_valid (image (with_checksum dump)) ≡ true
image_valid-image dump h v =
    let sealed = with_checksum dump in
    let typed = with_checksum-IsDump dump h in
    let valid : IsValidDump sealed = assumption (v.magic) in
    let same = sym (checksum-image dump dump.magic (crc32_with_zero_crc (image dump))) in
    let ok = (image-IsValidImage_iff sealed typed).1 (valid, same) in
    let full = length-image sealed h.stack.slice_length in
    (image_valid_iff (image sealed) full (omega (arith, ok.flags))).1 ok

encode_dump_full :
    (wire : List ℕ) (dump : Dump)
    → length wire ≡ 192
    → IsDump dump
    → encode_dump (some wire) 192 (some dump) ≡ (
        if fields_valid dump then (true, some (image (with_checksum dump))) else (false, some wire))
unfolding encode_dump dump_fields_valid validate_wire
encode_dump_full wire dump e h = elim (Bool-cases (fields_valid dump)) [
  | inl valid ↦
      let v = (fields_valid_iff dump h).0 valid in
      rw (valid, encode-image wire dump e h.stack.slice_length, store-checksum)
        (rw (image_valid-image dump h v))
  | inr invalid ↦ rw invalid
]

-- A valid dump goes through `panicdump_encode_dump`, whatever the buffer of 192 bytes held, and
-- `panicdump_decode_dump` then gives it back with the checksum of its image. Only an empty stack
-- slice comes back as 64 zero bytes.
pub decode-encode :
    (wire : List ℕ) (dump out : Dump)
    → length wire ≡ 192
    → IsDump dump
    → fields_valid dump ≡ true
    → let (ok, buffer) = encode_dump (some wire) 192 (some dump) in
      (ok ≡ true) × (decode_dump (some out) buffer 192 ≡ (true, some (stored (with_checksum dump))))
unfolding decode_dump validate_wire
decode-encode wire dump out e h valid =
    let v = (fields_valid_iff dump h).0 valid in
    rw (encode_dump_full wire dump e h, valid)
      (
        refl,
        rw
            (
              image_valid-image dump h v,
              decode-image (with_checksum dump) (with_checksum-IsDump dump h)
                  (omega (arith, v.stack_bytes)),
            )
            refl,
      )

-- On a buffer of `len` bytes, `panicdump_encode_dump` succeeds exactly for a length of 192 and a dump
-- whose fields are valid. Then the buffer holds the image of the dump with its checksum; otherwise it
-- is as it was.
pub encode_dump_lem :
    (wire : List ℕ) (len : ℕ) (dump : Dump)
    → length wire ≡ len
    → IsDump dump
    → encode_dump (some wire) len (some dump) ≡ (
        if len == 192 && fields_valid dump
        then (true, some (image (with_checksum dump)))
        else (false, some wire))
unfolding encode_dump dump_fields_valid
encode_dump_lem wire len dump e h = elim (ℕ_discrete len 192) [
  | yes full ↦ rw full (encode_dump_full wire dump (e ∙ full) h)
  | no other ↦ ground arith
]

validate_dump_lem :
    (wire : List ℕ) (dump : Dump)
    → length wire ≡ 192
    → IsDump dump
    → validate_dump wire (some dump) ≡ fields_valid dump
unfolding validate_dump dump_fields_valid
validate_dump_lem wire dump e h = elim (Bool-cases (fields_valid dump)) [
  | inl valid ↦ rw (valid, encode_dump_full wire dump e h, valid)
  | inr invalid ↦ rw invalid
]

fields_valid-crc32 :
    (dump : Dump) (c : ℕ) → fields_valid (record dump { crc32 = c }) ≡ fields_valid dump
unfolding fields_valid
fields_valid-crc32 dump c = refl

-- `panicdump_validate_dump` accepts a dump exactly if its fields are valid: encoding it into the
-- local array never changes the answer, and no checksum in the struct makes it refuse.
pub validate_dump-eq :
    (wire : List ℕ) (dump : Dump) (c : ℕ)
    → length wire ≡ 192
    → IsDump (record dump { crc32 = c })
    → validate_dump wire (some (record dump { crc32 = c })) ≡ fields_valid dump
validate_dump-eq wire dump c e h =
    validate_dump_lem wire (record dump { crc32 = c }) e h ∙ fields_valid-crc32 dump c
