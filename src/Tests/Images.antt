-- ===== src/Tests/Images.antt =====
-- The theorems on images and on encoding, at concrete inputs.
use panicdump.Base.{
  ℕ, ◌≡◌, ◌≢◌, ◌↔◌, refl, arith, List, some, true, false, set, get_or-set_ne, ◌==◌, ◌&&◌,
  if◌then◌else◌, sym, inl, inr, ◌<◌, ◌≤◌, ◌⊎◌, ◌∙◌,
}
use panicdump.Wire.{byte_at}
use panicdump.Crc.{crc32}
use panicdump.Dump.{IsBytes, IsDump}
use panicdump.Crc.Division.{bits, frame_check, message_bits}
use panicdump.Crc.Division.Register.{crc32-frame_check}
use panicdump.Fields.Image.{image}
use panicdump.Fields.Decode.{stored}
use panicdump.Codec.{validate_wire, encode_dump, decode_dump, validate_dump, fields_valid}
use panicdump.Codec.Valid.{IsValidImage, validate_wire_iff}
use panicdump.Codec.RoundTrip.{with_checksum, decode-encode, encode_dump_lem, validate_dump-eq}
use panicdump.Wire.{load_u32}
use panicdump.Fields.Canonical.{IsCanonical}
use panicdump.Codec.Reencode.{encode-decode}
use panicdump.Codec.Burst.{corrupted_burst}
use panicdump.Codec.Corrupt.{corrupted_byte}
use panicdump.Tests.Samples.{
  sample_dump, sample_dump-IsDump, leftover, valid_hardfault, valid_hardfault-IsBytes,
}
use panicdump.Tests.Runs.{vector_is_valid}

sample_fields_valid : fields_valid sample_dump ≡ true
unfolding fields_valid
sample_fields_valid = refl

decode-encode_example :
    let (ok, buffer) = encode_dump (some leftover) 192 (some sample_dump) in
    (ok ≡ true)
    × (decode_dump (some sample_dump) buffer 192
        ≡ (true, some (stored (with_checksum sample_dump))))
decode-encode_example =
    decode-encode leftover sample_dump sample_dump refl sample_dump-IsDump sample_fields_valid

encode_dump_lem_example : encode_dump (some leftover) 192 (some sample_dump) ≡ (
    if 192 == 192 && fields_valid sample_dump
    then (true, some (image (with_checksum sample_dump)))
    else (false, some leftover))
encode_dump_lem_example = encode_dump_lem leftover 192 sample_dump refl sample_dump-IsDump

seven-IsDump : IsDump (record sample_dump { crc32 = 7 })
seven-IsDump = omega arith

validate_dump-eq_example :
    validate_dump leftover (some (record sample_dump { crc32 = 7 })) ≡ fields_valid sample_dump
validate_dump-eq_example = validate_dump-eq leftover sample_dump 7 refl seven-IsDump

validate_wire_iff_example :
    (validate_wire (some valid_hardfault) 192 ≡ true)
    ↔ (◌≡◌ {A = ℕ} 192 192 × IsValidImage valid_hardfault)
validate_wire_iff_example = validate_wire_iff valid_hardfault 192 refl valid_hardfault-IsBytes

-- The vector with the byte 130 of the stack slice overwritten.
abbrev damaged : List ℕ
damaged = set valid_hardfault 130 255

damaged-IsBytes : IsBytes damaged
damaged-IsBytes = omega arith

byte_differs : byte_at valid_hardfault 130 ≢ byte_at damaged 130
byte_differs = omega arith

damaged_same : (i : ℕ) → i ≢ 130 → byte_at valid_hardfault i ≡ byte_at damaged i
damaged_same i h = sym (get_or-set_ne valid_hardfault 130 i 255 0 (λ e. h (sym e)))

corrupted_byte_example : validate_wire (some damaged) 192 ≡ false
corrupted_byte_example =
    corrupted_byte valid_hardfault damaged 130 refl refl valid_hardfault-IsBytes damaged-IsBytes
      (omega arith) damaged_same byte_differs vector_is_valid

crc32-frame_check_example :
    bits 32 (crc32 valid_hardfault 192) ≡ frame_check (message_bits valid_hardfault 0 192)
crc32-frame_check_example = crc32-frame_check valid_hardfault 192 valid_hardfault-IsBytes

valid_hardfault-IsCanonical : IsCanonical valid_hardfault
unfolding load_u32
valid_hardfault-IsCanonical = inl refl

encode-decode_example :
    let (ok, dump) = decode_dump (some sample_dump) (some valid_hardfault) 192 in
    (ok ≡ true) × (encode_dump (some leftover) 192 dump ≡ (true, some valid_hardfault))
encode-decode_example =
    encode-decode valid_hardfault leftover sample_dump refl refl valid_hardfault-IsBytes
      valid_hardfault-IsCanonical vector_is_valid

-- The vector with four bytes of the stack slice overwritten.
abbrev burst : List ℕ
burst = set (set (set (set valid_hardfault 130 1) 131 2) 132 3) 133 4

burst-IsBytes : IsBytes burst
burst-IsBytes = omega arith

burst_same : (i : ℕ) → (i < 130) ⊎ (134 ≤ i) → byte_at valid_hardfault i ≡ byte_at burst i
burst_same i h =
    let one = set valid_hardfault 130 1 in
    let two = set one 131 2 in
    let three = set two 132 3 in
    sym (
      get_or-set_ne three 133 i 4 0 (omega arith)
      ∙ get_or-set_ne two 132 i 3 0 (omega arith)
      ∙ get_or-set_ne one 131 i 2 0 (omega arith)
      ∙ get_or-set_ne valid_hardfault 130 i 1 0 (omega arith))

burst_differs : byte_at valid_hardfault 133 ≢ byte_at burst 133
burst_differs = omega arith

corrupted_burst_example : validate_wire (some burst) 192 ≡ false
corrupted_burst_example =
    corrupted_burst valid_hardfault burst 130 133 refl refl valid_hardfault-IsBytes burst-IsBytes
      (omega arith) (omega arith) (inr (omega arith)) burst_same (omega arith) (omega arith)
      burst_differs vector_is_valid
