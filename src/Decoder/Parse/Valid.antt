-- ===== src/Decoder/Parse/Valid.antt =====
-- When `parse` returns a dump whose checksum is right.
use panicdump.Base.{
  ℕ, ◌≡◌, ◌↔◌, refl, sym, ap, ◌∙◌, arith, List, Bool, true, false, Option, none, some, length,
}
use panicdump.Crc.{crc32}
use panicdump.Dump.{IsBytes}
use panicdump.Decoder.Parse.{
  ParseError, PanicDump, Parsed, parsed, refused, field_error, outcome, unpack_u32, unpack_u16,
  unpack_dump, parse,
}
use panicdump.Decoder.Parse.Agree.{fields_known, known-valid, valid-known, verify_crc_iff}
use panicdump.Codec.{validate_wire}
use panicdump.Codec.Valid.{validate_wire_iff}

-- The dump of a result, else another.
abbrev pub dump_or : PanicDump → Parsed → PanicDump
dump_or d (parsed x) = x
dump_or d (refused e) = d

abbrev pub is_parsed : Parsed → Bool
is_parsed (parsed x) = true
is_parsed (refused e) = false

accepted : (o : Option ParseError) (d x : PanicDump) → outcome o d ≡ parsed x → (o ≡ none) × (d ≡ x)
accepted none d x e = (refl, ap (dump_or d) e)
accepted (some err) d x e = ground (arith, ap is_parsed e)

module _ (zlib_crc32 : List ℕ → ℕ) (zlib : (s : List ℕ) → zlib_crc32 s ≡ crc32 s (length s))
    (raw : List ℕ) (bytes : IsBytes raw) where
  abbrev error : Option ParseError
  error =
      field_error (length raw) (unpack_u32 raw 0) (unpack_u16 raw 4) (unpack_u16 raw 6)
        (unpack_u32 raw 8) (unpack_u32 raw 12) (unpack_u32 raw 16) (unpack_u32 raw 20)
        (unpack_u32 raw 124)

  parse-outcome : parse zlib_crc32 raw ≡ outcome error (unpack_dump zlib_crc32 raw)
  unfolding parse
  parse-outcome = refl

  pub valid-parse :
      validate_wire (some raw) (length raw) ≡ true
      → parse zlib_crc32 raw ≡ parsed (unpack_dump zlib_crc32 raw)
  valid-parse v =
      let both = (validate_wire_iff raw (length raw) refl bytes).0 v in
      let none' =
        (fields_known zlib_crc32 zlib raw bytes).1
          (valid-known zlib_crc32 zlib raw bytes both.0 both.1) in
      parse-outcome ∙ ap (λ o. outcome o (unpack_dump zlib_crc32 raw)) none'

  -- On an array of bytes, `parse` returns a dump with a right checksum exactly if
  -- `panicdump_validate_wire` accepts it, if `zlib.crc32` is the CRC-32 of the format.
  pub parse-valid :
      ((d : PanicDump) × (parse zlib_crc32 raw ≡ parsed d) × (d.crc_ok ≡ true))
      ↔ (validate_wire (some raw) (length raw) ≡ true)
  unfolding unpack_dump
  parse-valid =
      let spec = validate_wire_iff raw (length raw) refl bytes in
      (
        (λ (d, e, ok).
            let (none', same) =
              accepted error (unpack_dump zlib_crc32 raw) d (sym parse-outcome ∙ e) in
            let k = (fields_known zlib_crc32 zlib raw bytes).0 none' in
            spec.1
              (k.size, known-valid zlib_crc32 zlib raw bytes k (ap (λ x. x.crc_ok) same ∙ ok))),
        λ v.
            let both = spec.0 v in
            (
              unpack_dump zlib_crc32 raw,
              valid-parse v,
              (verify_crc_iff raw bytes zlib_crc32 zlib both.0 both.1.magic).1 both.1.crc32,
            ),
      )
