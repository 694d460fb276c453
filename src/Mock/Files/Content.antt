-- ===== src/Mock/Files/Content.antt =====
-- tools/decode_panicdump.py on the contents of the files that tools/make_mock_dump.py writes.
use panicdump.Base.{
  ℕ, ◌<◌, ◌^◌, ◌≡◌, ◌↔◌, refl, ap, ◌∙◌, arith, List, Bool, true, false, not, ◌||◌, some, length,
}
use panicdump.Crc.{crc32}
use panicdump.Dump.{IsBytes}
use panicdump.Codec.{validate_wire}
use panicdump.Decoder.Frame.{loaded}
use panicdump.Decoder.Main
use panicdump.Decoder.Main.{Arguments, load}
use panicdump.Decoder.Main.Status.{main-validate_wire}
use panicdump.Mock.{Fault, build_dump, build_hex_framed}
use panicdump.Mock.Valid.{build_dump-image}
use panicdump.Mock.Text.{build_hex_framed-dump_text}

-- A dump with a wrong checksum, or without a magic.
abbrev pub is_spoiled : Bool → Bool → Bool
is_spoiled corrupt_crc partial = corrupt_crc || partial

module _ (zlib_crc32 : List ℕ → ℕ) where
  -- Read with `--hex` or without, the decoder exits with 0 exactly if the dump is not spoiled.
  abbrev pub IsJudged : Bool × Bool → List ℕ → Type 0
  IsJudged (hex, spoiled) content =
      (args : Arguments)
      → args.hex ≡ hex
      → ((Main.main zlib_crc32 args (some content)).1 ≡ 0) ↔ (spoiled ≡ false)

  module _ (zlib : (s : List ℕ) → zlib_crc32 s ≡ crc32 s (length s)) where
    content-IsJudged :
        (hex : Bool) (content w : List ℕ) (spoiled : Bool)
        → load hex content ≡ loaded w
        → length w ≡ 192
        → IsBytes w
        → validate_wire (some w) 192 ≡ not spoiled
        → IsJudged (hex, spoiled) content
    content-IsJudged hex content w spoiled read full bytes valid args same =
        let judged =
          main-validate_wire zlib_crc32 args content w zlib (ap (λ h. load h content) same ∙ read)
            bytes in
        let verdict : validate_wire (some w) (length w) ≡ not spoiled =
          ap (validate_wire (some w)) full ∙ valid in
        ground (arith, judged.0, verdict)

    -- What becomes of one call of `build_dump`.
    abbrev pub BuiltJudged : Fault → ℕ → Bool → Bool → Type 0
    BuiltJudged fault user_tag corrupt_crc partial =
        let spoiled = is_spoiled corrupt_crc partial in
        (w : List ℕ) × (build_dump zlib_crc32 fault user_tag 0 0 corrupt_crc partial ≡ some w)
        × IsJudged (false, spoiled) w
        × IsJudged (true, spoiled) (build_hex_framed w)

    pub built-IsJudged :
        (fault : Fault) (user_tag : ℕ) (corrupt_crc partial : Bool)
        → user_tag < 2 ^ 32
        → BuiltJudged fault user_tag corrupt_crc partial
    built-IsJudged fault t corrupt_crc partial fits =
        let spoiled = is_spoiled corrupt_crc partial in
        let (w, built, full, bytes, valid) =
          build_dump-image zlib_crc32 zlib fault t corrupt_crc partial fits in
        (
          w,
          built,
          content-IsJudged false w w spoiled refl full bytes valid,
          content-IsJudged true (build_hex_framed w) w spoiled
              (build_hex_framed-dump_text w full bytes).1 full bytes valid,
        )
