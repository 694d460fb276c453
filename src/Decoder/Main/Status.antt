-- ===== src/Decoder/Main/Status.antt =====
-- The exit status of the decoder says whether the library accepts the dump.
use panicdump.Base.{
  ℕ, ◌≡◌, ◌↔◌, ◌⊎◌, inl, refl, ap, ◌∙◌, arith, List, Bool, true, false, some, length,
}
use panicdump.Crc.{crc32}
use panicdump.Dump.{IsBytes}
use panicdump.Codec.{validate_wire}
use panicdump.Decoder.Frame.{loaded}
use panicdump.Decoder.Parse.{PanicDump, Parsed, parsed, refused, parse}
use panicdump.Decoder.Parse.Valid.{parse-valid, dump_or, is_parsed}
use panicdump.Decoder.Main.{Arguments, Printed, json, load, show_dump, show_parsed, main}

abbrev pub is_json : Printed → Bool
is_json (json object) = true
is_json other = false

show_dump-status :
    (args : Arguments) (d : PanicDump) → ((show_dump args d).1 ≡ 0) ↔ (d.crc_ok ≡ true)
unfolding show_dump
show_dump-status args d = ground arith

show_parsed-status :
    (args : Arguments) (p : Parsed)
    → ((show_parsed args p).1 ≡ 0) ↔ ((d : PanicDump) × (p ≡ parsed d) × (d.crc_ok ≡ true))
show_parsed-status args (parsed x) =
    let status = show_dump-status args x in
    (
      λ e. (x, refl, status.0 e),
      λ (d, e, ok). status.1 (ap (λ (t : PanicDump). t.crc_ok) (ap (dump_or x) e) ∙ ok),
    )
show_parsed-status args (refused e) =
    (λ e. absurd (omega arith), λ (d, wrong, ok). ground (arith, ap is_parsed wrong))

show_dump-json :
    (args : Arguments) (d : PanicDump)
    → (is_json (show_dump args d).0 ≡ false) ⊎ (args.forensic ≡ true) ⊎ ((show_dump args d).1 ≡ 0)
unfolding show_dump
show_dump-json args d = ground arith

show_parsed-json :
    (args : Arguments) (p : Parsed)
    → (is_json (show_parsed args p).0 ≡ false)
      ⊎ (args.forensic ≡ true)
      ⊎ ((show_parsed args p).1 ≡ 0)
show_parsed-json args (parsed d) = show_dump-json args d
show_parsed-json args (refused e) = inl refl

-- If the file holds bytes, as they are or in a frame, the exit status is 0 exactly if
-- `panicdump_validate_wire` accepts them, whatever the options, and without `--forensic` a JSON object is
-- printed only with that status, if `zlib.crc32` is the CRC-32 of the format.
pub main-validate_wire :
    (zlib_crc32 : List ℕ → ℕ) (args : Arguments) (content raw : List ℕ)
    → ((s : List ℕ) → zlib_crc32 s ≡ crc32 s (length s))
    → load args.hex content ≡ loaded raw
    → IsBytes raw
    → let (printed, status) = main zlib_crc32 args (some content) in
      ((status ≡ 0) ↔ (validate_wire (some raw) (length raw) ≡ true))
      × ((is_json printed ≡ false) ⊎ (args.forensic ≡ true) ⊎ (status ≡ 0))
unfolding main
main-validate_wire zlib_crc32 args content raw zlib read bytes =
    let exits = show_parsed-status args (parse zlib_crc32 raw) in
    let valid = parse-valid zlib_crc32 zlib raw bytes in
    rw read (
      (λ e. valid.0 (exits.0 e), λ v. exits.1 (valid.1 v)),
      show_parsed-json args (parse zlib_crc32 raw),
    )
