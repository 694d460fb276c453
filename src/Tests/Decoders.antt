-- ===== src/Tests/Decoders.antt =====
-- The theorems on the offline decoder, with the checksum of the library for `zlib.crc32`.
use mathlib.Core.List.{Memᴰ}
use panicdump.Base.{
  arith, inr, ℕ, ◌≡◌, ◌↔◌, ◌⊎◌, refl, List, [], ◌∷◌, ◌++◌, some, true, length, false,
}
use panicdump.Crc.{crc32}
use panicdump.Fields.{decode_dump_fields}
use panicdump.Fields.Decode.{stored}
use panicdump.Codec.{validate_wire}
use panicdump.Slot.{commit_snapshot}
use panicdump.Slot.Valid.{committed_dump}
use panicdump.Export.{ok, export_hex}
use panicdump.Export.Text.{dump_text}
use panicdump.Decoder.Frame.{loaded, load_hex_framed}
use panicdump.Decoder.Frame.RoundTrip.{load_hex_framed-dump_text}
use panicdump.Decoder.Parse.{parsed, parse}
use panicdump.Decoder.Parse.Agree.{decoded}
use panicdump.Decoder.Parse.Fields.{parse-decode_dump_fields}
use panicdump.Decoder.Main.{Arguments, main}
use panicdump.Decoder.Main.Status.{is_json, main-validate_wire}
use panicdump.Decoder.Cfsr.{ufsr_bits, bfsr_bits, mmfsr_bits, set_names, decode_cfsr}
use panicdump.Decoder.Cfsr.Names.{flagged, above, decode_cfsr-flagged}
use panicdump.Decoder.Report.{render_report, report_lines, hex08}
use panicdump.Decoder.Report.Split.{split_lines}
use panicdump.Decoder.Report.ReadBack.{shown_regs, line_at}
use panicdump.Decoder.Report.Slice.{shown_slice, render_report-shown}
use panicdump.Decoder.Tags.{known_reason}
use panicdump.Decoder.Tags.Names.{trigger-known_reason}
use panicdump.Dump.{Dump}
use panicdump.Export.{codes}
use panicdump.Slot.{get}
use panicdump.Port.Instances.{host}
use panicdump.Trigger.{trigger}
use panicdump.Trigger.Recorded.{text_pointer}
use panicdump.Decoder.Pipeline.{collect, parse-commit}
use panicdump.Decoder.Json.{Value, number, texts}
use panicdump.Decoder.Json.ReadBack.{to_json, read_object, value_at, main-read_object}
use panicdump.Decoder.Main.{json}
use panicdump.Tests.Samples.{
  sample_stack, sample_dump, sample_dump-IsDump, sample_regs, used_slot, used_slot-IsSlot,
  sample_snapshot, sample_snapshot-IsSnapshot, sample_snapshot-IsAccepted, valid_hardfault,
  valid_hardfault-IsBytes,
}
use panicdump.Tests.Runs.{vector_is_valid}

abbrev crc : List ℕ → ℕ
crc s = crc32 s (length s)

parse-commit_example :
    let slot' = commit_snapshot used_slot sample_snapshot in
    let (status, text) = export_hex (some collect) slot' [] in
    (status ≡ ok)
    × (load_hex_framed text ≡ loaded slot'.dump_wire)
    × (parse crc slot'.dump_wire
        ≡ parsed (decoded (stored (committed_dump used_slot sample_snapshot))))
parse-commit_example =
    parse-commit crc (λ s. refl) used_slot sample_snapshot used_slot-IsSlot
      sample_snapshot-IsSnapshot sample_snapshot-IsAccepted

parse-decode_dump_fields_example :
    parse crc valid_hardfault ≡ parsed (decoded (decode_dump_fields valid_hardfault))
parse-decode_dump_fields_example =
    parse-decode_dump_fields crc (λ s. refl) valid_hardfault valid_hardfault-IsBytes vector_is_valid

abbrev json_of_hex : Arguments
json_of_hex = record { hex = true; json = true; verify = false; forensic = false }

main-validate_wire_example :
    let (printed, status) = main crc json_of_hex (some (dump_text valid_hardfault)) in
    ((status ≡ 0) ↔ (validate_wire (some valid_hardfault) (length valid_hardfault) ≡ true))
    × ((is_json printed ≡ false) ⊎ (false ≡ true) ⊎ (status ≡ 0))
main-validate_wire_example =
    main-validate_wire crc json_of_hex (dump_text valid_hardfault) valid_hardfault (λ s. refl)
      (load_hex_framed-dump_text valid_hardfault refl valid_hardfault-IsBytes)
      valid_hardfault-IsBytes

abbrev watchdog : List ℕ
watchdog = codes "watchdog"

trigger-known_reason_example :
    (dump : Dump) × ((get (trigger host 0x7ffd1000 used_slot (text_pointer (some watchdog)))).0
      ≡ some dump)
    × (dump.fault_reason ≡ 5)
    × (known_reason dump.user_tag ≡ some watchdog)
trigger-known_reason_example =
    trigger-known_reason host 0x7ffd1000 used_slot watchdog tt used_slot-IsSlot
      (Memᴰ.tail (Memᴰ.head refl))

-- The register of the first test vector.
decode_cfsr-flagged_example :
    decode_cfsr 0x8200
    ≡ flagged 0x8200 (above 16 ufsr_bits ++ (above 8 bfsr_bits ++ above 0 mmfsr_bits))
decode_cfsr-flagged_example = decode_cfsr-flagged 0x8200

its_names :
    decode_cfsr 0x8200
    ≡ codes "BFARVALID (BFAR holds address)" ∷ codes "PRECISERR (precise data bus)" ∷ []
unfolding decode_cfsr set_names
its_names = refl

render_report-shown_example :
    let lines = split_lines (render_report (decoded sample_dump)) in
    (shown_regs lines ≡ sample_regs) × (shown_slice lines ≡ sample_stack.slice)
render_report-shown_example =
    render_report-shown (decoded sample_dump) sample_dump-IsDump.regs (omega arith)
      (inr (refl, omega arith))

a_line :
    line_at (report_lines (decoded sample_dump)) 12
    ≡ codes "  pc          : 0x08001234   <- fault address"
unfolding report_lines hex08
a_line = refl

main-read_object_example :
    let dump = decode_dump_fields valid_hardfault in
    (object : List (List ℕ × Value)) × (main crc
        (to_json true false)
        (some (dump_text valid_hardfault))
      ≡ (json object, 0))
    × (read_object object ≡ decoded dump)
    × (value_at (codes "exc_return") (number 0) object ≡ number dump.sequence)
    × (value_at (codes "cfsr_decoded") (number 0) object ≡ texts (decode_cfsr dump.regs.cfsr))
main-read_object_example =
    main-read_object crc true false (dump_text valid_hardfault) valid_hardfault (λ s. refl)
      (load_hex_framed-dump_text valid_hardfault refl valid_hardfault-IsBytes)
      valid_hardfault-IsBytes vector_is_valid
