-- ===== src/Postmortem/Commit.antt =====
-- What a boot and the decoder make of the slot that a commit leaves.
use mathlib.Core.Path.{subst}
use panicdump.Base.{
  ◌⊎◌, ◌+◌, ℕ, ◌^◌, ◌≤◌, ◌<◌, ◌≡◌, refl, ap, ◌∙◌, sym, arith, List, [], ◌++◌, Bool, true, false,
  some, length, replicate,
}
use panicdump.Crc.{crc32}
use panicdump.Dump.{Dump, IsBytes}
use panicdump.Fields.Decode.{stored}
use panicdump.Slot.{Slot, Snapshot, has_valid, commit_snapshot}
use panicdump.Slot.Typed.{IsSlot, IsSnapshot, IsAccepted, regs-IsRegs}
use panicdump.Slot.Commit.{regs_or_zero, stack_or_zero}
use panicdump.Slot.Valid.{committed_dump, has_valid-commit_iff, commit-IsSlot, clear_lem}
use panicdump.Export.{codes, ok, boot_check_and_export}
use panicdump.Export.Spec.{boot_check_and_export_lem}
use panicdump.Export.Text.{dump_text}
use panicdump.Decoder.Frame.RoundTrip.{load_hex_framed-dump_text}
use panicdump.Decoder.Dicts.{fault_name}
use panicdump.Decoder.Main.{report, show_dump, show_parsed, show_loaded, main}
use panicdump.Decoder.Parse.{PanicDump, parse, parsed}
use panicdump.Decoder.Parse.Agree.{decoded}
use panicdump.Decoder.Pipeline.{collect, feed-collect, parse-commit}
use panicdump.Decoder.Report.{report_lines, hex08, render_report}
use panicdump.Decoder.Report.Split.{split_lines}
use panicdump.Decoder.Report.Slice.{shown_slice-render_report}
use panicdump.Decoder.Report.ReadBack.{
  shown_regs-render_report, line_at, word_on, word_of-exact, split_lines-render_report,
}
use panicdump.Postmortem.{framed, IsReported}

known_fault :
    (reason : ℕ) (other : List ℕ) → reason ≤ 5 → fault_name reason other ≡ fault_name reason []
known_fault reason other h = ground arith

fault_line :
    (d : PanicDump)
    → d.fault_reason ≤ 5
    → line_at (split_lines (render_report d)) 5
      ≡ codes "  fault       : " ++ fault_name d.fault_reason []
unfolding report_lines
fault_line d h =
    ap (λ lines. line_at lines 5) (split_lines-render_report d)
    ∙ ap (λ name. codes "  fault       : " ++ name)
        (known_fault d.fault_reason (codes "0x" ++ hex08 d.fault_reason) h)

return_line :
    (d : PanicDump)
    → d.sequence < 2 ^ 32
    → word_on (line_at (split_lines (render_report d)) 7) ≡ d.sequence
unfolding report_lines
return_line d h =
    ap (λ lines. word_on (line_at lines 7)) (split_lines-render_report d)
    ∙ word_of-exact d.sequence h

zeroed-empty : (slot : Slot) → has_valid (record slot { dump_wire = replicate 192 0 }) ≡ false
zeroed-empty slot =
    let zeroed = record slot { dump_wire = replicate 192 0 } in
    let (same, gone, none_there) = clear_lem zeroed refl in ap has_valid (sym same) ∙ gone

boot-collect :
    (slot : Slot)
    → IsSlot slot
    → has_valid slot ≡ true
    → boot_check_and_export (some collect) slot []
      ≡ (ok, record slot { dump_wire = replicate 192 0 }, dump_text slot.dump_wire)
boot-collect slot typed valid =
    boot_check_and_export_lem collect slot [] typed.wire_length typed.wire_bytes
    ∙ rw (valid, feed-collect (dump_text slot.dump_wire) []) refl

module _ (zlib_crc32 : List ℕ → ℕ) (zlib : (s : List ℕ) → zlib_crc32 s ≡ crc32 s (length s)) where
  -- No slice, or 64 bytes, which end below 2 ^ 32.
  abbrev HasSize : ℕ → List ℕ → Type 0
  HasSize sp slice = (length slice ≡ 0) ⊎ ((length slice ≡ 64) × (sp + 48 < 2 ^ 32))

  -- The decoder on the text of an image that it parses without an error.
  main-parsed :
      (forensic : Bool) (wire : List ℕ) (dump : Dump)
      → length wire ≡ 192
      → IsBytes wire
      → parse zlib_crc32 wire ≡ parsed (decoded dump)
      → main zlib_crc32 (framed forensic) (some (dump_text wire))
        ≡ (report (render_report (decoded dump)), 0)
  unfolding main show_dump
  main-parsed forensic wire dump full bytes read =
      ap (show_loaded zlib_crc32 (framed forensic)) (load_hex_framed-dump_text wire full bytes)
      ∙ ap (show_parsed (framed forensic)) read

  pub commit-IsReported :
      (forensic : Bool) (slot : Slot) (s : Snapshot)
      → IsSlot slot
      → IsSnapshot s
      → IsAccepted s
      → (slice : List ℕ) → (decoded (stored (committed_dump slot s))).stack_data ≡ slice
      → IsBytes slice
      → (length slice ≡ 0)
        ⊎ ((length slice ≡ 64) × ((stack_or_zero s.stack).captured_sp + 48 < 2 ^ 32))
      → IsReported zlib_crc32 forensic
          (commit_snapshot slot s)
          (regs_or_zero s.regs)
          slice
          s.fault_reason
          s.exc_return
  commit-IsReported forensic slot s typed snapshot accepted slice same bytes size =
      let kept = commit-IsSlot slot s typed snapshot in
      let wire = (commit_snapshot slot s).dump_wire in
      let dump = stored (committed_dump slot s) in
      let emptied = record (commit_snapshot slot s) { dump_wire = replicate 192 0 } in
      record {
        slot' = emptied;
        text = dump_text wire;
        page = render_report (decoded dump);
        exported =
            boot-collect (commit_snapshot slot s) kept
              ((has_valid-commit_iff slot s typed snapshot).1 accepted);
        cleared = zeroed-empty emptied;
        printed =
            main-parsed forensic wire dump kept.wire_length kept.wire_bytes
              (parse-commit zlib_crc32 zlib slot s typed snapshot accepted).2;
        shown = shown_regs-render_report (decoded dump) (regs-IsRegs s.regs snapshot.regs);
        sliced =
            shown_slice-render_report (decoded dump) (regs-IsRegs s.regs snapshot.regs)
              (subst IsBytes (sym same) bytes)
              (subst (HasSize (stack_or_zero s.stack).captured_sp) (sym same) size)
            ∙ same;
        fault = fault_line (decoded dump) accepted.fault_reason;
        returned = return_line (decoded dump) snapshot.exc_return;
      }
