-- ===== src/Decoder/Pipeline.antt =====
-- From a commit on the target to the dump on the host: the export's text, the framed hex and the parser.
use panicdump.Base.{ℕ, ◌≡◌, refl, sym, ap, ◌∙◌, List, [], ◌∷◌, ◌++◌, true, some, length}
use mathlib.Core.List.{append-nil, append_assoc}
use panicdump.Dump.{IsBytes}
use panicdump.Crc.{crc32}
use panicdump.Slot.{Slot, Snapshot, has_valid, commit_snapshot}
use panicdump.Slot.Typed.{IsSlot, IsSnapshot, IsAccepted}
use panicdump.Slot.Valid.{committed_dump, has_valid-commit_iff, decode-commit, commit-IsSlot}
use panicdump.Fields.Decode.{stored}
use panicdump.Codec.{validate_wire}
use panicdump.Export.{Writer, ok, export_hex}
use panicdump.Export.Feed.{feed}
use panicdump.Export.Text.{dump_text}
use panicdump.Export.Spec.{export_hex_lem}
use panicdump.Decoder.Frame.{loaded, load_hex_framed}
use panicdump.Decoder.Frame.RoundTrip.{load_hex_framed-dump_text}
use panicdump.Decoder.Parse.{parsed, parse}
use panicdump.Decoder.Parse.Agree.{decoded}
use panicdump.Decoder.Parse.Fields.{parse-decode_dump_fields}

-- A callback that takes every character, and appends it.
abbrev pub collect : ℕ → Writer (List ℕ)
collect c text = (true, text ++ c ∷ [])

pub feed-collect : (text out : List ℕ) → feed collect text out ≡ (true, out ++ text)
unfolding feed
feed-collect [] out = ap (λ l. (true, l)) (sym (append-nil out))
feed-collect (c ∷ text) out =
    feed-collect text (out ++ c ∷ []) ∙ ap (λ l. (true, l)) (append_assoc out (c ∷ []) text)

export_hex-collect :
    (slot : Slot)
    → IsBytes slot.dump_wire
    → has_valid slot ≡ true
    → export_hex (some collect) slot [] ≡ (ok, dump_text slot.dump_wire)
export_hex-collect slot bytes valid =
    export_hex_lem collect slot [] bytes
    ∙ rw (valid, feed-collect (dump_text slot.dump_wire) []) refl

module _ (zlib_crc32 : List ℕ → ℕ) (zlib : (s : List ℕ) → zlib_crc32 s ≡ crc32 s (length s)) where
  -- After a commit with accepted arguments, a callback that keeps every character gets a text from which
  -- `load_hex_framed` recovers the image, and `parse` of it gives every field that was
  -- recorded and says that the checksum is right, if `zlib.crc32` is the CRC-32 of the format.
  pub parse-commit :
      (slot : Slot) (s : Snapshot)
      → IsSlot slot
      → IsSnapshot s
      → IsAccepted s
      → let slot' = commit_snapshot slot s in
        let (status, text) = export_hex (some collect) slot' [] in
        (status ≡ ok)
        × (load_hex_framed text ≡ loaded slot'.dump_wire)
        × (parse zlib_crc32 slot'.dump_wire ≡ parsed (decoded (stored (committed_dump slot s))))
  unfolding has_valid
  parse-commit slot s typed snapshot accepted =
      let slot' = commit_snapshot slot s in
      let kept = commit-IsSlot slot s typed snapshot in
      let valid = (has_valid-commit_iff slot s typed snapshot).1 accepted in
      let checked : validate_wire (some slot'.dump_wire) (length slot'.dump_wire) ≡ true =
        ap (validate_wire (some slot'.dump_wire)) kept.wire_length ∙ valid in
      let written = export_hex-collect slot' kept.wire_bytes valid in
      (
        ap (λ t. t.0) written,
        ap (λ t. load_hex_framed t.1) written
            ∙ load_hex_framed-dump_text slot'.dump_wire kept.wire_length kept.wire_bytes,
        parse-decode_dump_fields zlib_crc32 zlib slot'.dump_wire kept.wire_bytes checked
            ∙ ap (λ d. parsed (decoded d)) (decode-commit slot s typed snapshot accepted),
      )
