-- ===== src/Export/Ascii.antt =====
-- The text of an export is bytes.
use panicdump.Base.{ℕ, zero, suc, ◌+◌, ◌/◌, ◌%◌, ◌<◌, arith, List, ◌++◌}
use panicdump.Wire.{byte_at}
use panicdump.Wire.Word.{byte_at-lt}
use panicdump.Dump.{IsBytes}
use panicdump.Fields.Image.{IsBytes-append}
use panicdump.Export.{begin_marker, end_marker, new_line}
use panicdump.Export.Text.{digit_char, bytes_text, lines_text, dump_text}

digit_char-lt : (n : ℕ) → n < 16 → digit_char n < 256
digit_char-lt n h = ground arith

bytes_text-IsBytes : (wire : List ℕ) (i n : ℕ) → IsBytes wire → IsBytes (bytes_text wire i n)
unfolding bytes_text
bytes_text-IsBytes wire i zero h = tt
bytes_text-IsBytes wire i (suc n) h =
    let small = byte_at-lt wire i h in
    (
      digit_char-lt (byte_at wire i / 16) (omega arith),
      (digit_char-lt (byte_at wire i % 16) (omega arith), bytes_text-IsBytes wire (i + 1) n h),
    )

lines_text-IsBytes : (wire : List ℕ) (i n : ℕ) → IsBytes wire → IsBytes (lines_text wire i n)
unfolding lines_text
lines_text-IsBytes wire i zero h = tt
lines_text-IsBytes wire i (suc n) h =
    let rest = lines_text-IsBytes wire (i + 32) n h in
    let after = new_line ++ lines_text wire (i + 32) n in
    IsBytes-append (bytes_text wire i 32) after (bytes_text-IsBytes wire i 32 h)
      (IsBytes-append new_line (lines_text wire (i + 32) n) (omega arith) rest)

pub dump_text-IsBytes : (wire : List ℕ) → IsBytes wire → IsBytes (dump_text wire)
unfolding dump_text
dump_text-IsBytes wire h =
    IsBytes-append begin_marker (lines_text wire 0 6 ++ end_marker) (omega arith) (
      IsBytes-append (lines_text wire 0 6) end_marker (lines_text-IsBytes wire 0 6 h) (omega arith))
