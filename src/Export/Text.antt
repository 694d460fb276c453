-- ===== src/Export/Text.antt =====
-- The text of an export, as the framed hex dump that the decoder takes: the begin marker, six lines
-- of 32 bytes as 64 capital hex digits, the end marker, each line ended by CR LF.
use panicdump.Base.{ℕ, zero, suc, ◌+◌, ◌/◌, ◌%◌, List, [], ◌∷◌, ◌++◌, ltb, if◌then◌else◌}
use panicdump.Wire.{byte_at}
use panicdump.Export.{new_line, begin_marker, end_marker}

-- '0'..'9' from 48 on, 'A'..'F' from 65 on.
abbrev pub digit_char : ℕ → ℕ
digit_char n = if ltb n 10 then 48 + n else 55 + n

abbrev pub byte_text : ℕ → List ℕ
byte_text b = digit_char (b / 16) ∷ digit_char (b % 16) ∷ []

-- `n` bytes from the index `i` on.
unfoldable pub bytes_text : List ℕ → ℕ → ℕ → List ℕ
bytes_text wire i zero = []
bytes_text wire i (suc n) = byte_text (byte_at wire i) ++ bytes_text wire (i + 1) n

-- `n` lines from the index `i` on.
unfoldable pub lines_text : List ℕ → ℕ → ℕ → List ℕ
unfolding bytes_text
lines_text wire i zero = []
lines_text wire i (suc n) = bytes_text wire i 32 ++ (new_line ++ lines_text wire (i + 32) n)

unfoldable pub dump_text : List ℕ → List ℕ
unfolding lines_text
dump_text wire = begin_marker ++ (lines_text wire 0 6 ++ end_marker)
