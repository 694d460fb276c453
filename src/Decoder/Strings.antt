-- ===== src/Decoder/Strings.antt =====
-- What tools/decode_panicdump.py uses of Python's strings, on lists of code points.
use panicdump.Base.{
  ◌%◌, ◌/◌, ltb, ℕ, zero, suc, ◌+◌, ◌-◌, ◌*◌, List, [], ◌∷◌, ◌++◌, Bool, true, false, not, Option,
  none, some, ◌==◌, ◌&&◌, ◌||◌, leb, if◌then◌else◌, length,
}

-- `open(path)` in text mode: CR LF and a CR alone are read as LF. The flag is set behind a CR.
abbrev newline_step : Bool → ℕ → List ℕ
newline_step cr c = if c == 13 then 10 ∷ [] else if c == 10 && cr then [] else c ∷ []

unfoldable pub universal_newlines : Bool → List ℕ → List ℕ
universal_newlines cr [] = []
universal_newlines cr (c ∷ s) = newline_step cr c ++ universal_newlines (c == 13) s

-- `str.isspace`, and `\s` of a pattern.
abbrev pub is_space : ℕ → Bool
is_space c =
    (leb 9 c && leb c 13)
    || (leb 28 c && leb c 32)
    || c == 0x85
    || c == 0xA0
    || c == 0x1680
    || (leb 0x2000 c && leb c 0x200A)
    || c == 0x2028
    || c == 0x2029
    || c == 0x202F
    || c == 0x205F
    || c == 0x3000

unfoldable pub starts_with : List ℕ → List ℕ → Bool
starts_with [] s = true
starts_with (m ∷ marker) [] = false
starts_with (m ∷ marker) (c ∷ s) = m == c && starts_with marker s

-- `str.count`, of occurrences that do not overlap: `skip` characters belong to the last one.
unfoldable pub count : List ℕ → ℕ → List ℕ → ℕ
unfolding starts_with
count marker skip [] = 0
count marker (suc skip) (c ∷ s) = count marker skip s
count marker zero (c ∷ s) =
    let here = starts_with marker (c ∷ s) in
    let rest = count marker (if here then length marker - 1 else 0) s in
    if here then suc rest else rest

-- `str.find`, from the index `i` on: none for -1.
unfoldable pub find : List ℕ → ℕ → List ℕ → Option ℕ
unfolding starts_with
find marker i [] = if starts_with marker [] then some i else none
find marker i (c ∷ s) =
    let rest = find marker (i + 1) s in if starts_with marker (c ∷ s) then some i else rest

abbrev pub drop : ℕ → List ℕ → List ℕ
drop zero s = s
drop (suc n) [] = []
drop (suc n) (c ∷ s) = drop n s

-- Whether `s.strip()` is not empty.
unfoldable pub has_text : List ℕ → Bool
has_text [] = false
has_text (c ∷ s) = not (is_space c) || has_text s

-- `re.sub(r"\s+", "", s)`
unfoldable pub unspaced : List ℕ → List ℕ
unspaced [] = []
unspaced (c ∷ s) = (if is_space c then [] else c ∷ []) ++ unspaced s

-- `[0-9a-fA-F]`
abbrev pub is_hex : ℕ → Bool
is_hex c = (leb 48 c && leb c 57) || (leb 97 c && leb c 102) || (leb 65 c && leb c 70)

unfoldable pub all_hex : List ℕ → Bool
all_hex [] = true
all_hex (c ∷ s) = is_hex c && all_hex s

abbrev pub hex_value : ℕ → ℕ
hex_value c = if leb 97 c then c - 87 else if leb 65 c then c - 55 else c - 48

-- `bytes.fromhex`, on an even count of digits.
unfoldable pub from_hex : List ℕ → List ℕ
from_hex [] = []
from_hex (a ∷ []) = []
from_hex (a ∷ (b ∷ s)) = (hex_value a * 16 + hex_value b) ∷ from_hex s

-- `bytes.hex()`
abbrev pub lower_digit : ℕ → ℕ
lower_digit n = if ltb n 10 then 48 + n else 87 + n

unfoldable pub hex : List ℕ → List ℕ
hex [] = []
hex (b ∷ bytes) = lower_digit (b / 16) ∷ lower_digit (b % 16) ∷ hex bytes
