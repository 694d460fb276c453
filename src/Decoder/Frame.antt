-- ===== src/Decoder/Frame.antt =====
-- `load_hex_framed` of tools/decode_panicdump.py, on the text of the file.
pub mod RoundTrip
use panicdump.Base.{
  ℕ, ◌+◌, ◌*◌, List, false, Option, some, ◌!=◌, ◌||◌, ltb, if◌then◌else◌, length, take,
}
use panicdump.Export.{codes}
use panicdump.Decoder.Strings.{
  universal_newlines, count, find, drop, has_text, unspaced, all_hex, from_hex,
}

-- The messages of the `ValueError`s.
pub data FrameError : Type 0 where
  not_one_frame no_markers data_outside bad_count not_hex : FrameError

pub data Loaded : Type 0 where
  loaded : List ℕ → Loaded
  refused : FrameError → Loaded

abbrev pub dump_size : ℕ
dump_size = 192

abbrev pub begin_marker : List ℕ
begin_marker = codes "=== PANICDUMP BEGIN ==="

abbrev pub end_marker : List ℕ
end_marker = codes "=== PANICDUMP END ==="

-- From the line on that takes the spaces out of the body.
unfoldable pub load_body : List ℕ → Loaded
unfolding unspaced all_hex from_hex
load_body body =
    let hex_str = unspaced body in
    if length hex_str != dump_size * 2
    then refused bad_count
    else if all_hex hex_str
    then loaded (from_hex hex_str)
    else refused not_hex

-- With both markers found.
unfoldable pub load_frame : List ℕ → ℕ → ℕ → Loaded
unfolding has_text load_body
load_frame content start end =
    if ltb end start
    then refused no_markers
    else if has_text (take start content) || has_text (drop (end + length end_marker) content)
    then refused data_outside
    else load_body (drop (start + length begin_marker) (take end content))

abbrev pub load_found : List ℕ → Option ℕ → Option ℕ → Loaded
load_found content (some start) (some end) = load_frame content start end
load_found content start end = refused no_markers

unfoldable pub load_hex_framed : List ℕ → Loaded
unfolding load_frame universal_newlines count find
load_hex_framed file =
    let content = universal_newlines false file in
    if count begin_marker 0 content != 1 || count end_marker 0 content != 1
    then refused not_one_frame
    else load_found content (find begin_marker 0 content) (find end_marker 0 content)
