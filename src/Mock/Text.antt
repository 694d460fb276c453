-- ===== src/Mock/Text.antt =====
-- The framed text of tools/make_mock_dump.py is that of the library's export.
use panicdump.Base.{
  ℕ, ◌/◌, ◌%◌, ◌<◌, ◌≡◌, refl, sym, ap, ap₂, ◌∙◌, arith, List, [], ◌∷◌, length, tabulate,
  tabulate-get_or, get_or,
}
use panicdump.Dump.{IsBytes}
use panicdump.Export.Text.{digit_char, bytes_text, lines_text, dump_text}
use panicdump.Decoder.Frame.{loaded, load_hex_framed}
use panicdump.Decoder.Frame.RoundTrip.{load_hex_framed-dump_text}
use panicdump.Decoder.Strings.{lower_digit, hex}
use panicdump.Mock.{upper_char, upper, slices, join_lines, framed_lines, build_hex_framed}

abbrev digits : List ℕ → List ℕ
digits [] = []
digits (b ∷ bytes) = digit_char (b / 16) ∷ digit_char (b % 16) ∷ digits bytes

upper-lower_digit : (n : ℕ) → n < 16 → upper_char (lower_digit n) ≡ digit_char n
upper-lower_digit n h = ground arith

upper-hex : (bytes : List ℕ) → IsBytes bytes → upper (hex bytes) ≡ digits bytes
unfolding upper hex
upper-hex [] h = refl
upper-hex (b ∷ bytes) h =
    ap₂ ◌∷◌ (upper-lower_digit (b / 16) (omega arith))
      (ap₂ ◌∷◌ (upper-lower_digit (b % 16) (omega arith)) (upper-hex bytes h.1))

framed-digits :
    (w : ℕ → ℕ) → framed_lines (digits (tabulate 192 0 w)) ≡ dump_text (tabulate 192 0 w)
unfolding framed_lines slices join_lines dump_text lines_text bytes_text
framed-digits w = refl

-- For every image of 192 bytes, `build_hex_framed` gives the text that `panicdump_export_hex` passes to its
-- callback, and `load_hex_framed` of the decoder reads the image from it.
pub build_hex_framed-dump_text :
    (w : List ℕ)
    → length w ≡ 192
    → IsBytes w
    → (build_hex_framed w ≡ dump_text w) × (load_hex_framed (build_hex_framed w) ≡ loaded w)
unfolding build_hex_framed
build_hex_framed-dump_text w full h =
    let cells = tabulate-get_or 192 w 0 full in
    let same =
      ap framed_lines (upper-hex w h)
      ∙ ap (λ l. framed_lines (digits l)) (sym cells)
      ∙ framed-digits (λ i. get_or w i 0)
      ∙ ap dump_text cells in
    (same, ap load_hex_framed same ∙ load_hex_framed-dump_text w full h)
