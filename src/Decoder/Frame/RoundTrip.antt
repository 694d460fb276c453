-- ===== src/Decoder/Frame/RoundTrip.antt =====
-- The decoder reads back what the device exports.
use panicdump.Base.{
  ℕ, zero, suc, ◌+◌, ◌*◌, ◌≡◌, refl, sym, ap, ◌∙◌, arith, List, [], ◌∷◌, ◌++◌, false, some, length,
  take, tabulate-get_or, length-append, le→ltb,
}
use mathlib.Core.List.{append_assoc}
use panicdump.Dump.{IsBytes}
use panicdump.Export.{codes, new_line}
use panicdump.Export.Text.{bytes_text, lines_text, dump_text}
use panicdump.Decoder.Strings.{
  universal_newlines, starts_with, count, find, drop, has_text, unspaced,
}
use panicdump.Decoder.Digits.{
  IsPlain, bytes_text-IsDigits, IsDigits-IsPlain, IsPlain-append, universal_newlines-digits,
  count-plain, find-plain, unspaced-digits, all_hex-digits, from_hex-bytes_text, length-bytes_text,
  bytes_text-add,
}
use panicdump.Decoder.Frame.{
  loaded, begin_marker, end_marker, load_hex_framed, load_frame, load_body,
}

take-append : (n : ℕ) (a b : List ℕ) → length a ≡ n → take n (a ++ b) ≡ a
take-append zero [] b e = refl
take-append zero (c ∷ a) b e = absurd (omega arith)
take-append (suc n) [] b e = absurd (omega arith)
take-append (suc n) (c ∷ a) b e = ap (λ l. c ∷ l) (take-append n a b (omega arith))

drop-append : (n : ℕ) (a b : List ℕ) → length a ≡ n → drop n (a ++ b) ≡ b
drop-append zero [] b e = refl
drop-append zero (c ∷ a) b e = absurd (omega arith)
drop-append (suc n) [] b e = absurd (omega arith)
drop-append (suc n) (c ∷ a) b e = drop-append n a b (omega arith)

-- The lines of an export, once CR LF is read as LF.
unix_lines : List ℕ → ℕ → ℕ → List ℕ
unix_lines wire i zero = []
unix_lines wire i (suc n) = bytes_text wire i 32 ++ (10 ∷ unix_lines wire (i + 32) n)

-- The markers behind their first character.
abbrev begin_tail : List ℕ
begin_tail = codes "== PANICDUMP BEGIN ==="

abbrev end_tail : List ℕ
end_tail = codes "== PANICDUMP END ==="

-- The text between the first character and the end of an export.
framed : List ℕ → List ℕ
framed body = begin_marker ++ (10 ∷ (body ++ (end_marker ++ (10 ∷ []))))

line_end : (s : List ℕ) → universal_newlines false (new_line ++ s) ≡ 10 ∷ universal_newlines false s
unfolding universal_newlines
line_end s = refl

universal_newlines-lines :
    (wire : List ℕ) (i n : ℕ) (rest : List ℕ)
    → IsBytes wire
    → universal_newlines false (lines_text wire i n ++ rest)
      ≡ unix_lines wire i n ++ universal_newlines false rest
unfolding lines_text unix_lines
universal_newlines-lines wire i zero rest h = refl
universal_newlines-lines wire i (suc n) rest h =
    let line = bytes_text wire i 32 in
    let later = lines_text wire (i + 32) n in
    ap (universal_newlines false) (append_assoc line (new_line ++ later) rest)
    ∙ universal_newlines-digits line (new_line ++ (later ++ rest)) (bytes_text-IsDigits wire i 32 h)
    ∙ ap (λ l. line ++ l)
        (line_end (later ++ rest)
          ∙ ap (λ l. 10 ∷ l) (universal_newlines-lines wire (i + 32) n rest h))
    ∙ sym (append_assoc line (10 ∷ unix_lines wire (i + 32) n) (universal_newlines false rest))

unix_lines-IsPlain : (wire : List ℕ) (i n : ℕ) → IsBytes wire → IsPlain (unix_lines wire i n)
unfolding unix_lines
unix_lines-IsPlain wire i zero h = tt
unix_lines-IsPlain wire i (suc n) h =
    let later = unix_lines-IsPlain wire (i + 32) n h in
    IsPlain-append (bytes_text wire i 32) (10 ∷ unix_lines wire (i + 32) n)
      (IsDigits-IsPlain (bytes_text wire i 32) (bytes_text-IsDigits wire i 32 h))
      ((λ e. absurd (omega arith)), later)

unspaced-newline : (s : List ℕ) → unspaced (10 ∷ s) ≡ unspaced s
unfolding unspaced
unspaced-newline s = refl

unspaced-lines :
    (wire : List ℕ) (i n : ℕ)
    → IsBytes wire
    → unspaced (unix_lines wire i n) ≡ bytes_text wire i (n * 32)
unfolding unix_lines
unspaced-lines wire i zero h = unfold unspaced bytes_text in refl
unspaced-lines wire i (suc n) h =
    let line = bytes_text wire i 32 in
    unspaced-digits line (10 ∷ unix_lines wire (i + 32) n) (bytes_text-IsDigits wire i 32 h)
    ∙ ap (λ l. line ++ l)
        (unspaced-newline (unix_lines wire (i + 32) n) ∙ unspaced-lines wire (i + 32) n h)
    ∙ sym (bytes_text-add wire i 32 (n * 32))
    ∙ ap (bytes_text wire i) (omega arith)

newlines-dump_text :
    (wire : List ℕ)
    → IsBytes wire
    → universal_newlines false (dump_text wire) ≡ framed (unix_lines wire 0 6)
unfolding dump_text framed universal_newlines
newlines-dump_text wire h =
    ap (λ l. begin_marker ++ (10 ∷ l))
      (universal_newlines-lines wire 0 6 (end_marker ++ new_line) h)

-- The body alone.
load_body-lines :
    (wire : List ℕ)
    → length wire ≡ 192
    → IsBytes wire
    → load_body (10 ∷ unix_lines wire 0 6) ≡ loaded wire
unfolding load_body
load_body-lines wire full h =
    let digits = bytes_text wire 0 192 in
    let body : unspaced (10 ∷ unix_lines wire 0 6) ≡ digits =
      unspaced-newline (unix_lines wire 0 6) ∙ unspaced-lines wire 0 6 h in
    let size : length digits ≡ 384 = length-bytes_text wire 0 192 in
    let hex = all_hex-digits digits (bytes_text-IsDigits wire 0 192 h) in
    rw (body, size, hex)
      (ap loaded (from_hex-bytes_text wire 0 192 h ∙ tabulate-get_or 192 wire 0 full))

-- The frame around a body without the markers' first character.
module _ (body : List ℕ) (plain : IsPlain body) where
  one_begin : count begin_marker 0 (framed body) ≡ 1
  unfolding framed count starts_with
  one_begin = ap suc (count-plain begin_tail body (end_marker ++ (10 ∷ [])) plain)

  one_end : count end_marker 0 (framed body) ≡ 1
  unfolding framed count starts_with
  one_end = count-plain end_tail body (end_marker ++ (10 ∷ [])) plain

  begin_found : find begin_marker 0 (framed body) ≡ some 0
  unfolding framed find starts_with
  begin_found = refl

  end_found : find end_marker 0 (framed body) ≡ some (24 + length body)
  unfolding framed find starts_with
  end_found = find-plain end_tail body (end_marker ++ (10 ∷ [])) 24 plain

  before_end : take (24 + length body) (framed body) ≡ begin_marker ++ (10 ∷ body)
  unfolding framed
  before_end =
      take-append (24 + length body) (begin_marker ++ (10 ∷ body)) (end_marker ++ (10 ∷ []))
        (omega arith)

  behind_end : drop (24 + length body + length end_marker) (framed body) ≡ 10 ∷ []
  unfolding framed
  behind_end =
      let inner = begin_marker ++ (10 ∷ (body ++ end_marker)) in
      let whole : framed body ≡ inner ++ (10 ∷ []) =
        sym (ap (λ l. begin_marker ++ (10 ∷ l)) (append_assoc body end_marker (10 ∷ []))) in
      ap (drop (24 + length body + length end_marker)) whole
      ∙ drop-append (24 + length body + length end_marker) inner (10 ∷ [])
          (omega (arith, length-append body end_marker))

  load_framed : load_frame (framed body) 0 (24 + length body) ≡ load_body (10 ∷ body)
  unfolding load_frame
  load_framed =
      let ordered = le→ltb (24 + length body) 0 (omega arith) in
      rw (ordered, behind_end, before_end, load_frame) (unfold has_text in refl)

-- What `panicdump_export_hex` writes of an image of 192 bytes, `load_hex_framed` reads back as that image,
-- byte for byte.
pub load_hex_framed-dump_text :
    (wire : List ℕ)
    → length wire ≡ 192
    → IsBytes wire
    → load_hex_framed (dump_text wire) ≡ loaded wire
unfolding load_hex_framed
load_hex_framed-dump_text wire full h =
    let body = unix_lines wire 0 6 in
    let plain = unix_lines-IsPlain wire 0 6 h in
    rw
      (
        newlines-dump_text wire h,
        one_begin body plain,
        one_end body plain,
        begin_found body plain,
        end_found body plain,
      )
      (load_framed body plain ∙ load_body-lines wire full h)
