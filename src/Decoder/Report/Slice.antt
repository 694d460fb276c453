-- ===== src/Decoder/Report/Slice.antt =====
-- The stack slice can be read back from the text of a report.
use panicdump.Base.{
  ℕ, zero, suc, ◌+◌, ◌-◌, ◌/◌, ◌^◌, ◌<◌, ◌≡◌, ◌⊎◌, inl, inr, refl, sym, ap, ap₂, ◌∙◌, arith, List,
  [], ◌∷◌, ◌++◌, length, take, replicate, tabulate-get_or, ◌≤◌,
}
use mathlib.Core.Path.{subst}
use mathlib.Core.List.{append_assoc}
use panicdump.Dump.{IsRegs, IsBytes}
use panicdump.Wire.Word.{take-IsBytes}
use panicdump.Export.{codes}
use panicdump.Decoder.Strings.{drop}
use panicdump.Decoder.Parse.{PanicDump}
use panicdump.Decoder.Report.{
  hex_digits, hex08, hex_part, ascii_part, padded, chunk_line, chunk_lines, report_lines,
  render_report,
}
use panicdump.Decoder.Report.Split.{split_lines}
use panicdump.Decoder.Report.ReadBack.{
  word_value, digit_sum, word_value-hex_digits, line_at, word_at_line, hfsr_at, rest_at, from_rest,
  read_cfsr, read_hfsr, split_lines-render_report, shown_regs, shown_regs-render_report,
}

-- Bytes of two hex digits, with a character between any two of them.
abbrev bytes_on : ℕ → List ℕ → List ℕ
bytes_on zero s = []
bytes_on (suc n) s = word_value 2 s ∷ bytes_on n (drop 3 s)

-- The 16 bytes on a line, behind an address of 8 digits.
abbrev chunk_on : List ℕ → List ℕ
chunk_on line = bytes_on 16 (drop 13 line)

-- The bytes on four lines from the one with a number on, unless that is empty.
abbrev slice_on : List (List ℕ) → ℕ → List ℕ → List ℕ
slice_on lines j [] = []
slice_on lines j (c ∷ line) =
    chunk_on (line_at lines (j + 7))
    ++ (chunk_on (line_at lines (j + 8))
        ++ (chunk_on (line_at lines (j + 9)) ++ chunk_on (line_at lines (j + 10))))

abbrev slice_from : List (List ℕ) → ℕ → List ℕ
slice_from lines j = slice_on lines j (line_at lines (j + 7))

-- The stack slice, from the lines of a report: seven lines behind the bits of HFSR.
unfoldable pub shown_slice : List (List ℕ) → List ℕ
shown_slice lines =
    let cfsr = word_at_line lines 28 in
    let hfsr = word_at_line lines (hfsr_at cfsr) in slice_from lines (rest_at cfsr hfsr)

two_digits : (b : ℕ) (s : List ℕ) → b < 256 → word_value 2 (hex_digits 2 b ++ s) ≡ b
two_digits b s h = let sum : digit_sum 2 b ≡ b = omega arith in word_value-hex_digits 2 b s ∙ sum

bytes_on-hex_part :
    (chunk s : List ℕ) → IsBytes chunk → bytes_on (length chunk) (hex_part chunk ++ s) ≡ chunk
bytes_on-hex_part [] s h = refl
bytes_on-hex_part (b ∷ []) s h = ap (λ x. x ∷ []) (two_digits b s h.0)
bytes_on-hex_part (b ∷ (c ∷ chunk)) s h =
    ap₂ ◌∷◌ (two_digits b (32 ∷ (hex_part (c ∷ chunk) ++ s)) h.0)
      (bytes_on-hex_part (c ∷ chunk) s h.1)

chunk_on-chunk_line :
    (address : ℕ) (chunk : List ℕ)
    → address < 2 ^ 32
    → length chunk ≡ 16
    → IsBytes chunk
    → chunk_on (chunk_line address chunk) ≡ chunk
unfolding hex08
chunk_on-chunk_line address chunk short full bytes =
    let blanks : List ℕ = replicate (47 - length (hex_part chunk)) 32 in
    let tail : List ℕ = codes "  " ++ ascii_part chunk in
    let digits : hex08 address ≡ hex_digits 8 address = ground (arith, short) in
    ap (λ a. chunk_on (codes "  " ++ (a ++ (codes ":  " ++ (padded (hex_part chunk) ++ tail)))))
      digits
    ∙ ap (bytes_on 16) (append_assoc (hex_part chunk) blanks tail)
    ∙ ap (λ n. bytes_on n (hex_part chunk ++ (blanks ++ tail))) (sym full)
    ∙ bytes_on-hex_part chunk (blanks ++ tail) bytes

-- 64 bytes, in four chunks.
abbrev chunk : List ℕ → ℕ → List ℕ
chunk data' i = take 16 (drop i data')

abbrev four_chunks : List ℕ → List ℕ
four_chunks s = chunk s 0 ++ (chunk s 16 ++ (chunk s 32 ++ chunk s 48))

four_chunks-whole : (s : List ℕ) → length s ≡ 64 → four_chunks s ≡ s
four_chunks-whole s full =
    let cells = tabulate-get_or 64 s 0 full in ap four_chunks (sym cells) ∙ cells

abbrev AreFull : List ℕ → Type 0
AreFull s =
    (length (chunk s 0) ≡ 16)
    × (length (chunk s 16) ≡ 16)
    × (length (chunk s 32) ≡ 16)
    × (length (chunk s 48) ≡ 16)

chunks-AreFull : (s : List ℕ) → length s ≡ 64 → AreFull s
chunks-AreFull s full = subst AreFull (tabulate-get_or 64 s 0 full) (refl, refl, refl, refl)

drop-IsBytes : (n : ℕ) (s : List ℕ) → IsBytes s → IsBytes (drop n s)
drop-IsBytes zero s h = h
drop-IsBytes (suc n) [] h = tt
drop-IsBytes (suc n) (b ∷ s) h = drop-IsBytes n s h.1

-- One of the lines.
chunk_on-shown :
    (s : List ℕ) (sp i : ℕ)
    → IsBytes s
    → sp + i < 2 ^ 32
    → length (chunk s i) ≡ 16
    → chunk_on (chunk_line (sp + i) (chunk s i)) ≡ chunk s i
chunk_on-shown s sp i bytes short full =
    chunk_on-chunk_line (sp + i) (chunk s i) short full
      (take-IsBytes 16 (drop i s) (drop-IsBytes i s bytes))

empty : (s : List ℕ) → length s ≡ 0 → [] ≡ s
empty [] e = refl
empty (c ∷ s) e = absurd (omega (arith, e))

module _ (d : PanicDump) (h : IsRegs d.regs) (bytes : IsBytes d.stack_data) where
  abbrev lines : List (List ℕ)
  lines = report_lines d

  abbrev first : ℕ
  first = rest_at d.regs.cfsr d.regs.hfsr

  shown_slice-from : shown_slice lines ≡ slice_from lines first
  unfolding shown_slice
  shown_slice-from =
      ap (λ cfsr. slice_from lines (rest_at cfsr (word_at_line lines (hfsr_at cfsr))))
        (read_cfsr d h)
      ∙ ap (λ hfsr. slice_from lines (rest_at d.regs.cfsr hfsr)) (read_hfsr d h)

  -- The lines of `n` chunks, and what follows them.
  abbrev sliced : ℕ → List (List ℕ)
  sliced n = chunk_lines d.stack_sp d.stack_data 0 n ++ ([] ∷ replicate 60 45 ∷ [])

  no_slice : length d.stack_data ≡ 0 → slice_from lines first ≡ d.stack_data
  unfolding chunk_lines
  no_slice e =
      let count : (length d.stack_data + 15) / 16 ≡ 0 = omega (arith, e) in
      let blank : line_at lines (first + 7) ≡ [] =
        from_rest d 7 ∙ ap (λ n. line_at (sliced n) 0) count in
      ap (slice_on lines first) blank ∙ empty d.stack_data e

  module _ (e : length d.stack_data ≡ 64) (short : d.stack_sp + 48 < 2 ^ 32) where
    abbrev ShownAt : ℕ → ℕ → Type 0
    ShownAt k i =
        line_at lines (first + (7 + k)) ≡ chunk_line (d.stack_sp + i) (chunk d.stack_data i)

    count : (length d.stack_data + 15) / 16 ≡ 4
    count = omega (arith, e)

    lines_shown : ShownAt 0 0 × ShownAt 1 16 × ShownAt 2 32 × ShownAt 3 48
    unfolding chunk_lines
    lines_shown = (
      from_rest d 7 ∙ ap (λ n. line_at (sliced n) 0) count,
      from_rest d 8 ∙ ap (λ n. line_at (sliced n) 1) count,
      from_rest d 9 ∙ ap (λ n. line_at (sliced n) 2) count,
      from_rest d 10 ∙ ap (λ n. line_at (sliced n) 3) count,
    )

    chunk_shown :
        (k i : ℕ)
        → ShownAt k i
        → i ≤ 48
        → length (chunk d.stack_data i) ≡ 16
        → chunk_on (line_at lines (first + (7 + k))) ≡ chunk d.stack_data i
    chunk_shown k i there small full =
        ap chunk_on there ∙ chunk_on-shown d.stack_data d.stack_sp i bytes (omega arith) full

    whole_slice : slice_from lines first ≡ d.stack_data
    whole_slice =
        let (l0, l1, l2, l3) = lines_shown in
        let (f0, f1, f2, f3) = chunks-AreFull d.stack_data e in
        ap (slice_on lines first) l0
        ∙ ap₂ ◌++◌ (chunk_shown 0 0 l0 (omega arith) f0) (
            ap₂ ◌++◌ (chunk_shown 1 16 l1 (omega arith) f1) (
              ap₂ ◌++◌ (chunk_shown 2 32 l2 (omega arith) f2)
                (chunk_shown 3 48 l3 (omega arith) f3)))
        ∙ four_chunks-whole d.stack_data e

pub shown_slice-render_report :
    (d : PanicDump)
    → IsRegs d.regs
    → IsBytes d.stack_data
    → (length d.stack_data ≡ 0) ⊎ ((length d.stack_data ≡ 64) × (d.stack_sp + 48 < 2 ^ 32))
    → shown_slice (split_lines (render_report d)) ≡ d.stack_data
shown_slice-render_report d h bytes size =
    ap shown_slice (split_lines-render_report d) ∙ shown_slice-from d h bytes ∙ elim size [
      | inl none_there ↦ no_slice d h bytes none_there
      | inr whole ↦ whole_slice d h bytes whole.0 whole.1
    ]

-- For every parsed dump whose registers are words and whose slice is none or 64 bytes, which end below
-- 2 ^ 32: the text of its report, split at its newlines, has lines from which `shown_regs` reads all 21
-- registers back and `shown_slice` the slice, wherever the lines for the bits of CFSR and HFSR have
-- moved them, and whatever the other fields are.
pub render_report-shown :
    (d : PanicDump)
    → IsRegs d.regs
    → IsBytes d.stack_data
    → (length d.stack_data ≡ 0) ⊎ ((length d.stack_data ≡ 64) × (d.stack_sp + 48 < 2 ^ 32))
    → let lines = split_lines (render_report d) in
      (shown_regs lines ≡ d.regs) × (shown_slice lines ≡ d.stack_data)
render_report-shown d h bytes size =
    (shown_regs-render_report d h, shown_slice-render_report d h bytes size)
