-- ===== src/Decoder/Report/ReadBack.antt =====
-- The registers can be read back from the text of a report.
use mathlib.Core.List.{append-nil}
use panicdump.Base.{
  ℕ, zero, suc, ◌+◌, ◌-◌, ◌*◌, ◌/◌, ◌%◌, ◌^◌, ◌<◌, ◌≡◌, refl, sym, ap, ap₂, ◌∙◌, arith, List, [],
  ◌∷◌, ◌++◌, ltb, if◌then◌else◌, length, get_or,
}
use panicdump.Dump.{Regs, IsRegs}
use panicdump.Export.{codes}
use panicdump.Export.Text.{digit_char}
use panicdump.Decoder.Strings.{drop}
use panicdump.Decoder.Cfsr.{decode_cfsr}
use panicdump.Decoder.Parse.{PanicDump}
use panicdump.Decoder.Report.{
  hex_digits, hex08, bit_lines, hfsr_lines, report_lines, hfsr_line, lines_to_cfsr, rest_lines,
  stack_lines, render_report,
}
use panicdump.Decoder.Report.Split.{split_lines, split_lines-join}
use panicdump.Decoder.Report.Page.{report_lines-AreLines}

abbrev pub digit_value : ℕ → ℕ
digit_value c = if ltb c 58 then c - 48 else c - 55

-- The number that `n` hex digits stand for.
abbrev pub word_value : ℕ → List ℕ → ℕ
word_value zero s = 0
word_value (suc n) [] = 0
word_value (suc n) (c ∷ s) = digit_value c * 16 ^ n + word_value n s

digit_value-char : (d : ℕ) → d < 16 → digit_value (digit_char d) ≡ d
digit_value-char d h = ground arith

-- A number cut to `n` hex digits, as the sum of them.
abbrev pub digit_sum : ℕ → ℕ → ℕ
digit_sum zero v = 0
digit_sum (suc n) v = v / 16 ^ n % 16 * 16 ^ n + digit_sum n v

pub word_value-hex_digits :
    (n v : ℕ) (rest : List ℕ) → word_value n (hex_digits n v ++ rest) ≡ digit_sum n v
word_value-hex_digits zero v rest = refl
word_value-hex_digits (suc n) v rest =
    ap₂ (λ a b. a * 16 ^ n + b) (digit_value-char (v / 16 ^ n % 16) (omega arith))
      (word_value-hex_digits n v rest)

word_value-hex08 : (v : ℕ) (rest : List ℕ) → v < 2 ^ 32 → word_value 8 (hex08 v ++ rest) ≡ v
unfolding hex08
word_value-hex08 v rest h =
    let short : hex08 v ≡ hex_digits 8 v = ground (arith, h) in
    let sum : digit_sum 8 v ≡ v = omega arith in
    ap (λ l. word_value 8 (l ++ rest)) short ∙ word_value-hex_digits 8 v rest ∙ sum

-- The word on a line of a register, whose name is as long as the others' with its blanks.
abbrev pub word_on : List ℕ → ℕ
word_on line = word_value 8 (drop 18 line)

-- The line with a number, with an empty one where there is none.
abbrev pub line_at : List (List ℕ) → ℕ → List ℕ
line_at lines i = get_or lines i []

abbrev pub word_at_line : List (List ℕ) → ℕ → ℕ
word_at_line lines i = word_on (line_at lines i)

-- The registers, given the line of HFSR and the first line behind its bits.
abbrev regs_on : List (List ℕ) → ℕ → ℕ → ℕ → Regs
regs_on lines cfsr hfsr j = record {
  r0 = word_at_line lines 17;
  r1 = word_at_line lines 18;
  r2 = word_at_line lines 19;
  r3 = word_at_line lines 20;
  r12 = word_at_line lines 21;
  lr = word_at_line lines 13;
  pc = word_at_line lines 12;
  xpsr = word_at_line lines 16;
  msp = word_at_line lines 14;
  psp = word_at_line lines 15;
  control = word_at_line lines 22;
  primask = word_at_line lines 23;
  basepri = word_at_line lines 24;
  faultmask = word_at_line lines 25;
  cfsr = cfsr;
  hfsr = hfsr;
  dfsr = word_at_line lines (j + 0);
  mmfar = word_at_line lines (j + 1);
  bfar = word_at_line lines (j + 2);
  afsr = word_at_line lines (j + 3);
  shcsr = word_at_line lines (j + 4);
}

abbrev pub hfsr_at : ℕ → ℕ
hfsr_at cfsr = 29 + length (decode_cfsr cfsr)

abbrev pub rest_at : ℕ → ℕ → ℕ
rest_at cfsr hfsr = hfsr_at cfsr + 1 + length (hfsr_lines hfsr)

-- The registers, from the lines of a report: CFSR is on line 28, and behind it and HFSR stand lines
-- for the bits that they have.
unfoldable pub shown_regs : List (List ℕ) → Regs
shown_regs lines =
    let cfsr = word_at_line lines 28 in
    let hfsr = word_at_line lines (hfsr_at cfsr) in regs_on lines cfsr hfsr (rest_at cfsr hfsr)

get_or-append :
    (s t : List (List ℕ)) (i n : ℕ) → length s ≡ n → line_at (s ++ t) (n + i) ≡ line_at t i
get_or-append [] t i n e = ap (line_at t) (omega (arith, e))
get_or-append (l ∷ s) t i zero e = absurd (omega (arith, e))
get_or-append (l ∷ s) t i (suc n) e =
    ap (line_at (l ∷ (s ++ t))) (let up : suc n + i ≡ suc (n + i) = omega arith in up)
    ∙ get_or-append s t i n (omega (arith, e))

pub word_of-exact : (v : ℕ) → v < 2 ^ 32 → word_value 8 (hex08 v) ≡ v
word_of-exact v h = ap (word_value 8) (sym (append-nil (hex08 v))) ∙ word_value-hex08 v [] h

length-bit_lines : (bits : List (List ℕ)) → length (bit_lines bits) ≡ length bits
length-bit_lines [] = refl
length-bit_lines (bit ∷ bits) = ap suc (length-bit_lines bits)

module _ (d : PanicDump) where
  abbrev names : List (List ℕ)
  names = bit_lines (decode_cfsr d.regs.cfsr)

  abbrev pub rest : List (List ℕ)
  rest = rest_lines d ++ stack_lines d

  abbrev behind : List (List ℕ)
  behind = hfsr_line d ∷ (hfsr_lines d.regs.hfsr ++ rest)

  from_bits : (k : ℕ) → line_at (report_lines d) (29 + k) ≡ line_at (names ++ behind) k
  unfolding report_lines
  from_bits k = get_or-append (lines_to_cfsr d) (names ++ behind) k 29 refl

  from_hfsr : (k : ℕ) → line_at (report_lines d) (hfsr_at d.regs.cfsr + k) ≡ line_at behind k
  from_hfsr k =
      let n = length (decode_cfsr d.regs.cfsr) in
      ap (line_at (report_lines d))
        (let e : hfsr_at d.regs.cfsr + k ≡ 29 + (n + k) = omega arith in e)
      ∙ from_bits (n + k)
      ∙ get_or-append names behind k n (length-bit_lines (decode_cfsr d.regs.cfsr))

  pub from_rest :
      (k : ℕ) → line_at (report_lines d) (rest_at d.regs.cfsr d.regs.hfsr + k) ≡ line_at rest k
  from_rest k =
      let bits = hfsr_lines d.regs.hfsr in
      let n = length bits in
      ap (line_at (report_lines d)) (
        let e : rest_at d.regs.cfsr d.regs.hfsr + k ≡ hfsr_at d.regs.cfsr + suc (n + k) =
          omega arith in
        e)
      ∙ from_hfsr (suc (n + k))
      ∙ get_or-append bits rest k n refl

  at_hfsr : line_at (report_lines d) (hfsr_at d.regs.cfsr) ≡ hfsr_line d
  at_hfsr =
      ap (line_at (report_lines d))
        (let e : hfsr_at d.regs.cfsr ≡ hfsr_at d.regs.cfsr + 0 = omega arith in e)
      ∙ from_hfsr 0

  module _ (h : IsRegs d.regs) where
    pub read_cfsr : word_at_line (report_lines d) 28 ≡ d.regs.cfsr
    unfolding report_lines
    read_cfsr = word_of-exact d.regs.cfsr h.cfsr

    pub read_hfsr : word_at_line (report_lines d) (hfsr_at d.regs.cfsr) ≡ d.regs.hfsr
    read_hfsr = ap word_on at_hfsr ∙ word_of-exact d.regs.hfsr h.hfsr

    -- A register behind the bits of HFSR.
    read_rest :
        (k v : ℕ) (line : List ℕ)
        → line_at rest k ≡ line
        → word_on line ≡ v
        → word_at_line (report_lines d) (rest_at d.regs.cfsr d.regs.hfsr + k) ≡ v
    read_rest k v line found same = ap word_on (from_rest k ∙ found) ∙ same

    read_regs_on :
        regs_on (report_lines d) d.regs.cfsr d.regs.hfsr (rest_at d.regs.cfsr d.regs.hfsr) ≡ d.regs
    unfolding report_lines
    read_regs_on = λ i. record {
      r0 = word_of-exact d.regs.r0 h.r0 i;
      r1 = word_of-exact d.regs.r1 h.r1 i;
      r2 = word_of-exact d.regs.r2 h.r2 i;
      r3 = word_of-exact d.regs.r3 h.r3 i;
      r12 = word_of-exact d.regs.r12 h.r12 i;
      lr = word_of-exact d.regs.lr h.lr i;
      pc = word_value-hex08 d.regs.pc (codes "   <- fault address") h.pc i;
      xpsr = word_of-exact d.regs.xpsr h.xpsr i;
      msp = word_of-exact d.regs.msp h.msp i;
      psp = word_of-exact d.regs.psp h.psp i;
      control = word_of-exact d.regs.control h.control i;
      primask = word_of-exact d.regs.primask h.primask i;
      basepri = word_of-exact d.regs.basepri h.basepri i;
      faultmask = word_of-exact d.regs.faultmask h.faultmask i;
      cfsr = d.regs.cfsr;
      hfsr = d.regs.hfsr;
      dfsr = read_rest 0 d.regs.dfsr _ refl (word_of-exact d.regs.dfsr h.dfsr) i;
      mmfar = read_rest 1 d.regs.mmfar _ refl (word_of-exact d.regs.mmfar h.mmfar) i;
      bfar = read_rest 2 d.regs.bfar _ refl (word_of-exact d.regs.bfar h.bfar) i;
      afsr = read_rest 3 d.regs.afsr _ refl (word_of-exact d.regs.afsr h.afsr) i;
      shcsr = read_rest 4 d.regs.shcsr _ refl (word_of-exact d.regs.shcsr h.shcsr) i;
    }

pub shown_regs-report_lines : (d : PanicDump) → IsRegs d.regs → shown_regs (report_lines d) ≡ d.regs
unfolding shown_regs
shown_regs-report_lines d h =
    let lines = report_lines d in
    let status = λ (cfsr hfsr : ℕ). regs_on lines cfsr hfsr (rest_at cfsr hfsr) in
    let hfsr_of = λ (cfsr : ℕ). word_at_line lines (hfsr_at cfsr) in
    ap (λ cfsr. status cfsr (hfsr_of cfsr)) (read_cfsr d h)
    ∙ ap (status d.regs.cfsr) (read_hfsr d h)
    ∙ read_regs_on d h

pub split_lines-render_report : (d : PanicDump) → split_lines (render_report d) ≡ report_lines d
unfolding render_report report_lines
split_lines-render_report d = split_lines-join _ _ (report_lines-AreLines d)

-- For every parsed dump whose registers are words: the text of its report, split at its newlines, has
-- lines from which `shown_regs` reads all 21 registers back, wherever the lines for the bits of CFSR
-- and HFSR have moved them, and whatever the other fields and the stack slice are.
pub shown_regs-render_report :
    (d : PanicDump) → IsRegs d.regs → shown_regs (split_lines (render_report d)) ≡ d.regs
shown_regs-render_report d h =
    ap shown_regs (split_lines-render_report d) ∙ shown_regs-report_lines d h
