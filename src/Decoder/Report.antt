-- ===== src/Decoder/Report.antt =====
-- `render_report` of tools/decode_panicdump.py, on the lines that it joins.
pub mod Split
pub mod Lines
pub mod Page
pub mod ReadBack
pub mod Slice
use panicdump.Base.{
  ℕ, zero, suc, ◌+◌, ◌-◌, ◌/◌, ◌%◌, ◌^◌, List, [], ◌∷◌, ◌++◌, Bool, Option, none, some, bit_and,
  ◌!=◌, ◌==◌, ◌&&◌, ltb, leb, if◌then◌else◌, ◌<<<◌, length, take, replicate,
}
use panicdump.Export.{codes}
use panicdump.Export.Text.{digit_char}
use panicdump.Decoder.Strings.{drop}
use panicdump.Decoder.Tags.{known_reason}
use panicdump.Decoder.Cfsr.{decode_cfsr}
use panicdump.Decoder.Parse.{PanicDump}
use panicdump.Decoder.Dicts.{arch_name, fault_name}

-- `n` hex digits, with zeros in front.
abbrev pub hex_digits : ℕ → ℕ → List ℕ
hex_digits zero v = []
hex_digits (suc n) v = digit_char (v / 16 ^ n % 16) ∷ hex_digits n v

-- `:08X`, of a number below 16 ^ 9. The largest is an address of the slice, a word and at most 48.
unfoldable pub hex08 : ℕ → List ℕ
hex08 v = if ltb v (16 ^ 8) then hex_digits 8 v else hex_digits 9 v

unfoldable pub decimal_digits : ℕ → ℕ → List ℕ
decimal_digits zero v = []
decimal_digits (suc n) v =
    if ltb v 10 then (48 + v) ∷ [] else decimal_digits n (v / 10) ++ ((48 + v % 10) ∷ [])

-- A number below 10 ^ 10, as a word is.
abbrev pub decimal : ℕ → List ℕ
decimal v = decimal_digits 10 v

abbrev pub arch_text : ℕ → List ℕ
arch_text n = arch_name n (codes "0x" ++ hex08 n)

abbrev pub fault_text : ℕ → List ℕ
fault_text n = fault_name n (codes "0x" ++ hex08 n)

abbrev pub reason_text : Option (List ℕ) → List ℕ
reason_text (some known) = codes "  -> reason_tag=" ++ (34 ∷ (known ++ (34 ∷ [])))
reason_text none = codes "  (unknown reason_tag - add to KNOWN_REASON_TAGS)"

abbrev pub tag_text : PanicDump → List ℕ
tag_text d =
    decimal d.user_tag
    ++ (codes "  (0x"
        ++ (hex08 d.user_tag
            ++ (codes ")"
                ++ (if d.fault_reason == 5 then reason_text (known_reason d.user_tag) else []))))

abbrev sep : List ℕ
sep = replicate 60 45

abbrev pub crc_text : Bool → List ℕ
crc_text ok = if ok then codes "OK" else codes "FAIL <-- dump may be corrupt!"

-- Up to the registers.
abbrev pub summary_lines : PanicDump → List (List ℕ)
summary_lines d =
    sep
    ∷ codes "  panicdump crash report"
    ∷ sep
    ∷ (codes "  version     : " ++ decimal d.version)
    ∷ (codes "  arch        : " ++ arch_text d.arch_id)
    ∷ (codes "  fault       : " ++ fault_text d.fault_reason)
    ∷ (codes "  user_tag    : " ++ tag_text d)
    ∷ (codes "  exc_return  : 0x" ++ hex08 d.sequence)
    ∷ (codes "  crc         : " ++ crc_text d.crc_ok)
    ∷ (codes "  dump_size   : " ++ (decimal d.total_size ++ codes " bytes"))
    ∷ []

abbrev pub core_lines : PanicDump → List (List ℕ)
core_lines d =
    []
    ∷ codes "  [ Registers ]"
    ∷ (codes "  pc          : 0x" ++ (hex08 d.regs.pc ++ codes "   <- fault address"))
    ∷ (codes "  lr          : 0x" ++ hex08 d.regs.lr)
    ∷ (codes "  sp (msp)    : 0x" ++ hex08 d.regs.msp)
    ∷ (codes "  sp (psp)    : 0x" ++ hex08 d.regs.psp)
    ∷ (codes "  xpsr        : 0x" ++ hex08 d.regs.xpsr)
    ∷ (codes "  r0          : 0x" ++ hex08 d.regs.r0)
    ∷ (codes "  r1          : 0x" ++ hex08 d.regs.r1)
    ∷ (codes "  r2          : 0x" ++ hex08 d.regs.r2)
    ∷ (codes "  r3          : 0x" ++ hex08 d.regs.r3)
    ∷ (codes "  r12         : 0x" ++ hex08 d.regs.r12)
    ∷ (codes "  control     : 0x" ++ hex08 d.regs.control)
    ∷ (codes "  primask     : 0x" ++ hex08 d.regs.primask)
    ∷ (codes "  basepri     : 0x" ++ hex08 d.regs.basepri)
    ∷ (codes "  faultmask   : 0x" ++ hex08 d.regs.faultmask)
    ∷ []

abbrev pub bit_lines : List (List ℕ) → List (List ℕ)
bit_lines [] = []
bit_lines (bit ∷ bits) = (codes "                  -> " ++ bit) ∷ bit_lines bits

abbrev line_if : Bool → List ℕ → List (List ℕ)
line_if shown line = if shown then line ∷ [] else []

abbrev pub status_lines : PanicDump → List (List ℕ)
status_lines d =
    []
    ∷ codes "  [ Fault Status Registers ]"
    ∷ (codes "  cfsr        : 0x" ++ hex08 d.regs.cfsr)
    ∷ []

abbrev pub hfsr_lines : ℕ → List (List ℕ)
hfsr_lines hfsr =
    line_if (bit_and hfsr (1 <<< 30) != 0)
      (codes "                  -> FORCED (escalated from lower fault)")
    ++ line_if (bit_and hfsr (1 <<< 1) != 0)
        (codes "                  -> VECTTBL (vector table read fault)")

abbrev pub rest_lines : PanicDump → List (List ℕ)
rest_lines d =
    (codes "  dfsr        : 0x" ++ hex08 d.regs.dfsr)
    ∷ (codes "  mmfar       : 0x" ++ hex08 d.regs.mmfar)
    ∷ (codes "  bfar        : 0x" ++ hex08 d.regs.bfar)
    ∷ (codes "  afsr        : 0x" ++ hex08 d.regs.afsr)
    ∷ (codes "  shcsr       : 0x" ++ hex08 d.regs.shcsr)
    ∷ []

-- `" ".join(f"{b:02X}" for b in chunk)`
abbrev pub hex_part : List ℕ → List ℕ
hex_part [] = []
hex_part (b ∷ []) = hex_digits 2 b
hex_part (b ∷ chunk) = hex_digits 2 b ++ (32 ∷ hex_part chunk)

abbrev pub ascii_part : List ℕ → List ℕ
ascii_part [] = []
ascii_part (b ∷ chunk) = (if leb 32 b && ltb b 127 then b else 46) ∷ ascii_part chunk

-- `:<47`
abbrev pub padded : List ℕ → List ℕ
padded text = text ++ replicate (47 - length text) 32

abbrev pub chunk_line : ℕ → List ℕ → List ℕ
chunk_line address chunk =
    codes "  "
    ++ (hex08 address
        ++ (codes ":  " ++ (padded (hex_part chunk) ++ (codes "  " ++ ascii_part chunk))))

-- The loop over the chunks of 16 bytes, with `left` rounds left, at the index `i`.
unfoldable pub chunk_lines : ℕ → List ℕ → ℕ → ℕ → List (List ℕ)
chunk_lines stack_sp stack_data i zero = []
chunk_lines stack_sp stack_data i (suc left) =
    chunk_line (stack_sp + i) (take 16 (drop i stack_data))
    ∷ chunk_lines stack_sp stack_data (i + 16) left

abbrev pub stack_lines : PanicDump → List (List ℕ)
stack_lines d =
    []
    ∷ (codes "  [ Stack Slice @ 0x"
        ++ (hex08 d.stack_sp ++ (codes " (" ++ (decimal d.stack_bytes ++ codes " bytes) ]"))))
    ∷ (chunk_lines d.stack_sp d.stack_data 0 ((length d.stack_data + 15) / 16) ++ ([] ∷ sep ∷ []))

abbrev pub hfsr_line : PanicDump → List ℕ
hfsr_line d = codes "  hfsr        : 0x" ++ hex08 d.regs.hfsr

-- Up to CFSR, which lines for its bits follow.
abbrev pub lines_to_cfsr : PanicDump → List (List ℕ)
lines_to_cfsr d = summary_lines d ++ (core_lines d ++ status_lines d)

-- `lines`, when `render_report` joins them.
unfoldable pub report_lines : PanicDump → List (List ℕ)
report_lines d =
    lines_to_cfsr d
    ++ (bit_lines (decode_cfsr d.regs.cfsr)
        ++ (hfsr_line d ∷ (hfsr_lines d.regs.hfsr ++ (rest_lines d ++ stack_lines d))))

-- `"\n".join(lines)`
unfoldable pub join : List (List ℕ) → List ℕ
join [] = []
join (line ∷ []) = line
join (line ∷ lines) = line ++ (10 ∷ join lines)

unfoldable pub render_report : PanicDump → List ℕ
unfolding report_lines join decimal_digits hex08 chunk_lines
render_report d = join (report_lines d)
