-- ===== src/Decoder/Report/Lines.antt =====
-- The texts that the lines of a report are made of have no newline in them.
use panicdump.Base.{
  ℕ, zero, suc, ◌+◌, ◌/◌, ◌%◌, ◌^◌, ◌≢◌, arith, List, [], ◌∷◌, ◌++◌, Bool, true, false, Option,
  none, some, ◌==◌, ◌!=◌, ltb, if◌then◌else◌, bit_and, ◌>>>◌, ◌<<<◌,
}
use panicdump.Export.{codes}
use panicdump.Export.Text.{digit_char}
use panicdump.Decoder.Tags.{reason_tags, dict_get, known_reason, fnv1a_32}
use panicdump.Decoder.Cfsr.{ufsr_bits, bfsr_bits, mmfsr_bits, set_names, decode_cfsr}
use panicdump.Decoder.Parse.{PanicDump}
use panicdump.Decoder.Report.{
  hex_digits, hex08, decimal_digits, decimal, arch_text, fault_text, reason_text, tag_text,
  bit_lines, hex_part, ascii_part,
}
use panicdump.Decoder.Report.Split.{
  IsLine, AreLines, IsLine-append, AreLines-append, IsLine-if, AreLines-if,
}

digit_char-ne : (n : ℕ) → digit_char n ≢ 10
digit_char-ne n = ground arith

hex_digits-IsLine : (n v : ℕ) → IsLine (hex_digits n v)
hex_digits-IsLine zero v = tt
hex_digits-IsLine (suc n) v = (digit_char-ne (v / 16 ^ n % 16), hex_digits-IsLine n v)

pub hex08-IsLine : (v : ℕ) → IsLine (hex08 v)
unfolding hex08
hex08-IsLine v = IsLine-if (ltb v (16 ^ 8)) _ _ (hex_digits-IsLine 8 v) (hex_digits-IsLine 9 v)

decimal_digits-IsLine : (n v : ℕ) → IsLine (decimal_digits n v)
unfolding decimal_digits
decimal_digits-IsLine zero v = tt
decimal_digits-IsLine (suc n) v =
    let digit : 48 + v % 10 ≢ 10 = λ e. absurd (omega (arith, e)) in
    let short : 48 + v ≢ 10 = λ e. absurd (omega (arith, e)) in
    IsLine-if (ltb v 10) _ _ (short, tt)
      (IsLine-append (decimal_digits n (v / 10)) ((48 + v % 10) ∷ [])
        (decimal_digits-IsLine n (v / 10)) (digit, tt))

-- A label, and a number in hex behind it.
pub labelled : (label : List ℕ) (v : ℕ) → IsLine label → IsLine (label ++ hex08 v)
labelled label v h = IsLine-append label (hex08 v) h (hex08-IsLine v)

abbrev FoundLine : Option (List ℕ) → Type 0
FoundLine none = Unit
FoundLine (some s) = IsLine s

FoundLine-if : (b : Bool) (s : List ℕ) → IsLine s → FoundLine (if b then some s else none)
FoundLine-if true s h = h
FoundLine-if false s h = tt

FoundLine-or :
    (a b : Option (List ℕ))
    → FoundLine a
    → FoundLine b
    → FoundLine (elim a [ some found ↦ some found | none ↦ b ])
FoundLine-or none b p q = q
FoundLine-or (some s) b p q = p

dict_get-FoundLine :
    (tags : List (List ℕ)) (key : ℕ) → AreLines tags → FoundLine (dict_get tags key)
unfolding dict_get
dict_get-FoundLine [] key h = tt
dict_get-FoundLine (s ∷ rest) key h =
    let here : FoundLine (if fnv1a_32 s == key then some s else none) =
      FoundLine-if (fnv1a_32 s == key) s h.0 in
    FoundLine-or (dict_get rest key) _ (dict_get-FoundLine rest key h.1) here

pub ascii_part-IsLine : (chunk : List ℕ) → IsLine (ascii_part chunk)
ascii_part-IsLine [] = tt
ascii_part-IsLine (b ∷ chunk) = (ground arith, ascii_part-IsLine chunk)

pub hex_part-IsLine : (chunk : List ℕ) → IsLine (hex_part chunk)
hex_part-IsLine [] = tt
hex_part-IsLine (b ∷ []) = hex_digits-IsLine 2 b
hex_part-IsLine (b ∷ (c ∷ chunk)) =
    IsLine-append (hex_digits 2 b) (32 ∷ hex_part (c ∷ chunk)) (hex_digits-IsLine 2 b)
      ((λ e. absurd (omega (arith, e))), hex_part-IsLine (c ∷ chunk))

abbrev AreNames : List (ℕ × List ℕ) → Type 0
AreNames [] = Unit
AreNames ((bit, name) ∷ bits) = IsLine name × AreNames bits

set_names-AreLines :
    (status : ℕ) (bits : List (ℕ × List ℕ)) → AreNames bits → AreLines (set_names status bits)
unfolding set_names
set_names-AreLines status [] h = tt
set_names-AreLines status ((bit, name) ∷ bits) h =
    let rest = set_names-AreLines status bits h.1 in
    AreLines-if (bit_and status (1 <<< bit) != 0) _ _ (h.0, rest) rest

pub decode_cfsr-AreLines : (cfsr : ℕ) → AreLines (decode_cfsr cfsr)
unfolding decode_cfsr
decode_cfsr-AreLines cfsr =
    let ufsr = bit_and (cfsr >>> 16) 0xFFFF in
    let bfsr = bit_and (cfsr >>> 8) 0xFF in
    let mmfsr = bit_and cfsr 0xFF in
    let behind = set_names bfsr bfsr_bits ++ set_names mmfsr mmfsr_bits in
    AreLines-append (set_names ufsr ufsr_bits) behind
      (set_names-AreLines ufsr ufsr_bits (omega arith))
      (AreLines-append (set_names bfsr bfsr_bits) (set_names mmfsr mmfsr_bits)
        (set_names-AreLines bfsr bfsr_bits (omega arith))
        (set_names-AreLines mmfsr mmfsr_bits (omega arith)))

pub bit_lines-AreLines : (bits : List (List ℕ)) → AreLines bits → AreLines (bit_lines bits)
bit_lines-AreLines [] h = tt
bit_lines-AreLines (bit ∷ bits) h = (
  IsLine-append (codes "                  -> ") bit (omega arith) h.0,
  bit_lines-AreLines bits h.1,
)

pub decimal-IsLine : (v : ℕ) → IsLine (decimal v)
decimal-IsLine v = decimal_digits-IsLine 10 v

or_hex : (n : ℕ) → IsLine (codes "0x" ++ hex08 n)
or_hex n = labelled (codes "0x") n (omega arith)

pub arch_text-IsLine : (n : ℕ) → IsLine (arch_text n)
arch_text-IsLine n =
    IsLine-if (n == 3) _ _ (omega arith) (IsLine-if (n == 4) _ _ (omega arith) (or_hex n))

pub fault_text-IsLine : (n : ℕ) → IsLine (fault_text n)
fault_text-IsLine n = IsLine-if (n == 0) _ _ (omega arith) (
    IsLine-if (n == 1) _ _ (omega arith) (
      IsLine-if (n == 2) _ _ (omega arith) (
        IsLine-if (n == 3) _ _ (omega arith) (
          IsLine-if (n == 4) _ _ (omega arith) (IsLine-if (n == 5) _ _ (omega arith) (or_hex n))))))

reason_text-IsLine : (found : Option (List ℕ)) → FoundLine found → IsLine (reason_text found)
reason_text-IsLine none h = omega arith
reason_text-IsLine (some known) h =
    let quote : IsLine (34 ∷ []) = omega arith in
    IsLine-append (codes "  -> reason_tag=") (34 ∷ (known ++ (34 ∷ []))) (omega arith)
      (quote.0, IsLine-append known (34 ∷ []) h quote)

known_reason-FoundLine : (key : ℕ) → FoundLine (known_reason key)
unfolding known_reason
known_reason-FoundLine key = dict_get-FoundLine reason_tags key (omega arith)

pub tag_text-IsLine : (d : PanicDump) → IsLine (tag_text d)
tag_text-IsLine d =
    let known = reason_text-IsLine (known_reason d.user_tag) (known_reason-FoundLine d.user_tag) in
    IsLine-append (decimal d.user_tag) _ (decimal-IsLine d.user_tag) (
      IsLine-append (codes "  (0x") _ (omega arith) (
        IsLine-append (hex08 d.user_tag) _ (hex08-IsLine d.user_tag) (
          IsLine-append (codes ")") _ (omega arith)
            (IsLine-if (d.fault_reason == 5) (reason_text (known_reason d.user_tag)) [] known tt))))
