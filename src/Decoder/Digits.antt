-- ===== src/Decoder/Digits.antt =====
-- Capital hex digits, as the export writes them, under the decoder's string functions.
use panicdump.Base.{
  ℕ, zero, suc, ◌+◌, ◌*◌, ◌/◌, ◌%◌, ◌≤◌, ◌<◌, ◌≡◌, ◌≢◌, ◌⊎◌, refl, ap, ap₂, ◌∙◌, arith, List, [],
  ◌∷◌, ◌++◌, true, false, ◌==◌, length, tabulate, ne→==,
}
use panicdump.Wire.{byte_at}
use panicdump.Wire.Word.{byte_at-lt}
use panicdump.Dump.{IsBytes}
use panicdump.Export.Text.{digit_char, bytes_text}
use panicdump.Decoder.Strings.{
  universal_newlines, starts_with, count, find, is_space, unspaced, is_hex, all_hex, hex_value,
  from_hex,
}

abbrev pub IsDigit : ℕ → Type 0
IsDigit c = ((48 ≤ c) × (c ≤ 57)) ⊎ ((65 ≤ c) × (c ≤ 70))

abbrev pub IsDigits : List ℕ → Type 0
IsDigits [] = Unit
IsDigits (c ∷ s) = IsDigit c × IsDigits s

-- A text without the first character of the markers.
abbrev pub IsPlain : List ℕ → Type 0
IsPlain [] = Unit
IsPlain (c ∷ s) = (61 ≢ c) × IsPlain s

digit_char-IsDigit : (n : ℕ) → n < 16 → IsDigit (digit_char n)
digit_char-IsDigit n h = ground arith

pub bytes_text-IsDigits : (wire : List ℕ) (i n : ℕ) → IsBytes wire → IsDigits (bytes_text wire i n)
unfolding bytes_text
bytes_text-IsDigits wire i zero h = tt
bytes_text-IsDigits wire i (suc n) h =
    let small = byte_at-lt wire i h in
    (
      digit_char-IsDigit (byte_at wire i / 16) (omega arith),
      (
        digit_char-IsDigit (byte_at wire i % 16) (omega arith),
        bytes_text-IsDigits wire (i + 1) n h,
      ),
    )

pub IsDigits-IsPlain : (s : List ℕ) → IsDigits s → IsPlain s
IsDigits-IsPlain [] h = tt
IsDigits-IsPlain (c ∷ s) h = (λ e. absurd (omega (arith, h.0)), IsDigits-IsPlain s h.1)

pub IsPlain-append : (a b : List ℕ) → IsPlain a → IsPlain b → IsPlain (a ++ b)
IsPlain-append [] b p q = q
IsPlain-append (c ∷ a) b p q = (p.0, IsPlain-append a b p.1 q)

pub universal_newlines-digits :
    (s rest : List ℕ)
    → IsDigits s
    → universal_newlines false (s ++ rest) ≡ s ++ universal_newlines false rest
unfolding universal_newlines
universal_newlines-digits [] rest h = refl
universal_newlines-digits (c ∷ s) rest h =
    let cr : (c == 13) ≡ false = ground (arith, h.0) in
    let lf : (c == 10) ≡ false = ground (arith, h.0) in
    rw (cr, lf) (ap (λ l. c ∷ l) (universal_newlines-digits s rest h.1))

pub count-plain :
    (marker s rest : List ℕ)
    → IsPlain s
    → count (61 ∷ marker) 0 (s ++ rest) ≡ count (61 ∷ marker) 0 rest
unfolding count starts_with
count-plain marker [] rest h = refl
count-plain marker (c ∷ s) rest h = rw (ne→== 61 c h.0) (count-plain marker s rest h.1)

pub find-plain :
    (marker s rest : List ℕ) (i : ℕ)
    → IsPlain s
    → find (61 ∷ marker) i (s ++ rest) ≡ find (61 ∷ marker) (i + length s) rest
unfolding find starts_with
find-plain marker [] rest i h = ap (λ j. find (61 ∷ marker) j rest) (omega arith)
find-plain marker (c ∷ s) rest i h =
    rw (ne→== 61 c h.0)
      (find-plain marker s rest (i + 1) h.1 ∙ ap (λ j. find (61 ∷ marker) j rest) (omega arith))

pub unspaced-digits : (s rest : List ℕ) → IsDigits s → unspaced (s ++ rest) ≡ s ++ unspaced rest
unfolding unspaced
unspaced-digits [] rest h = refl
unspaced-digits (c ∷ s) rest h =
    let solid : is_space c ≡ false = ground (arith, h.0) in
    rw solid (ap (λ l. c ∷ l) (unspaced-digits s rest h.1))

pub all_hex-digits : (s : List ℕ) → IsDigits s → all_hex s ≡ true
unfolding all_hex
all_hex-digits [] h = refl
all_hex-digits (c ∷ s) h =
    let hex : is_hex c ≡ true = ground (arith, h.0) in rw hex (all_hex-digits s h.1)

hex_value-digit_char : (n : ℕ) → n < 16 → hex_value (digit_char n) ≡ n
hex_value-digit_char n h = ground arith

pub from_hex-bytes_text :
    (wire : List ℕ) (i n : ℕ)
    → IsBytes wire
    → from_hex (bytes_text wire i n) ≡ tabulate n i (byte_at wire)
unfolding from_hex bytes_text
from_hex-bytes_text wire i zero h = refl
from_hex-bytes_text wire i (suc n) h =
    let b = byte_at wire i in
    let small = byte_at-lt wire i h in
    let high = hex_value-digit_char (b / 16) (omega arith) in
    let low = hex_value-digit_char (b % 16) (omega arith) in
    ap₂ ◌∷◌ (ap₂ (λ (x y : ℕ). x * 16 + y) high low ∙ omega arith)
      (from_hex-bytes_text wire (i + 1) n h)

pub length-bytes_text : (wire : List ℕ) (i n : ℕ) → length (bytes_text wire i n) ≡ n * 2
unfolding bytes_text
length-bytes_text wire i zero = refl
length-bytes_text wire i (suc n) = omega (arith, length-bytes_text wire (i + 1) n)

pub bytes_text-add :
    (wire : List ℕ) (i m n : ℕ)
    → bytes_text wire i (m + n) ≡ bytes_text wire i m ++ bytes_text wire (i + m) n
unfolding bytes_text
bytes_text-add wire i zero n =
    let start : i ≡ i + 0 = omega arith in
    let size : 0 + n ≡ n = omega arith in ap₂ (bytes_text wire) start size
bytes_text-add wire i (suc m) n =
    let size : suc m + n ≡ suc (m + n) = omega arith in
    let start : i + 1 + m ≡ i + suc m = omega arith in
    ap (bytes_text wire i) size
    ∙ ap (λ l. digit_char (byte_at wire i / 16) ∷ digit_char (byte_at wire i % 16) ∷ l)
        (bytes_text-add wire (i + 1) m n
          ∙ ap (λ j. bytes_text wire (i + 1) m ++ bytes_text wire j n) start)
