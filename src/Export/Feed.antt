-- ===== src/Export/Feed.antt =====
-- The export's writing loops pass a text to the callback, character by character.
use mathlib.Core.Path.{fun_ext}
use panicdump.Base.{
  ℕ, zero, suc, ◌+◌, ◌/◌, ◌%◌, ◌<◌, ◌≡◌, refl, sym, ap, ap₂, ◌∙◌, arith, List, [], ◌∷◌, ◌++◌, Bool,
  true, false, some, ◌&&◌, ◌||◌, ◌==◌, if◌then◌else◌, bit_and, ◌>>>◌, ==_iff, Bool-cases, inl, inr,
  ℕ_discrete,
}
use panicdump.Bits.Fields.{and-mask}
use panicdump.Wire.{byte_at}
use panicdump.Wire.Word.{byte_at-lt}
use panicdump.Dump.{IsBytes}
use panicdump.Export.{
  Writer, ◌&then◌, hex_digit, new_line, begin_marker, end_marker, write_str, write_hex_byte,
  write_line_end, write_bytes, write_dump,
}
use panicdump.Export.Text.{digit_char, byte_text, bytes_text, lines_text, dump_text}

-- The table of digits and the two ranges of characters agree.
digits_agree : ℕ → Bool
digits_agree zero = true
digits_agree (suc n) = (hex_digit n == digit_char n) && digits_agree n

digits_agree_at : (k n : ℕ) → digits_agree k ≡ true → n < k → hex_digit n ≡ digit_char n
unfolding digits_agree
digits_agree_at zero n h lt = absurd (omega arith)
digits_agree_at (suc k) n h lt = elim (Bool-cases (hex_digit k == digit_char k)) [
  | inl here ↦ elim (ℕ_discrete n k) [
    | yes e ↦ rw e ((==_iff (hex_digit k) (digit_char k)).0 here)
    | no other ↦ digits_agree_at k n (rw here at h) (omega arith)
  ]
  | inr wrong ↦ absurd (cc (rw wrong at h))
]

hex_digit-char : (n : ℕ) → n < 16 → hex_digit n ≡ digit_char n
hex_digit-char n h = digits_agree_at 16 n (unfold digits_agree hex_digit in refl) h

high_digit : (b : ℕ) → b < 256 → hex_digit (bit_and (b >>> 4) 0x0f) ≡ digit_char (b / 16)
high_digit b h =
    let nibble : bit_and (b / 16) 15 ≡ b / 16 = omega (arith, and-mask 4 (b / 16)) in
    ap hex_digit nibble ∙ hex_digit-char (b / 16) (omega arith)

low_digit : (b : ℕ) → hex_digit (bit_and b 0x0f) ≡ digit_char (b % 16)
low_digit b = ap hex_digit (and-mask 4 b) ∙ hex_digit-char (b % 16) (omega arith)

-- The line break, if one is due after the byte at `i`.
abbrev line_end : ℕ → List ℕ
line_end i = if i % 32 == 31 || i + 1 == 192 then new_line else []

-- The text of the `n` bytes from the index `i` on, with the line breaks of the loop.
stream : List ℕ → ℕ → ℕ → List ℕ
stream wire i zero = []
stream wire i (suc n) = byte_text (byte_at wire i) ++ (line_end i ++ stream wire (i + 1) n)

-- Over the whole image these are six lines.
stream-lines : (wire : List ℕ) → stream wire 0 192 ≡ lines_text wire 0 6
unfolding stream lines_text bytes_text
stream-lines wire = refl

module _ {S : Type 0} where
  abbrev done : Writer S
  done s = (true, s)

  then_assoc : (a b c : Writer S) → ((a &then b) &then c) ≡ (a &then (b &then c))
  then_assoc a b c = fun_ext λ s. branch (a s).0 (a s).1
    where
      branch :
          (t : Bool) (s' : S)
          → (let (go, s'') = (if t then b s' else (false, s')) in
              if go then c s'' else (false, s''))
            ≡ (if t then (b &then c) s' else (false, s'))
      branch true s' = refl
      branch false s' = refl

  then-done : (a : Writer S) → (a &then done) ≡ a
  then-done a = fun_ext λ s. branch (a s).0 (a s).1
    where
      branch :
          (t : Bool) (s' : S) → ◌≡◌ {A = Bool × S} (if t then (true, s') else (false, s')) (t, s')
      branch true s' = refl
      branch false s' = refl

  -- The characters of a text, until the callback refuses one.
  unfoldable pub feed : (ℕ → Writer S) → List ℕ → Writer S
  feed write [] = done
  feed write (c ∷ text) = write c &then feed write text

  feed-append :
      (write : ℕ → Writer S) (a b : List ℕ)
      → feed write (a ++ b) ≡ (feed write a &then feed write b)
  unfolding feed
  feed-append write [] b = refl
  feed-append write (c ∷ a) b =
      ap (λ rest. write c &then rest) (feed-append write a b)
      ∙ sym (then_assoc (write c) (feed write a) (feed write b))

  write_str-feed :
      (write : ℕ → Writer S) (text : List ℕ) → write_str (some write) text ≡ feed write text
  unfolding write_str feed
  write_str-feed write [] = refl
  write_str-feed write (c ∷ text) = ap (λ rest. write c &then rest) (write_str-feed write text)

  write_hex_byte-feed :
      (write : ℕ → Writer S) (b : ℕ)
      → b < 256
      → write_hex_byte (some write) b ≡ feed write (byte_text b)
  unfolding write_hex_byte feed
  write_hex_byte-feed write b h =
      ap₂ (λ x y. write x &then write y) (high_digit b h) (low_digit b)
      ∙ ap (λ rest. write (digit_char (b / 16)) &then rest)
          (sym (then-done (write (digit_char (b % 16)))))

  write_line_end-feed :
      (write : ℕ → Writer S) (i : ℕ) → write_line_end (some write) i ≡ feed write (line_end i)
  unfolding write_line_end feed
  write_line_end-feed write i = fun_ext λ s. branch (i % 32 == 31 || i + 1 == 192) s
    where
      branch :
          (due : Bool) (s : S)
          → (if due then (write 13 &then write 10) s else (true, s))
            ≡ feed write (if due then new_line else []) s
      branch true s = ap (λ (rest : Writer S). (write 13 &then rest) s) (sym (then-done (write 10)))
      branch false s = refl

  write_bytes-feed :
      (write : ℕ → Writer S) (wire : List ℕ) (i left : ℕ)
      → IsBytes wire
      → write_bytes (some write) wire i left ≡ feed write (stream wire i left)
  unfolding write_bytes stream
  write_bytes-feed write wire i zero h = unfold feed in refl
  write_bytes-feed write wire i (suc left) h =
      let byte = byte_text (byte_at wire i) in
      let rest = stream wire (i + 1) left in
      ap₂ (λ x (y : Writer S). x &then (write_line_end (some write) i &then y))
        (write_hex_byte-feed write (byte_at wire i) (byte_at-lt wire i h))
        (write_bytes-feed write wire (i + 1) left h)
      ∙ ap (λ (x : Writer S). feed write byte &then (x &then feed write rest))
          (write_line_end-feed write i)
      ∙ ap (λ (x : Writer S). feed write byte &then x) (sym (feed-append write (line_end i) rest))
      ∙ sym (feed-append write byte (line_end i ++ rest))

  pub write_dump-feed :
      (write : ℕ → Writer S) (wire : List ℕ)
      → IsBytes wire
      → write_dump (some write) wire ≡ feed write (dump_text wire)
  unfolding write_dump dump_text
  write_dump-feed write wire h =
      let body = lines_text wire 0 6 in
      let bytes = write_bytes-feed write wire 0 192 h ∙ ap (feed write) (stream-lines wire) in
      (λ i.
        write_str-feed write begin_marker i &then (bytes i &then write_str-feed write end_marker i))
      ∙ ap (λ (x : Writer S). feed write begin_marker &then x)
          (sym (feed-append write body end_marker))
      ∙ sym (feed-append write begin_marker (body ++ end_marker))
