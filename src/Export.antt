-- ===== src/Export.antt =====
-- src/panicdump.c: the export of the dump as hex text through a callback. The callback is a function
-- on a state of its own, which says whether it took the character; it does not touch the slot.
pub mod Text
pub mod Feed
pub mod Spec
pub mod Ascii
use panicdump.Base.{
  ℕ, zero, suc, ◌+◌, ◌%◌, List, [], ◌∷◌, ◌++◌, Bool, true, false, Option, none, some, bit_and,
  get_or, ◌==◌, ◌||◌, if◌then◌else◌, ◌>>>◌,
}
use panicdump.Wire.{byte_at}
use panicdump.Format
use panicdump.Slot.{Slot, has_valid, clear}
use Prim.Native.String.{String}
use Prim.Native.Char.{code}

-- `panicdump_export_status_t`
pub data ExportStatus : Type 0 where
  ok no_dump short_write null_callback : ExportStatus

-- The characters of a string literal.
abbrev pub codes : String → List ℕ
codes String.[] = []
codes (String.◌∷◌ c s) = code c ∷ codes s

abbrev pub new_line : List ℕ
new_line = 13 ∷ 10 ∷ []

abbrev pub begin_marker : List ℕ
begin_marker = codes "=== PANICDUMP BEGIN ===" ++ new_line

abbrev pub end_marker : List ℕ
end_marker = codes "=== PANICDUMP END ===" ++ new_line

-- A step of the export on the callback's state `S`: whether all was written, and the state after.
abbrev pub Writer : Type 0 → Type 0
Writer S = S → Bool × S

-- `a && b`, where `b` is called only if `a` is true.
infixr 35 ◌&then◌
abbrev pub ◌&then◌ : {S : Type 0} → Writer S → Writer S → Writer S
◌&then◌ a b s = let (done, s') = a s in if done then b s' else (false, s')

-- `if (status == PANICDUMP_EXPORT_OK) panicdump_clear();`
unfoldable pub clear_on : ExportStatus → Slot → Slot
unfolding clear
clear_on ok slot = clear slot
clear_on other slot = slot

unfoldable pub hex_digit : ℕ → ℕ
hex_digit n = get_or (codes "0123456789ABCDEF") n 0

module _ {S : Type 0} where
  unfoldable pub write_char_checked : Option (ℕ → Writer S) → ℕ → Writer S
  write_char_checked none c s = (false, s)
  write_char_checked (some write_char) c s = write_char c s

  -- The loop of `panicdump_write_str`, at the characters that are left before the NUL.
  unfoldable pub write_str : Option (ℕ → Writer S) → List ℕ → Writer S
  unfolding write_char_checked
  write_str write_char [] s = (true, s)
  write_str write_char (c ∷ text) s =
      (write_char_checked write_char c &then write_str write_char text) s

  unfoldable pub write_hex_byte : Option (ℕ → Writer S) → ℕ → Writer S
  unfolding write_char_checked
  write_hex_byte write_char value =
      write_char_checked write_char (hex_digit (bit_and (value >>> 4) 0x0f))
      &then write_char_checked write_char (hex_digit (bit_and value 0x0f))

  -- The line break after every 32 bytes and after the last.
  unfoldable pub write_line_end : Option (ℕ → Writer S) → ℕ → Writer S
  unfolding write_char_checked
  write_line_end write_char i s =
      if i % 32 == 31 || i + 1 == Format.wire_total_size
      then (write_char_checked write_char 13 &then write_char_checked write_char 10) s
      else (true, s)

  -- The loop of `panicdump_export_hex` at the index `i`, with `left` rounds left.
  unfoldable pub write_bytes : Option (ℕ → Writer S) → List ℕ → ℕ → ℕ → Writer S
  unfolding write_hex_byte write_line_end
  write_bytes write_char wire i zero s = (true, s)
  write_bytes write_char wire i (suc left) s =
      (write_hex_byte write_char (byte_at wire i)
          &then (write_line_end write_char i &then write_bytes write_char wire (i + 1) left))
        s

  unfoldable pub write_dump : Option (ℕ → Writer S) → List ℕ → Writer S
  unfolding write_str write_bytes
  write_dump write_char wire =
      write_str write_char begin_marker
      &then (write_bytes write_char wire 0 Format.wire_total_size
          &then write_str write_char end_marker)

  unfoldable pub export_hex : Option (ℕ → Writer S) → Slot → S → ExportStatus × S
  unfolding write_dump
  export_hex none slot s = (null_callback, s)
  export_hex (some write_char) slot s =
      if has_valid slot
      then (let (done, s') = write_dump (some write_char) slot.dump_wire s in
          (if done then ok else short_write, s'))
      else (no_dump, s)

  -- The status, the slot and the callback's state afterwards.
  unfoldable pub boot_check_and_export : Option (ℕ → Writer S) → Slot → S → ExportStatus × Slot × S
  unfolding export_hex clear
  boot_check_and_export write_char slot s =
      let (status, s') = export_hex write_char slot s in (status, clear_on status slot, s')
