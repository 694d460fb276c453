-- ===== src/Fields/Image.antt =====
-- The wire image of a dump as the table of docs/FORMAT.md lays it out: the fields one after the
-- other, little-endian.
use panicdump.Base.{
  ℕ, Bool, true, false, List, [], ◌∷◌, ◌++◌, ◌!=◌, if◌then◌else◌, ◌≡◌, refl, sym, ap, ap₂, ◌∙◌,
  arith, replicate, length, Bool-cases, inl, inr, get_or, tabulate, tabulate-get_or,
}
use panicdump.Wire.Word.{le_u16, le_u32}
use panicdump.Wire.{store_u32, copy_bytes, zero_bytes}
use panicdump.Dump.{Stack, Dump, IsBytes}
use panicdump.Fields.{reg_values, write_regs, encode_header, encode_dump_fields}

abbrev pub words_image : List ℕ → List ℕ
words_image [] = []
words_image (v ∷ values) = le_u32 v ++ words_image values

-- The 64 bytes of an empty slice are zero.
abbrev pub slice_image : Stack → List ℕ
slice_image stack = if stack.stack_bytes != 0 then stack.slice else replicate 64 0

abbrev pub header_image : Dump → List ℕ
header_image dump =
    le_u32 dump.magic
    ++ (le_u16 dump.version
        ++ (le_u16 dump.header_size
            ++ (le_u32 dump.total_size
                ++ (le_u32 dump.flags
                    ++ (le_u32 dump.arch_id
                        ++ (le_u32 dump.fault_reason
                            ++ (le_u32 dump.sequence
                                ++ (le_u32 dump.user_tag ++ le_u32 dump.crc32))))))))

-- All of it but the slice.
abbrev pub fields_image : Dump → List ℕ
fields_image dump =
    header_image dump
    ++ (words_image (reg_values dump.regs)
        ++ (le_u32 dump.stack.captured_sp ++ le_u32 dump.stack.stack_bytes))

unfoldable pub image : Dump → List ℕ
image dump = fields_image dump ++ slice_image dump.stack

-- A dump with another stack record, for splitting on the field `stack_bytes`.
abbrev pub with_stack : Dump → ℕ → ℕ → List ℕ → Dump
with_stack dump sp bytes slice = record dump {
  stack = record { captured_sp = sp; stack_bytes = bytes; slice = slice };
}

-- What `panicdump_encode_dump_fields` has written when it comes to the slice.
before_slice : List ℕ → Dump → List ℕ
before_slice wire dump =
    let wire1 = store_u32 (zero_bytes wire 0 192) 0 dump.magic in
    let wire2 = write_regs (encode_header wire1 dump) dump.regs in
    store_u32 (store_u32 wire2 120 dump.stack.captured_sp) 124 dump.stack.stack_bytes

-- On arrays whose cells are written out, the stores compute, whichever way the slice goes.
slice_cells :
    (dump : Dump) (sp bytes : ℕ) (old slice : ℕ → ℕ) (copied : Bool)
    → let d = with_stack dump sp bytes (tabulate 64 0 slice) in
      let before = before_slice (tabulate 192 0 old) d in
      (if copied
        then copy_bytes before 128 (tabulate 64 0 slice) 0 64
        else zero_bytes before 128 64)
      ≡ fields_image d ++ (if copied then tabulate 64 0 slice else replicate 64 0)
unfolding before_slice encode_header write_regs copy_bytes zero_bytes
slice_cells dump sp bytes old slice true = refl
slice_cells dump sp bytes old slice false = refl

encode-image_cells :
    (dump : Dump) (sp bytes : ℕ) (old slice : ℕ → ℕ)
    → let d = with_stack dump sp bytes (tabulate 64 0 slice) in
      encode_dump_fields (tabulate 192 0 old) d ≡ image d
unfolding encode_dump_fields image before_slice
encode-image_cells dump sp bytes old slice = slice_cells dump sp bytes old slice (bytes != 0)

-- `panicdump_encode_dump_fields` overwrites the whole buffer of 192 bytes with the image of the dump,
-- if its slice has 64.
pub encode-image :
    (wire : List ℕ) (dump : Dump)
    → length wire ≡ 192
    → length dump.stack.slice ≡ 64
    → encode_dump_fields wire dump ≡ image dump
encode-image wire dump e f =
    let sp = dump.stack.captured_sp in
    let bytes = dump.stack.stack_bytes in
    let slice = dump.stack.slice in
    let wire_cells = tabulate-get_or 192 wire 0 e in
    let slice_cells = tabulate-get_or 64 slice 0 f in
    ap₂ (λ w s. encode_dump_fields w (with_stack dump sp bytes s)) (sym wire_cells)
      (sym slice_cells)
    ∙ encode-image_cells dump sp bytes (λ i. get_or wire i 0) (λ i. get_or slice i 0)
    ∙ ap (λ s. image (with_stack dump sp bytes s)) slice_cells

pub length-image : (dump : Dump) → length dump.stack.slice ≡ 64 → length (image dump) ≡ 192
unfolding image
length-image dump f = ground arith

pub IsBytes-append : (v w : List ℕ) → IsBytes v → IsBytes w → IsBytes (v ++ w)
IsBytes-append [] w p q = q
IsBytes-append (b ∷ v) w p q = (p.0, IsBytes-append v w p.1 q)

words_image-IsBytes : (values : List ℕ) → IsBytes (words_image values)
words_image-IsBytes [] = tt
words_image-IsBytes (v ∷ values) =
    IsBytes-append (le_u32 v) (words_image values) (omega arith) (words_image-IsBytes values)

slice_image-IsBytes : (s : Stack) → IsBytes s.slice → IsBytes (slice_image s)
slice_image-IsBytes s h = elim (Bool-cases (s.stack_bytes != 0)) [
  | inl some_bytes ↦ rw some_bytes h
  | inr empty ↦ rw empty (omega arith)
]

-- An image is an array of bytes.
pub image-IsBytes : (dump : Dump) → IsBytes dump.stack.slice → IsBytes (image dump)
unfolding image
image-IsBytes dump h =
    IsBytes-append (fields_image dump) (slice_image dump.stack) (omega arith)
      (slice_image-IsBytes dump.stack h)
