-- ===== src/Fields/Canonical.antt =====
-- Re-encoding what was decoded: the image of the dump that an array holds is the array.
use panicdump.Base.{
  ℕ, ◌+◌, ◌≤◌, ◌≡◌, if◌then◌else◌, ◌⊎◌, inl, inr, sym, ap, ◌∙◌, arith, List, [], ◌∷◌, ◌++◌,
  tabulate, replicate, length, tabulate-get_or, ltb, u8, bit_and, ◌>>>◌,
}
use panicdump.Wire.{byte_at, load_u16, load_u32, copy_bytes}
use panicdump.Wire.Word.{le_u16, le_u32, low_byte, load_u16-sum, load_u32-sum, byte_at-lt}
use panicdump.Dump.{IsBytes, zero_stack}
use panicdump.Fields.{decode_dump_fields, read_regs, read_stack, reg_values}
use panicdump.Fields.Image.{image, header_image, words_image, slice_image}

-- The bytes of a loaded word are those that it was loaded from.
le_u32-load :
    (w : List ℕ) (i : ℕ)
    → IsBytes w
    → le_u32 (load_u32 w i)
      ≡ byte_at w i ∷ byte_at w (i + 1) ∷ byte_at w (i + 2) ∷ byte_at w (i + 3) ∷ []
le_u32-load w i h =
    let b0 = byte_at-lt w i h in
    let b1 = byte_at-lt w (i + 1) h in
    let b2 = byte_at-lt w (i + 2) h in
    let b3 = byte_at-lt w (i + 3) h in
    let v = load_u32 w i in
    let sum = load_u32-sum w i b0 b1 b2 b3 in
    let e0 : u8 (bit_and v 0xff) ≡ byte_at w i = omega (arith, low_byte v, sum) in
    let e1 : u8 (bit_and (v >>> 8) 0xff) ≡ byte_at w (i + 1) =
      omega (arith, low_byte (v >>> 8), sum) in
    let e2 : u8 (bit_and (v >>> 16) 0xff) ≡ byte_at w (i + 2) =
      omega (arith, low_byte (v >>> 16), sum) in
    let e3 : u8 (bit_and (v >>> 24) 0xff) ≡ byte_at w (i + 3) =
      omega (arith, low_byte (v >>> 24), sum) in
    λ j. e0 j ∷ e1 j ∷ e2 j ∷ e3 j ∷ []

le_u16-load :
    (w : List ℕ) (i : ℕ) → IsBytes w → le_u16 (load_u16 w i) ≡ byte_at w i ∷ byte_at w (i + 1) ∷ []
le_u16-load w i h =
    let b0 = byte_at-lt w i h in
    let b1 = byte_at-lt w (i + 1) h in
    let v = load_u16 w i in
    let sum = load_u16-sum w i b0 b1 in
    let e0 : u8 (bit_and v 0xff) ≡ byte_at w i = omega (arith, low_byte v, sum) in
    let e1 : u8 (bit_and (v >>> 8) 0xff) ≡ byte_at w (i + 1) =
      omega (arith, low_byte (v >>> 8), sum) in
    λ j. e0 j ∷ e1 j ∷ []

-- The entries `n` from the index `i` on.
abbrev window : List ℕ → ℕ → ℕ → List ℕ
window w i n = tabulate n i (byte_at w)

header_bytes : (w : List ℕ) → IsBytes w → header_image (decode_dump_fields w) ≡ window w 0 36
unfolding decode_dump_fields
header_bytes w h = λ j.
    le_u32-load w 0 h j
    ++ (le_u16-load w 4 h j
        ++ (le_u16-load w 6 h j
            ++ (le_u32-load w 8 h j
                ++ (le_u32-load w 12 h j
                    ++ (le_u32-load w 16 h j
                        ++ (le_u32-load w 20 h j
                            ++ (le_u32-load w 24 h j
                                ++ (le_u32-load w 28 h j ++ le_u32-load w 32 h j))))))))

regs_bytes : (w : List ℕ) → IsBytes w → words_image (reg_values (read_regs w)) ≡ window w 36 84
unfolding read_regs
regs_bytes w h = λ j.
    le_u32-load w 36 h j
    ++ (le_u32-load w 40 h j
        ++ (le_u32-load w 44 h j
            ++ (le_u32-load w 48 h j
                ++ (le_u32-load w 52 h j
                    ++ (le_u32-load w 56 h j
                        ++ (le_u32-load w 60 h j
                            ++ (le_u32-load w 64 h j
                                ++ (le_u32-load w 68 h j
                                    ++ (le_u32-load w 72 h j
                                        ++ (le_u32-load w 76 h j
                                            ++ (le_u32-load w 80 h j
                                                ++ (le_u32-load w 84 h j
                                                    ++ (le_u32-load w 88 h j
                                                        ++ (le_u32-load w 92 h j
                                                            ++ (le_u32-load w 96 h j
                                                            ++ (le_u32-load w 100 h j
                                                            ++ (le_u32-load w 104 h j
                                                            ++ (le_u32-load w 108 h j
                                                            ++ (le_u32-load w 112 h j
                                                            ++ (le_u32-load w 116 h j
                                                            ++ []))))))))))))))))))))

-- The slice is in use, or its bytes are zero.
abbrev pub IsCanonical : List ℕ → Type 0
IsCanonical w =
    (load_u32 w 124 ≡ 64) ⊎ ((load_u32 w 124 ≡ 0) × (tabulate 64 128 (byte_at w) ≡ replicate 64 0))

-- The length field is read as it stands, if it is at most 64.
kept_bytes : (n : ℕ) → n ≤ 64 → (if ltb 64 n then 0 else n) ≡ n
kept_bytes n h = ground arith

stack_head_bytes :
    (w : List ℕ)
    → IsBytes w
    → load_u32 w 124 ≤ 64
    → let s = read_stack zero_stack w in
      le_u32 s.captured_sp ++ le_u32 s.stack_bytes ≡ window w 120 8
unfolding read_stack
stack_head_bytes w h small =
    ap (λ n. le_u32 (load_u32 w 120) ++ le_u32 n) (kept_bytes (load_u32 w 124) small)
    ∙ (λ j. le_u32-load w 120 h j ++ le_u32-load w 124 h j)

slice_bytes : (w : List ℕ) → IsCanonical w → slice_image (read_stack zero_stack w) ≡ window w 128 64
unfolding read_stack copy_bytes
slice_bytes w (inl used) =
    ap
      (λ n. slice_image (record {
        captured_sp = load_u32 w 120;
        stack_bytes = if ltb 64 n then 0 else n;
        slice = window w 128 64;
      }))
      used
slice_bytes w (inr (empty, zeros)) =
    ap
      (λ n. slice_image (record {
        captured_sp = load_u32 w 120;
        stack_bytes = if ltb 64 n then 0 else n;
        slice = window w 128 64;
      }))
      empty
    ∙ sym zeros

-- The image of the dump that an array holds is the array, if an empty slice is zero there.
pub image-decode :
    (w : List ℕ) → length w ≡ 192 → IsBytes w → IsCanonical w → image (decode_dump_fields w) ≡ w
unfolding image decode_dump_fields
image-decode w e h canonical =
    let header = header_bytes w h in
    let regs = regs_bytes w h in
    let head = stack_head_bytes w h (omega (arith, canonical)) in
    let slice = slice_bytes w canonical in
    (λ j. (header j ++ (regs j ++ head j)) ++ slice j) ∙ tabulate-get_or 192 w 0 e
