-- ===== src/Fields/Checksum.antt =====
-- What `panicdump_wire_crc32_with_zero_crc` computes: the CRC-32 of the whole image with the magic
-- in place and the checksum's field zero.
use panicdump.Base.{
  ℕ, ◌^◌, ◌<◌, ◌≡◌, refl, sym, ap, ◌∙◌, arith, List, [], ◌∷◌, length, get_or, tabulate,
  tabulate-get_or,
}
use panicdump.Bits.Xor.{xor-lt}
use panicdump.Wire.{store_u32}
use panicdump.Wire.Word.{le_u32}
use panicdump.Crc.{crc32, crc32_update}
use panicdump.Crc.Inject.{crc32_update-lt}
use panicdump.Dump.{Dump, IsBytes}
use panicdump.Format
use panicdump.Fields.{crc32_magic_prefix, crc32_with_zero_crc}
use panicdump.Fields.Image.{image}

-- The image that the checksum stands for.
abbrev pub sealed : List ℕ → List ℕ
sealed wire = store_u32 (store_u32 wire 0 Format.magic) 32 0

checksum-crc32_cells :
    (w : ℕ → ℕ) → crc32_with_zero_crc (tabulate 192 0 w) ≡ crc32 (sealed (tabulate 192 0 w)) 192
unfolding crc32_with_zero_crc crc32_magic_prefix crc32 crc32_update store_u32
checksum-crc32_cells w = refl

-- `panicdump_wire_crc32_with_zero_crc` is the plain checksum of the 192 bytes with the magic in place
-- and the field of the checksum zero.
pub checksum-crc32 :
    (wire : List ℕ) → length wire ≡ 192 → crc32_with_zero_crc wire ≡ crc32 (sealed wire) 192
checksum-crc32 wire e =
    let cells = tabulate-get_or 192 wire 0 e in
    ap crc32_with_zero_crc (sym cells)
    ∙ checksum-crc32_cells (λ i. get_or wire i 0)
    ∙ ap (λ w. crc32 (sealed w) 192) cells

-- It depends neither on the magic of the image nor on the checksum stored in it.
pub checksum-image :
    (dump : Dump) (m c : ℕ)
    → crc32_with_zero_crc (image (record dump { magic = m; crc32 = c }))
      ≡ crc32_with_zero_crc (image dump)
unfolding crc32_with_zero_crc crc32_update image
checksum-image dump m c = refl

pub prefix-lt : crc32_magic_prefix < 2 ^ 32
unfolding crc32_magic_prefix
prefix-lt = crc32_update-lt 0xFFFFFFFF (le_u32 Format.magic) 0 4 (omega arith) (omega arith)

-- The checksum of an image is a word.
pub checksum-lt : (wire : List ℕ) → IsBytes wire → crc32_with_zero_crc wire < 2 ^ 32
unfolding crc32_with_zero_crc
checksum-lt wire bytes =
    let header = crc32_update-lt crc32_magic_prefix wire 4 28 prefix-lt bytes in
    let middle =
      crc32_update-lt (crc32_update crc32_magic_prefix wire 4 28) (0 ∷ 0 ∷ 0 ∷ 0 ∷ []) 0 4 header
        (omega arith) in
    xor-lt 32 _ 0xFFFFFFFF (crc32_update-lt _ wire 36 156 middle bytes) (omega arith)
