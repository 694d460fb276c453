-- ===== src/Codec/Corrupt.antt =====
-- A valid image in which one byte has changed is no longer valid.
use panicdump.Base.{
  ℕ, ◌+◌, ◌≤◌, ◌<◌, ◌≡◌, ◌≢◌, ◌⊎◌, inl, inr, ◌^◌, sym, ap, ◌∙◌, arith, List, [], ◌∷◌, true, false,
  some, length, Bool-cases, bit_xor, dec_lt,
}
use panicdump.Bits.Xor.{xor_inj}
use panicdump.Wire.{byte_at, load_u32}
use panicdump.Wire.Word.{byte_at-word}
use panicdump.Crc.{crc32_update}
use panicdump.Crc.Reach.{crc32_update_ext}
use panicdump.Crc.Inject.{crc32_update-lt, crc32_update_inj, crc32_update-ne}
use panicdump.Dump.{IsBytes}
use panicdump.Fields.{crc32_magic_prefix, crc32_with_zero_crc}
use panicdump.Fields.Checksum.{checksum-crc32, prefix-lt}
use panicdump.Codec.{validate_wire}
use panicdump.Codec.Valid.{IsValidImage, validate_wire_iff}

abbrev pub four_zeros : List ℕ
four_zeros = 0 ∷ 0 ∷ 0 ∷ 0 ∷ []

-- The register when the checksum's field is reached, and behind it.
abbrev pub at_field : List ℕ → ℕ
at_field x = crc32_update crc32_magic_prefix x 4 28

abbrev pub past_field : List ℕ → ℕ
past_field x = crc32_update (at_field x) four_zeros 0 4

pub at_field-lt : (x : List ℕ) → IsBytes x → at_field x < 2 ^ 32
at_field-lt x bx = crc32_update-lt crc32_magic_prefix x 4 28 prefix-lt bx

pub past_field-lt : (x : List ℕ) → IsBytes x → past_field x < 2 ^ 32
past_field-lt x bx = crc32_update-lt (at_field x) four_zeros 0 4 (at_field-lt x bx) (omega arith)

-- Arrays that agree everywhere but at `k`.
module _ (v w : List ℕ) (k : ℕ) (bv : IsBytes v) (bw : IsBytes w)
    (same : (i : ℕ) → i ≢ k → byte_at v i ≡ byte_at w i) where
  -- A word that does not hold the byte is the same in both.
  same_word : (i : ℕ) → (k < i) ⊎ (i + 4 ≤ k) → load_u32 v i ≡ load_u32 w i
  unfolding load_u32
  same_word i h = rw (
    same i (omega arith),
    same (i + 1) (omega arith),
    same (i + 2) (omega arith),
    same (i + 3) (omega arith),
  )

  header_tells :
      4 ≤ k
      → k < 32
      → byte_at v k ≢ byte_at w k
      → crc32_update (past_field v) v 36 156 ≢ crc32_update (past_field w) w 36 156
  header_tells lo hi differs = λ e.
      let rest = crc32_update_ext (past_field v) v w 36 156 (λ i p q. same i (omega arith)) in
      let lv = past_field-lt v bv in
      let lw = past_field-lt w bw in
      let past = crc32_update_inj (past_field v) (past_field w) w 36 156 lv lw bw (sym rest ∙ e) in
      let fv = at_field-lt v bv in
      let fw = at_field-lt w bw in
      let here =
        crc32_update_inj (at_field v) (at_field w) four_zeros 0 4 fv fw (omega arith) past in
      crc32_update-ne crc32_magic_prefix v w 4 28 k prefix-lt bv bw lo hi same differs here

  payload_tells :
      36 ≤ k
      → k < 192
      → byte_at v k ≢ byte_at w k
      → crc32_update (past_field v) v 36 156 ≢ crc32_update (past_field w) w 36 156
  payload_tells lo hi differs = λ e.
      let fields = crc32_update_ext crc32_magic_prefix v w 4 28 (λ i p q. same i (omega arith)) in
      let past : past_field v ≡ past_field w = ap (λ c. crc32_update c four_zeros 0 4) fields in
      crc32_update-ne (past_field v) v w 36 156 k (past_field-lt v bv) bv bw lo hi same differs
        (e ∙ ap (λ c. crc32_update c w 36 156) (sym past))

  -- Outside the checksum's field and past the magic the byte changes the checksum.
  checksum_tells :
      4 ≤ k
      → k < 192
      → (k < 32) ⊎ (36 ≤ k)
      → byte_at v k ≢ byte_at w k
      → crc32_with_zero_crc v ≢ crc32_with_zero_crc w
  unfolding crc32_with_zero_crc
  checksum_tells lo hi (inl below) differs =
      λ e. header_tells lo below differs (xor_inj _ _ 0xFFFFFFFF e)
  checksum_tells lo hi (inr above) differs =
      λ e. payload_tells above hi differs (xor_inj _ _ 0xFFFFFFFF e)

  -- Inside it, the byte does not.
  checksum_same : 32 ≤ k → k < 36 → crc32_with_zero_crc v ≡ crc32_with_zero_crc w
  unfolding crc32_with_zero_crc
  checksum_same lo hi =
      let fields = crc32_update_ext crc32_magic_prefix v w 4 28 (λ i p q. same i (omega arith)) in
      let rest = crc32_update_ext (past_field w) v w 36 156 (λ i p q. same i (omega arith)) in
      ap (λ c. bit_xor (crc32_update (crc32_update c four_zeros 0 4) v 36 156) 0xFFFFFFFF) fields
      ∙ ap (λ c. bit_xor c 0xFFFFFFFF) rest

  both_valid :
      length v ≡ 192
      → length w ≡ 192
      → k < 192
      → byte_at v k ≢ byte_at w k
      → IsValidImage v
      → ¬ IsValidImage w
  both_valid ev ew hi differs pv pw =
      let cv = pv.crc32 ∙ sym (checksum-crc32 v ev) in
      let cw = pw.crc32 ∙ sym (checksum-crc32 w ew) in
      elim (dec_lt k 4) [
        | yes magic ↦
            differs
              (byte_at-word v w 0 k bv bw (omega arith) (omega arith) (pv.magic ∙ sym pw.magic))
        | no past ↦ elim (dec_lt k 32) [
          | yes header ↦
              checksum_tells (omega arith) hi (inl header) differs
                (sym cv ∙ same_word 32 (inl header) ∙ cw)
          | no field ↦ elim (dec_lt k 36) [
            | yes inside ↦ differs (
                byte_at-word v w 32 k bv bw (omega arith) inside
                  (cv ∙ checksum_same (omega arith) inside ∙ sym cw))
            | no above ↦
                checksum_tells (omega arith) hi (inr (omega arith)) differs
                  (sym cv ∙ same_word 32 (inr (omega arith)) ∙ cw)
          ]
        ]
      ]

-- Of a valid image of 192 bytes no single byte can change, wherever it stands, without the image
-- being refused.
pub corrupted_byte :
    (v w : List ℕ) (k : ℕ)
    → length v ≡ 192
    → length w ≡ 192
    → IsBytes v
    → IsBytes w
    → k < 192
    → ((i : ℕ) → i ≢ k → byte_at v i ≡ byte_at w i)
    → byte_at v k ≢ byte_at w k
    → validate_wire (some v) 192 ≡ true
    → validate_wire (some w) 192 ≡ false
corrupted_byte v w k ev ew bv bw hi same differs valid =
    elim (Bool-cases (validate_wire (some w) 192)) [
      | inl also ↦
          let pv = ((validate_wire_iff v 192 ev bv).0 valid).1 in
          let pw = ((validate_wire_iff w 192 ew bw).0 also).1 in
          absurd (both_valid v w k bv bw same ev ew hi differs pv pw)
      | inr refused ↦ refused
    ]
