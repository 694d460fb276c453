-- ===== src/Codec/Burst.antt =====
-- A valid image in which bytes side by side have changed is no longer valid.
use panicdump.Base.{
  ℕ, ◌+◌, ◌≤◌, ◌<◌, ◌≡◌, ◌≢◌, ◌⊎◌, inl, inr, sym, ap, ◌∙◌, arith, List, true, false, some, length,
  Bool-cases,
}
use panicdump.Bits.Xor.{xor_inj}
use panicdump.Wire.{byte_at, load_u32}
use panicdump.Crc.{crc32_update}
use panicdump.Crc.Reach.{crc32_update_ext}
use panicdump.Crc.Inject.{crc32_update_inj}
use panicdump.Crc.Word.{crc32_update-burst}
use panicdump.Dump.{IsBytes}
use panicdump.Fields.{crc32_magic_prefix, crc32_with_zero_crc}
use panicdump.Fields.Checksum.{checksum-crc32, prefix-lt}
use panicdump.Codec.{validate_wire}
use panicdump.Codec.Valid.{IsValidImage, validate_wire_iff}
use panicdump.Codec.Corrupt.{four_zeros, at_field, past_field, at_field-lt, past_field-lt}

-- Arrays that agree everywhere but in the four bytes from `k` on, and differ at `j`.
module _ (v w : List ℕ) (k j : ℕ) (bv : IsBytes v) (bw : IsBytes w)
    (same : (i : ℕ) → (i < k) ⊎ (k + 4 ≤ i) → byte_at v i ≡ byte_at w i) (from : k ≤ j)
    (to : j < k + 4) (differs : byte_at v j ≢ byte_at w j) where
  same_field : (k + 4 ≤ 32) ⊎ (36 ≤ k) → load_u32 v 32 ≡ load_u32 w 32
  unfolding load_u32
  same_field h =
      rw
        (same 32 (omega arith), same 33 (omega arith), same 34 (omega arith), same 35 (omega arith))

  header_burst :
      4 ≤ k
      → k + 4 ≤ 32
      → crc32_update (past_field v) v 36 156 ≢ crc32_update (past_field w) w 36 156
  header_burst lo hi = λ e.
      let rest = crc32_update_ext (past_field v) v w 36 156 (λ i p q. same i (omega arith)) in
      let lv = past_field-lt v bv in
      let lw = past_field-lt w bw in
      let past = crc32_update_inj (past_field v) (past_field w) w 36 156 lv lw bw (sym rest ∙ e) in
      let fv = at_field-lt v bv in
      let fw = at_field-lt w bw in
      let here =
        crc32_update_inj (at_field v) (at_field w) four_zeros 0 4 fv fw (omega arith) past in
      crc32_update-burst crc32_magic_prefix v w 4 28 k j prefix-lt bv bw lo (omega arith) same from
        to differs here

  payload_burst :
      36 ≤ k
      → k + 4 ≤ 192
      → crc32_update (past_field v) v 36 156 ≢ crc32_update (past_field w) w 36 156
  payload_burst lo hi = λ e.
      let fields = crc32_update_ext crc32_magic_prefix v w 4 28 (λ i p q. same i (omega arith)) in
      let past : past_field v ≡ past_field w = ap (λ c. crc32_update c four_zeros 0 4) fields in
      crc32_update-burst (past_field v) v w 36 156 k j (past_field-lt v bv) bv bw lo (omega arith)
        same from to differs (e ∙ ap (λ c. crc32_update c w 36 156) (sym past))

  checksum_burst :
      4 ≤ k → k + 4 ≤ 192 → (k + 4 ≤ 32) ⊎ (36 ≤ k) → crc32_with_zero_crc v ≢ crc32_with_zero_crc w
  unfolding crc32_with_zero_crc
  checksum_burst lo hi (inl below) = λ e. header_burst lo below (xor_inj _ _ 0xFFFFFFFF e)
  checksum_burst lo hi (inr above) = λ e. payload_burst above hi (xor_inj _ _ 0xFFFFFFFF e)

  both_valid :
      length v ≡ 192
      → length w ≡ 192
      → 4 ≤ k
      → k + 4 ≤ 192
      → (k + 4 ≤ 32) ⊎ (36 ≤ k)
      → IsValidImage v
      → ¬ IsValidImage w
  both_valid ev ew lo hi outside pv pw =
      let cv = pv.crc32 ∙ sym (checksum-crc32 v ev) in
      let cw = pw.crc32 ∙ sym (checksum-crc32 w ew) in
      checksum_burst lo hi outside (sym cv ∙ same_field outside ∙ cw)

-- Of a valid image of 192 bytes no four bytes side by side, past the magic and outside the
-- checksum's field, can be changed in any way without the image being refused.
pub corrupted_burst :
    (v w : List ℕ) (k j : ℕ)
    → length v ≡ 192
    → length w ≡ 192
    → IsBytes v
    → IsBytes w
    → 4 ≤ k
    → k + 4 ≤ 192
    → (k + 4 ≤ 32) ⊎ (36 ≤ k)
    → ((i : ℕ) → (i < k) ⊎ (k + 4 ≤ i) → byte_at v i ≡ byte_at w i)
    → k ≤ j
    → j < k + 4
    → byte_at v j ≢ byte_at w j
    → validate_wire (some v) 192 ≡ true
    → validate_wire (some w) 192 ≡ false
corrupted_burst v w k j ev ew bv bw lo hi outside same from to differs valid =
    elim (Bool-cases (validate_wire (some w) 192)) [
      | inl also ↦
          let pv = ((validate_wire_iff v 192 ev bv).0 valid).1 in
          let pw = ((validate_wire_iff w 192 ew bw).0 also).1 in
          absurd (both_valid v w k j bv bw same from to differs ev ew lo hi outside pv pw)
      | inr refused ↦ refused
    ]
