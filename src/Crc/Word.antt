-- ===== src/Crc/Word.antt =====
-- Four bytes at once: 32 rounds on the register mixed with their word.
use native.Mathlib.Nat.{pow-suc}
use panicdump.Base.{
  ℕ, ◌-◌, ◌≢◌, ◌⊎◌, inl, inr, zero, suc, ◌+◌, ◌*◌, ◌/◌, ◌%◌, ◌^◌, ◌≤◌, ◌<◌, ◌≡◌, sym, ap, ap₂, ◌∙◌,
  arith, bit_xor, ℕ_discrete, List,
}
use panicdump.Bits.Xor.{
  xor-right_comm, xor-half, xor-parity, xor-sum, xor_zero, xor_assoc, xor_inj_right, xor-lt,
}
use panicdump.Wire.{byte_at}
use panicdump.Wire.Word.{byte_at-lt}
use panicdump.Dump.{IsBytes}
use panicdump.Crc.{crc_bit, crc_bits, crc_byte, crc32_update, polynomial}
use panicdump.Crc.Inject.{
  crc_bit-even, crc_bit-odd, crc_bits_inj, crc32_update-lt, crc32_update_inj,
}
use panicdump.Crc.Reach.{crc32_update_ext, crc32_update-add}

-- What stands above the lowest bit passes through a round unchanged, one place down.
crc_bit-xor : (c d : ℕ) → crc_bit (bit_xor c (d * 2)) ≡ bit_xor (crc_bit c) d
crc_bit-xor c d = elim (ℕ_discrete (c % 2) 0) [
  | yes even ↦
      crc_bit-even (bit_xor c (d * 2)) (omega (arith, xor-parity c d))
      ∙ xor-half c d
      ∙ ap (λ t. bit_xor t d) (sym (crc_bit-even c even))
  | no odd ↦
      crc_bit-odd (bit_xor c (d * 2)) (omega (arith, xor-parity c d))
      ∙ ap (λ t. bit_xor t polynomial) (xor-half c d)
      ∙ xor-right_comm (c / 2) d polynomial
      ∙ ap (λ t. bit_xor t d) (sym (crc_bit-odd c (omega arith)))
]

crc_bits-xor : (n c d : ℕ) → crc_bits n (bit_xor c (d * 2 ^ n)) ≡ bit_xor (crc_bits n c) d
unfolding crc_bits
crc_bits-xor zero c d = ap (bit_xor c) (omega arith)
crc_bits-xor (suc n) c d =
    let p : d * 2 ^ suc n ≡ (d * 2 ^ n) * 2 = omega (arith, ap (λ (t : ℕ). d * t) (pow-suc 2 n)) in
    ap (λ t. crc_bits n (crc_bit (bit_xor c t))) p
    ∙ ap (crc_bits n) (crc_bit-xor c (d * 2 ^ n))
    ∙ crc_bits-xor n (crc_bit c) d

crc_bits_add : (m n c : ℕ) → crc_bits (m + n) c ≡ crc_bits n (crc_bits m c)
unfolding crc_bits
crc_bits_add zero n c = let e : 0 + n ≡ n = omega arith in ap (λ k. crc_bits k c) e
crc_bits_add (suc m) n c =
    let e : suc m + n ≡ suc (m + n) = omega arith in
    ap (λ k. crc_bits k c) e ∙ crc_bits_add m n (crc_bit c)

-- The lowest byte of a word.
crc_byte-word :
    (n c b r : ℕ)
    → b < 2 ^ 8
    → crc_bits (8 + n) (bit_xor c (b + r * 2 ^ 8)) ≡ crc_bits n (bit_xor (crc_byte c b) r)
unfolding crc_byte
crc_byte-word n c b r h =
    crc_bits_add 8 n (bit_xor c (b + r * 2 ^ 8))
    ∙ ap (λ t. crc_bits n (crc_bits 8 (bit_xor c t))) (sym (xor-sum 8 b r h))
    ∙ ap (λ t. crc_bits n (crc_bits 8 t)) (sym (xor_assoc c b (r * 2 ^ 8)))
    ∙ ap (crc_bits n) (crc_bits-xor 8 (bit_xor c b) r)

abbrev word_of : ℕ → ℕ → ℕ → ℕ → ℕ
word_of b0 b1 b2 b3 = b0 + (b1 + (b2 + (b3 + 0 * 2 ^ 8) * 2 ^ 8) * 2 ^ 8) * 2 ^ 8

abbrev four_bytes : List ℕ → ℕ → ℕ
four_bytes w off =
    word_of (byte_at w off) (byte_at w (off + 1)) (byte_at w (off + 2)) (byte_at w (off + 3))

four_bytes-lt : (w : List ℕ) (off : ℕ) → IsBytes w → four_bytes w off < 2 ^ 32
four_bytes-lt w off h = omega (
  arith,
  byte_at-lt w off h,
  byte_at-lt w (off + 1) h,
  byte_at-lt w (off + 2) h,
  byte_at-lt w (off + 3) h,
)

-- The register after four bytes.
crc32_update-word :
    (crc : ℕ) (w : List ℕ) (off : ℕ)
    → IsBytes w
    → crc32_update crc w off 4 ≡ crc_bits 32 (bit_xor crc (four_bytes w off))
unfolding crc32_update crc_bits
crc32_update-word crc w off bytes =
    let b0 = byte_at w off in
    let b1 = byte_at w (off + 1) in
    let b2 = byte_at w (off + 2) in
    let b3 = byte_at w (off + 3) in
    let c1 = crc_byte crc b0 in
    let c2 = crc_byte c1 b1 in
    let c3 = crc_byte c2 b2 in
    let third : off + 2 ≡ off + 1 + 1 = omega arith in
    let fourth : off + 3 ≡ off + 1 + 1 + 1 = omega arith in
    sym (
      crc_byte-word 24 crc b0 (b1 + (b2 + (b3 + 0 * 2 ^ 8) * 2 ^ 8) * 2 ^ 8)
        (byte_at-lt w off bytes)
      ∙ crc_byte-word 16 c1 b1 (b2 + (b3 + 0 * 2 ^ 8) * 2 ^ 8) (byte_at-lt w (off + 1) bytes)
      ∙ crc_byte-word 8 c2 b2 (b3 + 0 * 2 ^ 8) (byte_at-lt w (off + 2) bytes)
      ∙ crc_byte-word 0 c3 b3 0 (byte_at-lt w (off + 3) bytes)
      ∙ xor_zero (crc_byte c3 b3)
      ∙ ap₂ (λ i j. crc_byte (crc_byte c2 (byte_at w i)) (byte_at w j)) third fourth)

-- Equal words have equal bytes.
byte_at-four_bytes :
    (v w : List ℕ) (off j : ℕ)
    → IsBytes v
    → IsBytes w
    → four_bytes v off ≡ four_bytes w off
    → off ≤ j
    → j < off + 4
    → byte_at v j ≡ byte_at w j
byte_at-four_bytes v w off j bv bw e lo hi =
    let b = λ (x : List ℕ) (h : IsBytes x) (i : ℕ). byte_at-lt x (off + i) h in
    let same0 : byte_at v off ≡ byte_at w off =
      omega (arith, byte_at-lt v off bv, byte_at-lt w off bw) in
    let same1 : byte_at v (off + 1) ≡ byte_at w (off + 1) =
      omega (arith, same0, b v bv 1, b w bw 1) in
    let same2 : byte_at v (off + 2) ≡ byte_at w (off + 2) =
      omega (arith, same0, same1, b v bv 2, b w bw 2) in
    let same3 : byte_at v (off + 3) ≡ byte_at w (off + 3) = omega (arith, same0, same1, same2) in
    elim (ℕ_discrete j off) [
      | yes here ↦ rw (here, same0)
      | no not0 ↦ elim (ℕ_discrete j (off + 1)) [
        | yes here ↦ rw (here, same1)
        | no not1 ↦ elim (ℕ_discrete j (off + 2)) [
          | yes here ↦ rw (here, same2)
          | no not2 ↦ let here : j ≡ off + 3 = omega arith in rw (here, same3)
        ]
      ]
    ]

-- The four bytes can be told from the register.
crc32_update-word_inj :
    (crc : ℕ) (v w : List ℕ) (off : ℕ)
    → crc < 2 ^ 32
    → IsBytes v
    → IsBytes w
    → crc32_update crc v off 4 ≡ crc32_update crc w off 4
    → four_bytes v off ≡ four_bytes w off
crc32_update-word_inj crc v w off h bv bw e =
    let a = four_bytes v off in
    let b = four_bytes w off in
    let la = four_bytes-lt v off bv in
    let lb = four_bytes-lt w off bw in
    let mixed = sym (crc32_update-word crc v off bv) ∙ e ∙ crc32_update-word crc w off bw in
    xor_inj_right a b crc (
      crc_bits_inj 32 (bit_xor crc a) (bit_xor crc b) (xor-lt 32 crc a h la) (xor-lt 32 crc b h lb)
        mixed)

-- From the same state below 2 ^ 32, two ranges that differ within four bytes side by side, and
-- nowhere else, have different checksums.
pub crc32_update-burst :
    (crc : ℕ) (v w : List ℕ) (off len k j : ℕ)
    → crc < 2 ^ 32
    → IsBytes v
    → IsBytes w
    → off ≤ k
    → k + 4 ≤ off + len
    → ((i : ℕ) → (i < k) ⊎ (k + 4 ≤ i) → byte_at v i ≡ byte_at w i)
    → k ≤ j
    → j < k + 4
    → byte_at v j ≢ byte_at w j
    → crc32_update crc v off len ≢ crc32_update crc w off len
crc32_update-burst crc v w off len k j h bv bw lo hi same jlo jhi differs = λ e.
    let m = k - off in
    let n = len - m - 4 in
    let count : len ≡ m + (4 + n) = omega arith in
    let at : off + m ≡ k = omega arith in
    let parts = λ (x : List ℕ).
      ap (crc32_update crc x off) count
      ∙ crc32_update-add crc x off m (4 + n)
      ∙ crc32_update-add (crc32_update crc x off m) x (off + m) 4 n in
    let before = crc32_update_ext crc v w off m (λ i p q. same i (inl (omega arith))) in
    let start = crc32_update crc v off m in
    let start' = crc32_update crc w off m in
    let a = crc32_update start v (off + m) 4 in
    let c = crc32_update start' w (off + m) 4 in
    let h' = crc32_update-lt crc v off m h bv in
    let ha = crc32_update-lt start v (off + m) 4 h' bv in
    let hc = crc32_update-lt start' w (off + m) 4 (crc32_update-lt crc w off m h bw) bw in
    let tail = crc32_update_ext a v w (off + m + 4) n (λ i p q. same i (inr (omega arith))) in
    let after : a ≡ c =
      crc32_update_inj a c w (off + m + 4) n ha hc bw (sym tail ∙ sym (parts v) ∙ e ∙ parts w) in
    let word =
      crc32_update-word_inj start v w (off + m) h' bv bw
        (after ∙ ap (λ s. crc32_update s w (off + m) 4) (sym before)) in
    differs (byte_at-four_bytes v w (off + m) j bv bw word (omega arith) (omega arith))
