-- ===== src/Crc/Inject.antt =====
-- The checksum register never forgets: for fixed data it is an injective function of its start, and
-- for a fixed start one byte is told from another.
use mathlib.Core.Path.{subst}
use panicdump.Base.{
  ℕ, zero, suc, ◌+◌, ◌/◌, ◌%◌, ◌^◌, ◌≤◌, ◌<◌, ◌≡◌, ◌≢◌, ◌⊎◌, inl, inr, sym, ap, ◌∙◌, arith, bit_xor,
  List, ℕ_discrete,
}
use panicdump.Bits.Xor.{xor-lt, xor-top, xor_inj, xor_inj_right}
use panicdump.Bits.Fields.{and-mask}
use panicdump.Wire.{byte_at}
use panicdump.Wire.Word.{byte_at-lt}
use panicdump.Dump.{IsBytes}
use panicdump.Crc.Reach.{crc32_update_ext}
use panicdump.Crc.{crc_bit, crc_bits, crc_byte, crc32_update, polynomial}

-- One round, by the bit shifted out. The top bit of the polynomial records that bit.
pub crc_bit-odd : (c : ℕ) → c % 2 ≡ 1 → crc_bit c ≡ bit_xor (c / 2) polynomial
unfolding crc_bit
crc_bit-odd c h = ground (arith, and-mask 1 c)

pub crc_bit-even : (c : ℕ) → c % 2 ≡ 0 → crc_bit c ≡ c / 2
unfolding crc_bit
crc_bit-even c h = ground (arith, and-mask 1 c)

odd-top : (c : ℕ) → c < 2 ^ 32 → bit_xor (c / 2) polynomial ≡ 2 ^ 31 + bit_xor (c / 2) 0x6DB88320
odd-top c h = xor-top 31 (c / 2) 0x6DB88320 (omega arith) (omega arith)

low_bound : (c : ℕ) → c < 2 ^ 32 → bit_xor (c / 2) 0x6DB88320 < 2 ^ 31
low_bound c h = xor-lt 31 (c / 2) 0x6DB88320 (omega arith) (omega arith)

-- The two ways of a round.
crc_bit-cases :
    (c : ℕ)
    → c < 2 ^ 32
    → ((c % 2 ≡ 0) × (crc_bit c ≡ c / 2))
      ⊎ ((c % 2 ≡ 1) × (crc_bit c ≡ 2 ^ 31 + bit_xor (c / 2) 0x6DB88320))
crc_bit-cases c h = elim (ℕ_discrete (c % 2) 0) [
  | yes even ↦ inl (even, crc_bit-even c even)
  | no odd ↦ let one : c % 2 ≡ 1 = omega arith in inr (one, crc_bit-odd c one ∙ odd-top c h)
]

pub crc_bit-lt : (c : ℕ) → c < 2 ^ 32 → crc_bit c < 2 ^ 32
crc_bit-lt c h = omega (arith, crc_bit-cases c h, low_bound c h)

pub crc_bit_inj : (a b : ℕ) → a < 2 ^ 32 → b < 2 ^ 32 → crc_bit a ≡ crc_bit b → a ≡ b
crc_bit_inj a b ha hb e = ground (
  arith,
  crc_bit-cases a ha,
  crc_bit-cases b hb,
  low_bound a ha,
  low_bound b hb,
  xor_inj (a / 2) (b / 2) 0x6DB88320,
)

pub crc_bits-lt : (n c : ℕ) → c < 2 ^ 32 → crc_bits n c < 2 ^ 32
unfolding crc_bits
crc_bits-lt zero c h = h
crc_bits-lt (suc n) c h = crc_bits-lt n (crc_bit c) (crc_bit-lt c h)

pub crc_bits_inj : (n a b : ℕ) → a < 2 ^ 32 → b < 2 ^ 32 → crc_bits n a ≡ crc_bits n b → a ≡ b
unfolding crc_bits
crc_bits_inj zero a b ha hb e = e
crc_bits_inj (suc n) a b ha hb e =
    crc_bit_inj a b ha hb
      (crc_bits_inj n (crc_bit a) (crc_bit b) (crc_bit-lt a ha) (crc_bit-lt b hb) e)

mixed_bound : (c b : ℕ) → c < 2 ^ 32 → b < 256 → bit_xor c b < 2 ^ 32
mixed_bound c b hc hb = xor-lt 32 c b hc (omega arith)

pub crc_byte-lt : (c b : ℕ) → c < 2 ^ 32 → b < 256 → crc_byte c b < 2 ^ 32
unfolding crc_byte
crc_byte-lt c b hc hb = crc_bits-lt 8 (bit_xor c b) (mixed_bound c b hc hb)

-- The register after a byte tells the register before it.
pub crc_byte_inj :
    (a c b : ℕ) → a < 2 ^ 32 → c < 2 ^ 32 → b < 256 → crc_byte a b ≡ crc_byte c b → a ≡ c
unfolding crc_byte
crc_byte_inj a c b ha hc hb e =
    xor_inj a c b
      (crc_bits_inj 8 (bit_xor a b) (bit_xor c b) (mixed_bound a b ha hb) (mixed_bound c b hc hb) e)

-- The register after a byte tells the byte.
pub crc_byte_inj_byte :
    (c a b : ℕ) → c < 2 ^ 32 → a < 256 → b < 256 → crc_byte c a ≡ crc_byte c b → a ≡ b
unfolding crc_byte
crc_byte_inj_byte c a b hc ha hb e =
    xor_inj_right a b c
      (crc_bits_inj 8 (bit_xor c a) (bit_xor c b) (mixed_bound c a hc ha) (mixed_bound c b hc hb) e)

pub crc32_update-lt :
    (crc : ℕ) (w : List ℕ) (off len : ℕ)
    → crc < 2 ^ 32
    → IsBytes w
    → crc32_update crc w off len < 2 ^ 32
unfolding crc32_update
crc32_update-lt crc w off zero h bytes = h
crc32_update-lt crc w off (suc len) h bytes =
    crc32_update-lt (crc_byte crc (byte_at w off)) w (off + 1) len
      (crc_byte-lt crc (byte_at w off) h (byte_at-lt w off bytes)) bytes

-- For fixed data the checksum is an injective function of the start.
pub crc32_update_inj :
    (a c : ℕ) (w : List ℕ) (off len : ℕ)
    → a < 2 ^ 32
    → c < 2 ^ 32
    → IsBytes w
    → crc32_update a w off len ≡ crc32_update c w off len
    → a ≡ c
unfolding crc32_update
crc32_update_inj a c w off zero ha hc bytes e = e
crc32_update_inj a c w off (suc len) ha hc bytes e =
    let b = byte_at w off in
    let hb = byte_at-lt w off bytes in
    crc_byte_inj a c b ha hc hb (
      crc32_update_inj (crc_byte a b) (crc_byte c b) w (off + 1) len (crc_byte-lt a b ha hb)
        (crc_byte-lt c b hc hb) bytes e)

-- From the same state below 2 ^ 32, two ranges that differ in one byte have different checksums.
pub crc32_update-ne :
    (crc : ℕ) (v w : List ℕ) (off len k : ℕ)
    → crc < 2 ^ 32
    → IsBytes v
    → IsBytes w
    → off ≤ k
    → k < off + len
    → ((i : ℕ) → i ≢ k → byte_at v i ≡ byte_at w i)
    → byte_at v k ≢ byte_at w k
    → crc32_update crc v off len ≢ crc32_update crc w off len
unfolding crc32_update
crc32_update-ne crc v w off zero k h bv bw lo hi same differs = absurd (omega arith)
crc32_update-ne crc v w off (suc len) k h bv bw lo hi same differs = λ e.
    let a = crc_byte crc (byte_at v off) in
    let c = crc_byte crc (byte_at w off) in
    let ha = crc_byte-lt crc (byte_at v off) h (byte_at-lt v off bv) in
    let hc = crc_byte-lt crc (byte_at w off) h (byte_at-lt w off bw) in
    elim (ℕ_discrete off k) [
      | yes here ↦
          let rest : crc32_update a v (off + 1) len ≡ crc32_update a w (off + 1) len =
            crc32_update_ext a v w (off + 1) len (λ i p q. same i (omega arith)) in
          let starts : a ≡ c = crc32_update_inj a c w (off + 1) len ha hc bw (sym rest ∙ e) in
          differs (
            subst (λ j. byte_at v j ≡ byte_at w j) here
              (crc_byte_inj_byte crc (byte_at v off) (byte_at w off) h (byte_at-lt v off bv)
                (byte_at-lt w off bw) starts))
      | no later ↦
          let starts : a ≡ c = ap (crc_byte crc) (same off later) in
          crc32_update-ne a v w (off + 1) len k ha bv bw (omega arith) (omega arith) same differs
            (e ∙ ap (λ x. crc32_update x w (off + 1) len) (sym starts))
    ]
