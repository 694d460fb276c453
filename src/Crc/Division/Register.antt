-- ===== src/Crc/Division/Register.antt =====
-- The register of the code runs the division.
use native.Mathlib.Nat.{pow-suc}
use mathlib.Core.List.{append_assoc}
use panicdump.Base.{
  ℕ, zero, suc, ◌+◌, ◌*◌, ◌/◌, ◌^◌, ◌<◌, ◌≡◌, refl, sym, ap, ap₂, ◌∙◌, arith, List, [], ◌∷◌, ◌++◌,
  Bool, true, false, if◌then◌else◌, length, length-append, replicate, bit_xor,
}
use panicdump.Bits.Xor.{xor-lt, xor-right_comm, xor_zero}
use panicdump.Wire.{byte_at}
use panicdump.Wire.Word.{byte_at-lt}
use panicdump.Dump.{IsBytes}
use panicdump.Crc.{polynomial, crc_bit, crc_bits, crc_byte, crc32_update, crc32}
use panicdump.Crc.Inject.{crc_bit-odd, crc_bit-even, crc_byte-lt}
use panicdump.Crc.Division.{
  differ, sum, generator, remainder, complement, frame_check, is_odd, bits, message_bits,
}
use panicdump.Crc.Division.Sum.{
  sum_assoc, sum-pad, sum-zeros, sum-ones, differ_comm, is_odd-xor, xor-half_both, bits-xor,
  bits-small, length-bits,
}

bits-polynomial : bits 32 polynomial ≡ generator
unfolding bits
bits-polynomial = refl

-- What a round does with the register besides what is mixed in above the lowest bit.
next : Bool → ℕ → ℕ
next odd c = if odd then bit_xor (c / 2) polynomial else c / 2

crc_bit-next : (c : ℕ) → crc_bit c ≡ next (is_odd c) c
unfolding next
crc_bit-next c = ground (arith, crc_bit-odd c, crc_bit-even c)

next-lt : (odd : Bool) (c : ℕ) → c < 2 ^ 32 → next odd c < 2 ^ 32
unfolding next
next-lt true c h = xor-lt 32 (c / 2) polynomial (omega arith) (omega arith)
next-lt false c h = omega arith

-- A round on a register into which `x` has been mixed.
round-mixed :
    (c x : ℕ) → crc_bit (bit_xor c x) ≡ bit_xor (next (differ (is_odd x) (is_odd c)) c) (x / 2)
unfolding next
round-mixed c x =
    crc_bit-next (bit_xor c x)
    ∙ ap (λ odd. next odd (bit_xor c x)) (is_odd-xor c x ∙ differ_comm (is_odd c) (is_odd x))
    ∙ mixed (differ (is_odd x) (is_odd c))
  where
    mixed : (odd : Bool) → next odd (bit_xor c x) ≡ bit_xor (next odd c) (x / 2)
    mixed true =
        ap (λ t. bit_xor t polynomial) (xor-half_both c x)
        ∙ xor-right_comm (c / 2) (x / 2) polynomial
    mixed false = xor-half_both c x

-- One coefficient is divided off.
shifted :
    (odd : Bool) (c : ℕ) (rest : List Bool)
    → c < 2 ^ 32
    → (if odd then sum (sum rest (bits 31 (c / 2))) generator else sum rest (bits 31 (c / 2)))
      ≡ sum rest (bits 32 (next odd c))
unfolding next
shifted true c rest h =
    let half : c / 2 < 2 ^ 31 = omega arith in
    let low = bits-small 31 (c / 2) half in
    let widened = sym (sum-pad rest (bits 31 (c / 2))) ∙ ap (sum rest) (sym low) in
    ap (λ l. sum l generator) widened
    ∙ sum_assoc rest (bits 32 (c / 2)) generator (omega (arith, length-bits 32 (c / 2)))
    ∙ ap (sum rest)
        (ap (sum (bits 32 (c / 2))) (sym bits-polynomial) ∙ sym (bits-xor 32 (c / 2) polynomial))
shifted false c rest h =
    let half : c / 2 < 2 ^ 31 = omega arith in
    sym (sum-pad rest (bits 31 (c / 2))) ∙ ap (sum rest) (sym (bits-small 31 (c / 2) half))

remainder-step :
    (m x c : ℕ) (rest : List Bool)
    → c < 2 ^ 32
    → remainder (suc m) (sum (is_odd x ∷ rest) (bits 32 c))
      ≡ remainder m (sum rest (bits 32 (next (differ (is_odd x) (is_odd c)) c)))
unfolding remainder sum bits
remainder-step m x c rest h = ap (remainder m) (shifted (differ (is_odd x) (is_odd c)) c rest h)

bits-zero : (x : ℕ) → bits 0 x ≡ []
unfolding bits
bits-zero x = refl

bits-suc : (n x : ℕ) → bits (suc n) x ≡ is_odd x ∷ bits n (x / 2)
unfolding bits
bits-suc n x = refl

-- `n` coefficients, those of the lowest bits of `x`.
remainder-bits :
    (n k x c : ℕ) (rest : List Bool)
    → x < 2 ^ n
    → c < 2 ^ 32
    → remainder (n + k) (sum (bits n x ++ rest) (bits 32 c))
      ≡ remainder k (sum rest (bits 32 (crc_bits n (bit_xor c x))))
unfolding crc_bits
remainder-bits zero k x c rest small h =
    let none' : x ≡ 0 = omega arith in
    let count : 0 + k ≡ k = omega arith in
    ap₂ (λ t l. remainder t (sum (l ++ rest) (bits 32 c))) count (bits-zero x)
    ∙ ap (λ t. remainder k (sum rest (bits 32 t))) (sym (ap (bit_xor c) none' ∙ xor_zero c))
remainder-bits (suc n) k x c rest small h =
    let odd = differ (is_odd x) (is_odd c) in
    let count : suc n + k ≡ suc (n + k) = omega arith in
    ap₂ (λ t l. remainder t (sum (l ++ rest) (bits 32 c))) count (bits-suc n x)
    ∙ remainder-step (n + k) x c (bits n (x / 2) ++ rest) h
    ∙ remainder-bits n k (x / 2) (next odd c) rest (omega (arith, pow-suc 2 n)) (next-lt odd c h)
    ∙ ap (λ t. remainder k (sum rest (bits 32 (crc_bits n t)))) (sym (round-mixed c x))

length-message_bits : (w : List ℕ) (off len : ℕ) → length (message_bits w off len) ≡ 8 * len
unfolding message_bits
length-message_bits w off zero = refl
length-message_bits w off (suc len) = omega (
  arith,
  length-append (bits 8 (byte_at w off)) (message_bits w (off + 1) len),
  length-bits 8 (byte_at w off),
  length-message_bits w (off + 1) len,
)

message_bits-zero : (w : List ℕ) (off : ℕ) → message_bits w off 0 ≡ []
unfolding message_bits
message_bits-zero w off = refl

message_bits-suc :
    (w : List ℕ) (off len : ℕ)
    → message_bits w off (suc len) ≡ bits 8 (byte_at w off) ++ message_bits w (off + 1) len
unfolding message_bits
message_bits-suc w off len = refl

remainder-zero : (dividend : List Bool) → remainder 0 dividend ≡ dividend
unfolding remainder
remainder-zero dividend = refl

crc_byte-bits : (c b : ℕ) → crc_byte c b ≡ crc_bits 8 (bit_xor c b)
unfolding crc_byte
crc_byte-bits c b = refl

-- The dividend, with a register mixed in.
unfoldable mixed_in : List Bool → ℕ → List Bool
mixed_in message c = sum (message ++ replicate 32 false) (bits 32 c)

unread : (c : ℕ) → mixed_in [] c ≡ bits 32 c
unfolding mixed_in
unread c = sum-zeros 32 (bits 32 c) (length-bits 32 c)

read_bits :
    (n k x c : ℕ) (message : List Bool)
    → x < 2 ^ n
    → c < 2 ^ 32
    → remainder (n + k) (mixed_in (bits n x ++ message) c)
      ≡ remainder k (mixed_in message (crc_bits n (bit_xor c x)))
unfolding mixed_in
read_bits n k x c message small h =
    ap (λ l. remainder (n + k) (sum l (bits 32 c)))
      (append_assoc (bits n x) message (replicate 32 false))
    ∙ remainder-bits n k x c (message ++ replicate 32 false) small h

-- The bytes of a message, in order.
remainder-message :
    (w : List ℕ) (off len c : ℕ)
    → IsBytes w
    → c < 2 ^ 32
    → remainder (8 * len) (mixed_in (message_bits w off len) c) ≡ bits 32 (crc32_update c w off len)
unfolding crc32_update
remainder-message w off zero c bytes h =
    remainder-zero (mixed_in (message_bits w off 0) c)
    ∙ ap (λ l. mixed_in l c) (message_bits-zero w off)
    ∙ unread c
remainder-message w off (suc len) c bytes h =
    let b = byte_at w off in
    let rest = message_bits w (off + 1) len in
    let read = crc_byte-bits c b in
    let count : 8 * suc len ≡ 8 + 8 * len = omega arith in
    ap₂ (λ t l. remainder t (mixed_in l c)) count (message_bits-suc w off len)
    ∙ read_bits 8 (8 * len) b c rest (byte_at-lt w off bytes) h
    ∙ ap (λ t. remainder (8 * len) (mixed_in rest t)) (sym read)
    ∙ remainder-message w (off + 1) len (crc_byte c b) bytes
        (crc_byte-lt c b h (byte_at-lt w off bytes))

bits-ones : bits 32 0xFFFFFFFF ≡ replicate 32 true
unfolding bits
bits-ones = refl

inverted : (c : ℕ) → bits 32 (bit_xor c 0xFFFFFFFF) ≡ complement (bits 32 c)
inverted c =
    bits-xor 32 c 0xFFFFFFFF
    ∙ ap (sum (bits 32 c)) bits-ones
    ∙ sum-ones 32 (bits 32 c) (length-bits 32 c)

-- For every buffer of bytes and every length: the 32 bits that `crc32` returns, the lowest first, are
-- the frame check sequence that ISO 3309 and ITU-T V.42 define for these bytes, each sent with its
-- lowest bit first, namely the complement of the remainder, by the generator polynomial, of the
-- message times x^32 plus 32 ones above its first bits.
pub crc32-frame_check :
    (w : List ℕ) (len : ℕ) → IsBytes w → bits 32 (crc32 w len) ≡ frame_check (message_bits w 0 len)
unfolding crc32 frame_check mixed_in
crc32-frame_check w len bytes =
    let message = message_bits w 0 len in
    let start : ℕ = 0xFFFFFFFF in
    inverted (crc32_update start w 0 len)
    ∙ ap complement (sym (remainder-message w 0 len start bytes (omega arith)))
    ∙ ap₂ (λ t l. complement (remainder t (sum (message ++ replicate 32 false) l)))
        (sym (length-message_bits w 0 len)) bits-ones
