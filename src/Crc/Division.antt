-- ===== src/Crc/Division.antt =====
-- Division of polynomials over the two-element field, and the checksum that ISO 3309 and ITU-T V.42
-- define by it. A polynomial is the list of its coefficients, the highest first.
pub mod Sum
pub mod Register
use panicdump.Base.{
  ℕ, zero, suc, ◌+◌, ◌-◌, ◌/◌, ◌%◌, List, [], ◌∷◌, ◌++◌, Bool, true, false, not, ◌==◌, ◌||◌,
  if◌then◌else◌, length, replicate, tabulate,
}
use panicdump.Wire.{byte_at}

abbrev pub differ : Bool → Bool → Bool
differ true b = not b
differ false b = b

-- The sum, with the highest coefficients one above the other.
unfoldable pub sum : List Bool → List Bool → List Bool
sum [] ys = []
sum (x ∷ xs) [] = x ∷ xs
sum (x ∷ xs) (y ∷ ys) = differ x y ∷ sum xs ys

-- x^32 + x^26 + x^23 + x^22 + x^16 + x^12 + x^11 + x^10 + x^8 + x^7 + x^5 + x^4 + x^2 + x + 1
abbrev pub is_term : ℕ → Bool
is_term d =
    d == 26
    || d == 23
    || d == 22
    || d == 16
    || d == 12
    || d == 11
    || d == 10
    || d == 8
    || d == 7
    || d == 5
    || d == 4
    || d == 2
    || d == 1
    || d == 0

-- Below its first coefficient.
abbrev pub generator : List Bool
generator = tabulate 32 0 (λ i. is_term (31 - i))

-- Long division by the generator: `n` coefficients are divided off, and what is left is the remainder.
unfoldable pub remainder : ℕ → List Bool → List Bool
unfolding sum
remainder zero dividend = dividend
remainder (suc n) [] = []
remainder (suc n) (b ∷ dividend) = remainder n (if b then sum dividend generator else dividend)

abbrev pub complement : List Bool → List Bool
complement [] = []
complement (b ∷ bits) = not b ∷ complement bits

-- The frame check sequence of a message of `k` bits: the complement of the remainder of the message
-- times x^32 plus x^k times 32 ones.
unfoldable pub frame_check : List Bool → List Bool
unfolding remainder
frame_check message =
    complement
      (remainder (length message) (sum (message ++ replicate 32 false) (replicate 32 true)))

abbrev pub is_odd : ℕ → Bool
is_odd n = n % 2 == 1

-- `n` bits of a number, the lowest first, as they are sent.
unfoldable pub bits : ℕ → ℕ → List Bool
bits zero x = []
bits (suc n) x = is_odd x ∷ bits n (x / 2)

-- Those of `len` bytes from an offset on.
unfoldable pub message_bits : List ℕ → ℕ → ℕ → List Bool
unfolding bits
message_bits bytes off zero = []
message_bits bytes off (suc len) = bits 8 (byte_at bytes off) ++ message_bits bytes (off + 1) len
