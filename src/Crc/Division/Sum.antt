-- ===== src/Crc/Division/Sum.antt =====
-- Sums of polynomials, and the bits of a sum.
use panicdump.Base.{
  ℕ, zero, suc, ◌/◌, ◌^◌, ◌≤◌, ◌<◌, ◌≡◌, refl, ap, ap₂, ◌∙◌, arith, List, [], ◌∷◌, ◌++◌, Bool, true,
  false, not, length, replicate, bit_xor,
}
use native.Mathlib.Nat.{pow-suc}
use panicdump.Bits.Step.{xor_digit}
use panicdump.Crc.Division.{differ, sum, is_odd, bits, complement}

differ_assoc : (a b c : Bool) → differ (differ a b) c ≡ differ a (differ b c)
differ_assoc true true true = refl
differ_assoc true true false = refl
differ_assoc true false c = refl
differ_assoc false b c = refl

pub sum_assoc :
    (xs ys zs : List Bool) → length zs ≤ length ys → sum (sum xs ys) zs ≡ sum xs (sum ys zs)
unfolding sum
sum_assoc [] ys zs h = refl
sum_assoc (x ∷ xs) [] [] h = refl
sum_assoc (x ∷ xs) [] (z ∷ zs) h = absurd (omega arith)
sum_assoc (x ∷ xs) (y ∷ ys) [] h = refl
sum_assoc (x ∷ xs) (y ∷ ys) (z ∷ zs) h =
    ap₂ ◌∷◌ (differ_assoc x y z) (sum_assoc xs ys zs (omega arith))

differ-false : (b : Bool) → differ b false ≡ b
differ-false true = refl
differ-false false = refl

sum-nil : (xs : List Bool) → sum xs [] ≡ xs
unfolding sum
sum-nil [] = refl
sum-nil (x ∷ xs) = refl

-- A coefficient zero at the end changes nothing.
pub sum-pad : (xs ys : List Bool) → sum xs (ys ++ false ∷ []) ≡ sum xs ys
unfolding sum
sum-pad [] ys = refl
sum-pad (x ∷ xs) [] = ap₂ ◌∷◌ (differ-false x) (sum-nil xs)
sum-pad (x ∷ xs) (y ∷ ys) = ap (λ l. differ x y ∷ l) (sum-pad xs ys)

pub sum-zeros : (n : ℕ) (ys : List Bool) → length ys ≡ n → sum (replicate n false) ys ≡ ys
unfolding sum
sum-zeros zero [] h = refl
sum-zeros zero (y ∷ ys) h = absurd (omega (arith, h))
sum-zeros (suc n) [] h = absurd (omega (arith, h))
sum-zeros (suc n) (y ∷ ys) h = ap (λ l. y ∷ l) (sum-zeros n ys (omega (arith, h)))

pub is_odd-xor : (a b : ℕ) → is_odd (bit_xor a b) ≡ differ (is_odd a) (is_odd b)
is_odd-xor a b = ground (arith, xor_digit a b)

pub xor-half_both : (a b : ℕ) → bit_xor a b / 2 ≡ bit_xor (a / 2) (b / 2)
xor-half_both a b = omega (arith, xor_digit a b)

pub bits-xor : (n a b : ℕ) → bits n (bit_xor a b) ≡ sum (bits n a) (bits n b)
unfolding bits sum
bits-xor zero a b = refl
bits-xor (suc n) a b =
    ap₂ ◌∷◌ (is_odd-xor a b) (ap (bits n) (xor-half_both a b) ∙ bits-xor n (a / 2) (b / 2))

pub bits-small : (n x : ℕ) → x < 2 ^ n → bits (suc n) x ≡ bits n x ++ false ∷ []
unfolding bits
bits-small zero x h = ground arith
bits-small (suc n) x h = ap (λ l. is_odd x ∷ l) (bits-small n (x / 2) (omega (arith, pow-suc 2 n)))

pub length-bits : (n x : ℕ) → length (bits n x) ≡ n
unfolding bits
length-bits zero x = refl
length-bits (suc n) x = ap suc (length-bits n (x / 2))

pub differ_comm : (a b : Bool) → differ a b ≡ differ b a
differ_comm true true = refl
differ_comm true false = refl
differ_comm false true = refl
differ_comm false false = refl

differ-true : (b : Bool) → differ b true ≡ not b
differ-true true = refl
differ-true false = refl

pub sum-ones : (n : ℕ) (xs : List Bool) → length xs ≡ n → sum xs (replicate n true) ≡ complement xs
unfolding sum
sum-ones n [] h = refl
sum-ones zero (x ∷ xs) h = absurd (omega (arith, h))
sum-ones (suc n) (x ∷ xs) h = ap₂ ◌∷◌ (differ-true x) (sum-ones n xs (omega (arith, h)))
