-- ===== src/Bits/Step.antt =====
-- The native bitwise operations as one equation for the lowest binary digit.
use Prim.Native.Nat.{min, max, digits, bitwise, differ}
use Prim.Native.Nat.{bit_and-bitwise, bit_or-bitwise, bit_xor-bitwise}
use panicdump.Base.{ℕ, zero, suc, ◌+◌, ◌*◌, ◌/◌, ◌%◌, ◌≤◌, ◌≡◌, refl, arith}
use panicdump.Base.{bit_and, bit_or, bit_xor}

module _ (keep : ℕ → ℕ) (f : ℕ → ℕ → ℕ) where
  -- With room for the first operand, the count of digits to go does not matter. `k` bounds the
  -- operand, for the recursion.
  digits-eq-bitwise : (k n a b : ℕ) → a ≤ k → a ≤ n → digits keep f n a b ≡ bitwise keep f a b
  digits-eq-bitwise k zero zero b p q = refl
  digits-eq-bitwise k (suc n) zero b p q = refl
  digits-eq-bitwise k zero (suc a) b p q = absurd (omega arith)
  digits-eq-bitwise zero (suc n) (suc a) b p q = absurd (omega arith)
  digits-eq-bitwise (suc k) (suc n) (suc a) b p q =
      let half = suc a / 2 in
      let here = digits-eq-bitwise k n half (b / 2) (omega arith) (omega arith) in
      let there = digits-eq-bitwise k a half (b / 2) (omega arith) (omega arith) in
      omega (arith, here, there)

  bitwise-suc :
      (a b : ℕ)
      → bitwise keep f (suc a) b ≡ bitwise keep f (suc a / 2) (b / 2) * 2 + f (suc a % 2) (b % 2)
  bitwise-suc a b =
      omega (arith, digits-eq-bitwise a a (suc a / 2) (b / 2) (omega arith) (omega arith))

pub or_digit : (a b : ℕ) → bit_or a b ≡ bit_or (a / 2) (b / 2) * 2 + max (a % 2) (b % 2)
or_digit zero b = rw (bit_or-bitwise 0 b, bit_or-bitwise 0 (b / 2)) (omega arith)
or_digit (suc a) b = simp bit_or-bitwise (bitwise-suc (λ y. y) max a b)

pub and_digit : (a b : ℕ) → bit_and a b ≡ bit_and (a / 2) (b / 2) * 2 + min (a % 2) (b % 2)
and_digit zero b = rw (bit_and-bitwise 0 b, bit_and-bitwise 0 (b / 2)) (omega arith)
and_digit (suc a) b = simp bit_and-bitwise (bitwise-suc (λ y. 0) min a b)

-- The sum of two digits without the carry.
differ-mod : (a b : ℕ) → differ (a % 2) (b % 2) ≡ (a % 2 + b % 2) % 2
differ-mod a b = small (a % 2) (b % 2) (omega arith) (omega arith)
  where
    small : (x y : ℕ) → x ≤ 1 → y ≤ 1 → differ x y ≡ (x + y) % 2
    small zero zero p q = refl
    small zero (suc zero) p q = refl
    small (suc zero) zero p q = refl
    small (suc zero) (suc zero) p q = refl
    small zero (suc (suc y)) p q = absurd (omega arith)
    small (suc zero) (suc (suc y)) p q = absurd (omega arith)
    small (suc (suc x)) y p q = absurd (omega arith)

xor_differ : (a b : ℕ) → bit_xor a b ≡ bit_xor (a / 2) (b / 2) * 2 + differ (a % 2) (b % 2)
xor_differ zero b = rw (bit_xor-bitwise 0 b, bit_xor-bitwise 0 (b / 2)) (omega arith)
xor_differ (suc a) b = simp bit_xor-bitwise (bitwise-suc (λ y. y) differ a b)

pub xor_digit : (a b : ℕ) → bit_xor a b ≡ bit_xor (a / 2) (b / 2) * 2 + (a % 2 + b % 2) % 2
xor_digit a b = omega (arith, xor_differ a b, differ-mod a b)
