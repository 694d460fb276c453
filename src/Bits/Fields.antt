-- ===== src/Bits/Fields.antt =====
-- `|` of disjoint fields is a sum, and `&` with a run of ones takes bits out.
use Prim.Native.Nat.{bit_or-bitwise}
use native.Mathlib.Nat.{pow-suc, one-le-pow, mod-lt, div-add-mod'}
use panicdump.Base.{
  ℕ, zero, suc, ◌+◌, ◌-◌, ◌*◌, ◌/◌, ◌%◌, ◌^◌, ◌≤◌, ◌<◌, ◌≡◌, sym, ◌∙◌, ap, ap₂, arith,
}
use panicdump.Base.{bit_and, bit_or, ◌<<<◌}
use panicdump.Bits.Step.{or_digit, and_digit}

or-zero_below : (k a : ℕ) → a ≤ k → bit_or a 0 ≡ a
or-zero_below zero a h = let e : a ≡ 0 = omega arith in rw e
or-zero_below (suc k) a h = omega (arith, or_digit a 0, or-zero_below k (a / 2) (omega arith))

and-zero_below : (k a : ℕ) → a ≤ k → bit_and a 0 ≡ 0
and-zero_below zero a h = let e : a ≡ 0 = omega arith in rw e
and-zero_below (suc k) a h = omega (arith, and_digit a 0, and-zero_below k (a / 2) (omega arith))

pub or_zero : (a : ℕ) → bit_or a 0 ≡ a
or_zero a = or-zero_below a a (omega arith)

pub zero_or : (a : ℕ) → bit_or 0 a ≡ a
zero_or a = bit_or-bitwise 0 a

pub and_zero : (a : ℕ) → bit_and a 0 ≡ 0
and_zero a = and-zero_below a a (omega arith)

-- A low field `r` of `k` bits beside the field `q` above it.
pub or-sum : (k r q : ℕ) → r < 2 ^ k → bit_or r (q <<< k) ≡ r + q * 2 ^ k
or-sum zero r q h =
    let e : r ≡ 0 = omega arith in rw (e, bit_or-bitwise 0 (q * 2 ^ 0)) (omega arith)
or-sum (suc k) r q h =
    let d = pow-suc 2 k in
    let twice : q * 2 ^ suc k ≡ 2 * (q * 2 ^ k) = omega (arith, ap (λ (t : ℕ). q * t) d) in
    let upper : q * 2 ^ suc k / 2 ≡ q * 2 ^ k = omega arith in
    omega (
      arith,
      or_digit r (q * 2 ^ suc k),
      ap (λ t. bit_or (r / 2) t) upper,
      or-sum k (r / 2) q (omega arith),
    )

and-mask_sum : (k q r : ℕ) → r < 2 ^ k → bit_and (q * 2 ^ k + r) (2 ^ k - 1) ≡ r
and-mask_sum zero q r h = omega (arith, and-zero_below (q * 1 + r) (q * 1 + r) (omega arith))
and-mask_sum (suc k) q r h =
    let d = pow-suc 2 k in
    let pos = one-le-pow k 2 (omega arith) in
    let ones : (2 ^ suc k - 1) / 2 ≡ 2 ^ k - 1 = omega arith in
    let twice : q * 2 ^ suc k ≡ 2 * (q * 2 ^ k) = omega (arith, ap (λ (t : ℕ). q * t) d) in
    let upper : (q * 2 ^ suc k + r) / 2 ≡ q * 2 ^ k + r / 2 = omega arith in
    omega (
      arith,
      and_digit (q * 2 ^ suc k + r) (2 ^ suc k - 1),
      ap₂ bit_and upper ones,
      and-mask_sum k q (r / 2) (omega arith),
    )

-- A mask of `k` ones is the remainder by `2 ^ k`.
pub and-mask : (k a : ℕ) → bit_and a (2 ^ k - 1) ≡ a % 2 ^ k
and-mask k a =
    let fits : a % 2 ^ k < 2 ^ k = mod-lt a (one-le-pow k 2 (omega arith)) in
    let parts : a / 2 ^ k * 2 ^ k + a % 2 ^ k ≡ a = div-add-mod' a (2 ^ k) in
    ap (λ t. bit_and t (2 ^ k - 1)) (sym parts) ∙ and-mask_sum k (a / 2 ^ k) (a % 2 ^ k) fits

-- A mask with `k` zeros at its end sees nothing of a low field of `k` bits.
pub and-high : (k q r m : ℕ) → r < 2 ^ k → bit_and (q * 2 ^ k + r) (m * 2 ^ k) ≡ bit_and q m * 2 ^ k
and-high zero q r m h =
    let e : q * 2 ^ 0 + r ≡ q = omega arith in
    let f : m * 2 ^ 0 ≡ m = omega arith in omega (arith, ap₂ bit_and e f)
and-high (suc k) q r m h =
    let d = pow-suc 2 k in
    let twice_q : q * 2 ^ suc k ≡ 2 * (q * 2 ^ k) = omega (arith, ap (λ (t : ℕ). q * t) d) in
    let twice_m : m * 2 ^ suc k ≡ 2 * (m * 2 ^ k) = omega (arith, ap (λ (t : ℕ). m * t) d) in
    let upper : (q * 2 ^ suc k + r) / 2 ≡ q * 2 ^ k + r / 2 = omega arith in
    let mask : m * 2 ^ suc k / 2 ≡ m * 2 ^ k = omega arith in
    omega (
      arith,
      and_digit (q * 2 ^ suc k + r) (m * 2 ^ suc k),
      ap₂ bit_and upper mask,
      and-high k q (r / 2) m (omega arith),
      ap (λ (t : ℕ). bit_and q m * t) d,
    )
