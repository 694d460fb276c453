-- ===== src/Bits/Split.antt =====
-- `&` and `|` work on a low field of `k` bits and on what stands above it apart.
use native.Mathlib.Nat.{pow-suc, one-le-pow, mod-lt, div-add-mod', mod-eq_of_lt}
use panicdump.Base.{
  ℕ, zero, suc, ◌+◌, ◌-◌, ◌*◌, ◌/◌, ◌%◌, ◌^◌, ◌<◌, ◌≡◌, refl, sym, ap, ap₂, ◌∙◌, arith, bit_and,
  bit_or,
}
use panicdump.Bits.Step.{and_digit, or_digit}
use panicdump.Bits.Fields.{and-mask, and_zero, or_zero, zero_or}

pow_twice : (t k : ℕ) → t * 2 ^ suc k ≡ 2 * (t * 2 ^ k)
pow_twice t k = omega (arith, ap (λ (u : ℕ). t * u) (pow-suc 2 k))

pow_one : (t r : ℕ) → r < 2 ^ 0 → t * 2 ^ 0 + r ≡ t
pow_one t r h = omega arith

pub and-split :
    (k q r p s : ℕ)
    → r < 2 ^ k
    → s < 2 ^ k
    → bit_and (q * 2 ^ k + r) (p * 2 ^ k + s) ≡ bit_and q p * 2 ^ k + bit_and r s
and-split zero q r p s hr hs =
    let er : r ≡ 0 = omega arith in
    let es : s ≡ 0 = omega arith in
    let low : bit_and r s ≡ 0 = ap₂ bit_and er es in
    ap₂ bit_and (pow_one q r hr) (pow_one p s hs) ∙ omega (arith, low)
and-split (suc k) q r p s hr hs =
    let d = pow-suc 2 k in
    let eq = pow_twice q k in
    let ep = pow_twice p k in
    let upper_q : (q * 2 ^ suc k + r) / 2 ≡ q * 2 ^ k + r / 2 = omega arith in
    let upper_p : (p * 2 ^ suc k + s) / 2 ≡ p * 2 ^ k + s / 2 = omega arith in
    omega (
      arith,
      and_digit (q * 2 ^ suc k + r) (p * 2 ^ suc k + s),
      and_digit r s,
      ap₂ bit_and upper_q upper_p,
      pow_twice (bit_and q p) k,
      and-split k q (r / 2) p (s / 2) (omega arith) (omega arith),
    )

pub or-split :
    (k q r p s : ℕ)
    → r < 2 ^ k
    → s < 2 ^ k
    → bit_or (q * 2 ^ k + r) (p * 2 ^ k + s) ≡ bit_or q p * 2 ^ k + bit_or r s
or-split zero q r p s hr hs =
    let er : r ≡ 0 = omega arith in
    let es : s ≡ 0 = omega arith in
    let low : bit_or r s ≡ 0 = ap₂ bit_or er es in
    ap₂ bit_or (pow_one q r hr) (pow_one p s hs) ∙ omega (arith, low)
or-split (suc k) q r p s hr hs =
    let d = pow-suc 2 k in
    let eq = pow_twice q k in
    let ep = pow_twice p k in
    let upper_q : (q * 2 ^ suc k + r) / 2 ≡ q * 2 ^ k + r / 2 = omega arith in
    let upper_p : (p * 2 ^ suc k + s) / 2 ≡ p * 2 ^ k + s / 2 = omega arith in
    omega (
      arith,
      or_digit (q * 2 ^ suc k + r) (p * 2 ^ suc k + s),
      or_digit r s,
      ap₂ bit_or upper_q upper_p,
      pow_twice (bit_or q p) k,
      or-split k q (r / 2) p (s / 2) (omega arith) (omega arith),
    )

-- The parts of a number: below `k`, the field of `w` bits from `k` on, and above it.
field_parts : (k w x : ℕ) → (x / 2 ^ k / 2 ^ w * 2 ^ w + x / 2 ^ k % 2 ^ w) * 2 ^ k + x % 2 ^ k ≡ x
field_parts k w x =
    ap (λ (t : ℕ). t * 2 ^ k + x % 2 ^ k) (div-add-mod' (x / 2 ^ k) (2 ^ w))
    ∙ div-add-mod' x (2 ^ k)

rest-lt : (k x : ℕ) → x % 2 ^ k < 2 ^ k
rest-lt k x = mod-lt x (one-le-pow k 2 (omega arith))

-- A field is set by clearing it and putting the value in; the other bits stay.
pub set_field :
    (k w n x v : ℕ)
    → x / 2 ^ k / 2 ^ w < 2 ^ n
    → v < 2 ^ w
    → bit_or
        (bit_and x (((2 ^ n - 1) * 2 ^ w + 0) * 2 ^ k + (2 ^ k - 1)))
        ((0 * 2 ^ w + v) * 2 ^ k + 0)
      ≡ (x / 2 ^ k / 2 ^ w * 2 ^ w + v) * 2 ^ k + x % 2 ^ k
set_field k w n x v fits hv =
    let q = x / 2 ^ k / 2 ^ w in
    let m = x / 2 ^ k % 2 ^ w in
    let l = x % 2 ^ k in
    let pw = one-le-pow w 2 (omega arith) in
    let pk = one-le-pow k 2 (omega arith) in
    let hl = rest-lt k x in
    let hm = rest-lt w (x / 2 ^ k) in
    let kept_q : bit_and q (2 ^ n - 1) ≡ q = and-mask n q ∙ mod-eq_of_lt fits in
    let kept_l : bit_and l (2 ^ k - 1) ≡ l = and-mask k l ∙ mod-eq_of_lt hl in
    let cleared : bit_and x (((2 ^ n - 1) * 2 ^ w + 0) * 2 ^ k + (2 ^ k - 1))
        ≡ (q * 2 ^ w + 0) * 2 ^ k + l =
      ap (λ t. bit_and t (((2 ^ n - 1) * 2 ^ w + 0) * 2 ^ k + (2 ^ k - 1)))
        (sym (field_parts k w x))
      ∙ and-split k (q * 2 ^ w + m) l ((2 ^ n - 1) * 2 ^ w + 0) (2 ^ k - 1) hl (omega arith)
      ∙ ap₂ (λ (a b : ℕ). a * 2 ^ k + b)
          (and-split w q m (2 ^ n - 1) 0 hm (omega arith)
            ∙ ap₂ (λ (a b : ℕ). a * 2 ^ w + b) kept_q (and_zero m))
          kept_l in
    ap (λ t. bit_or t ((0 * 2 ^ w + v) * 2 ^ k + 0)) cleared
    ∙ or-split k (q * 2 ^ w + 0) l (0 * 2 ^ w + v) 0 hl (omega arith)
    ∙ ap₂ (λ (a b : ℕ). a * 2 ^ k + b)
        (or-split w q 0 0 v (omega arith) hv
          ∙ ap₂ (λ (a b : ℕ). a * 2 ^ w + b) (or_zero q) (zero_or v))
        (or_zero l)

-- A bit is set; the other bits stay.
pub set_bit :
    (k x : ℕ) → bit_or x ((0 * 2 + 1) * 2 ^ k + 0) ≡ (x / 2 ^ k / 2 * 2 + 1) * 2 ^ k + x % 2 ^ k
set_bit k x =
    let q = x / 2 ^ k / 2 in
    let m = x / 2 ^ k % 2 in
    let l = x % 2 ^ k in
    ap (λ t. bit_or t ((0 * 2 + 1) * 2 ^ k + 0)) (sym (field_parts k 1 x))
    ∙ or-split k (q * 2 + m) l (0 * 2 + 1) 0 (rest-lt k x) (one-le-pow k 2 (omega arith))
    ∙ ap₂ (λ (a b : ℕ). a * 2 ^ k + b)
        (or-split 1 q m 0 1 (omega arith) (omega arith)
          ∙ ap₂ (λ (a b : ℕ). a * 2 + b) (or_zero q) (bit m (omega arith)))
        (or_zero l)
  where
    bit : (m : ℕ) → m < 2 → bit_or m 1 ≡ 1
    bit zero h = refl
    bit (suc zero) h = refl
    bit (suc (suc m)) h = absurd (omega arith)
