-- ===== src/Bits/Xor.antt =====
-- `^`: it is commutative, undoes itself, stays within a width, and keeps a bit above both operands.
use native.Mathlib.Nat.{pow-suc}
use panicdump.Base.{ℕ, zero, suc, ◌+◌, ◌*◌, ◌/◌, ◌%◌, ◌^◌, ◌≤◌, ◌<◌, ◌≡◌, sym, ◌∙◌, ap, arith}
use Prim.Native.Nat.{bit_xor-bitwise}
use panicdump.Base.{bit_xor}
use panicdump.Bits.Step.{xor_digit}

xor-comm_below : (k a b : ℕ) → a + b ≤ k → bit_xor a b ≡ bit_xor b a
xor-comm_below zero a b h = let p : a ≡ 0 = omega arith in let q : b ≡ 0 = omega arith in rw (p, q)
xor-comm_below (suc k) a b h =
    omega (arith, xor_digit a b, xor_digit b a, xor-comm_below k (a / 2) (b / 2) (omega arith))

pub xor_comm : (a b : ℕ) → bit_xor a b ≡ bit_xor b a
xor_comm a b = xor-comm_below (a + b) a b (omega arith)

zero_xor : (b : ℕ) → bit_xor 0 b ≡ b
zero_xor b = bit_xor-bitwise 0 b

xor_undo_below : (k a b : ℕ) → a + b ≤ k → bit_xor (bit_xor a b) b ≡ a
xor_undo_below zero a b h = let p : a ≡ 0 = omega arith in let q : b ≡ 0 = omega arith in rw (p, q)
xor_undo_below (suc k) a b h =
    let upper : bit_xor a b / 2 ≡ bit_xor (a / 2) (b / 2) = omega (arith, xor_digit a b) in
    let again = ap (λ t. bit_xor t (b / 2)) upper in
    let below = xor_undo_below k (a / 2) (b / 2) (omega arith) in
    omega (arith, xor_digit a b, xor_digit (bit_xor a b) b, again, below)

pub xor_undo : (a b : ℕ) → bit_xor (bit_xor a b) b ≡ a
xor_undo a b = xor_undo_below (a + b) a b (omega arith)

-- Equal results with one operand in common have the other in common.
pub xor_inj : (a b c : ℕ) → bit_xor a c ≡ bit_xor b c → a ≡ b
xor_inj a b c h = sym (xor_undo a c) ∙ ap (λ x. bit_xor x c) h ∙ xor_undo b c

pub xor_inj_right : (a b c : ℕ) → bit_xor c a ≡ bit_xor c b → a ≡ b
xor_inj_right a b c h = xor_inj a b c (xor_comm a c ∙ h ∙ xor_comm c b)

pub xor-lt : (k a b : ℕ) → a < 2 ^ k → b < 2 ^ k → bit_xor a b < 2 ^ k
xor-lt zero a b p q =
    let e : a ≡ 0 = omega arith in let f : b ≡ 0 = omega arith in rw (e, f) (omega arith)
xor-lt (suc k) a b p q =
    let d = pow-suc 2 k in
    omega (arith, xor_digit a b, xor-lt k (a / 2) (b / 2) (omega arith) (omega arith))

-- A bit above the width of both operands passes through.
pub xor-top : (k a b : ℕ) → a < 2 ^ k → b < 2 ^ k → bit_xor a (2 ^ k + b) ≡ 2 ^ k + bit_xor a b
xor-top zero a b p q = let e : a ≡ 0 = omega arith in let f : b ≡ 0 = omega arith in rw (e, f)
xor-top (suc k) a b p q =
    let d = pow-suc 2 k in
    let upper : (2 ^ suc k + b) / 2 ≡ 2 ^ k + b / 2 = omega arith in
    let below = xor-top k (a / 2) (b / 2) (omega arith) (omega arith) in
    omega
      (arith, xor_digit a (2 ^ suc k + b), xor_digit a b, ap (λ t. bit_xor (a / 2) t) upper, below)

pub xor_zero : (a : ℕ) → bit_xor a 0 ≡ a
xor_zero a = xor_comm a 0 ∙ zero_xor a

xor_assoc_below : (k a b c : ℕ) → a + b + c ≤ k → bit_xor (bit_xor a b) c ≡ bit_xor a (bit_xor b c)
xor_assoc_below zero a b c h =
    let p : a ≡ 0 = omega arith in
    let q : b ≡ 0 = omega arith in let r : c ≡ 0 = omega arith in rw (p, q, r)
xor_assoc_below (suc k) a b c h =
    let left : bit_xor a b / 2 ≡ bit_xor (a / 2) (b / 2) = omega (arith, xor_digit a b) in
    let right : bit_xor b c / 2 ≡ bit_xor (b / 2) (c / 2) = omega (arith, xor_digit b c) in
    omega (
      arith,
      xor_digit (bit_xor a b) c,
      xor_digit a (bit_xor b c),
      xor_digit a b,
      xor_digit b c,
      ap (λ t. bit_xor t (c / 2)) left,
      ap (λ t. bit_xor (a / 2) t) right,
      xor_assoc_below k (a / 2) (b / 2) (c / 2) (omega arith),
    )

pub xor_assoc : (a b c : ℕ) → bit_xor (bit_xor a b) c ≡ bit_xor a (bit_xor b c)
xor_assoc a b c = xor_assoc_below (a + b + c) a b c (omega arith)

pub xor-right_comm : (a b c : ℕ) → bit_xor (bit_xor a b) c ≡ bit_xor (bit_xor a c) b
xor-right_comm a b c = xor_assoc a b c ∙ ap (bit_xor a) (xor_comm b c) ∙ sym (xor_assoc a c b)

-- An even operand leaves the lowest bit, and is halved with the rest.
pub xor-half : (a d : ℕ) → bit_xor a (d * 2) / 2 ≡ bit_xor (a / 2) d
xor-half a d =
    let half : d * 2 / 2 ≡ d = omega arith in
    omega (arith, xor_digit a (d * 2), ap (λ t. bit_xor (a / 2) t) half)

pub xor-parity : (a d : ℕ) → bit_xor a (d * 2) % 2 ≡ a % 2
xor-parity a d = omega (arith, xor_digit a (d * 2))

-- Beside each other, exclusive or is the sum.
pub xor-sum : (k r q : ℕ) → r < 2 ^ k → bit_xor r (q * 2 ^ k) ≡ r + q * 2 ^ k
xor-sum zero r q h =
    let e : r ≡ 0 = omega arith in
    omega (arith, zero_xor (q * 2 ^ 0), ap (λ t. bit_xor t (q * 2 ^ 0)) e)
xor-sum (suc k) r q h =
    let d = pow-suc 2 k in
    let twice : q * 2 ^ suc k ≡ 2 * (q * 2 ^ k) = omega (arith, ap (λ (t : ℕ). q * t) d) in
    let upper : q * 2 ^ suc k / 2 ≡ q * 2 ^ k = omega arith in
    omega (
      arith,
      xor_digit r (q * 2 ^ suc k),
      ap (λ t. bit_xor (r / 2) t) upper,
      xor-sum k (r / 2) q (omega arith),
    )
