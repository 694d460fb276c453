-- ===== src/Wire/Word.antt =====
-- What a word's bytes are, and what loading them gives.
use panicdump.Base.{
  take, tabulate, ◌≤◌, ◌⊎◌, inl, inr, ℕ, zero, suc, ◌+◌, ◌*◌, ◌%◌, ◌^◌, ◌<◌, ◌≡◌, ap, ap₂, ◌∙◌,
  List, [], ◌∷◌, arith, bit_and, bit_or, u8, u32, ◌<<<◌, ◌>>>◌,
}
use mathlib.Core.Path.{subst}
use panicdump.Bits.Fields.{or-sum, and-mask}
use panicdump.Dump.{IsBytes}
use panicdump.Wire.{byte_at, load_u16, load_u32}

-- The four bytes of a word, as `store_u32` writes them.
abbrev pub le_u32 : ℕ → List ℕ
le_u32 v =
    u8 (bit_and v 0xff)
    ∷ u8 (bit_and (v >>> 8) 0xff)
    ∷ u8 (bit_and (v >>> 16) 0xff)
    ∷ u8 (bit_and (v >>> 24) 0xff)
    ∷ []

abbrev pub le_u16 : ℕ → List ℕ
le_u16 v = u8 (bit_and v 0xff) ∷ u8 (bit_and (v >>> 8) 0xff) ∷ []

-- The byte that `(uint8_t)(v & 0xFF)` takes.
pub low_byte : (v : ℕ) → u8 (bit_and v 0xff) ≡ v % 256
low_byte v = omega (arith, and-mask 8 v)

-- Four bytes put side by side.
or-bytes :
    (a b c d : ℕ)
    → a < 256
    → b < 256
    → c < 256
    → d < 256
    → bit_or (bit_or (bit_or a (u32 (b <<< 8))) (u32 (c <<< 16))) (u32 (d <<< 24))
      ≡ a + b * 256 + c * 65536 + d * 16777216
or-bytes a b c d ha hb hc hd =
    let eb : u32 (b <<< 8) ≡ b <<< 8 = omega arith in
    let ec : u32 (c <<< 16) ≡ c <<< 16 = omega arith in
    let ed : u32 (d <<< 24) ≡ d <<< 24 = omega arith in
    ap₂ bit_or (ap₂ bit_or (ap (bit_or a) eb ∙ or-sum 8 a b ha) ec ∙ or-sum 16 _ c (omega arith)) ed
    ∙ or-sum 24 _ d (omega arith)

pub load_u32-sum :
    (w : List ℕ) (i : ℕ)
    → byte_at w i < 256
    → byte_at w (i + 1) < 256
    → byte_at w (i + 2) < 256
    → byte_at w (i + 3) < 256
    → load_u32 w i
      ≡ byte_at w i
        + byte_at w (i + 1) * 256
        + byte_at w (i + 2) * 65536
        + byte_at w (i + 3) * 16777216
unfolding load_u32
load_u32-sum w i p q r s = or-bytes _ _ _ _ p q r s

pub load_u16-sum :
    (w : List ℕ) (i : ℕ)
    → byte_at w i < 256
    → byte_at w (i + 1) < 256
    → load_u16 w i ≡ byte_at w i + byte_at w (i + 1) * 256
unfolding load_u16
load_u16-sum w i p q = omega (arith, or-sum 8 (byte_at w i) (byte_at w (i + 1)) p)

-- A word comes back from its bytes.
pub load_u32-le_u32 : (v : ℕ) → v < 2 ^ 32 → load_u32 (le_u32 v) 0 ≡ v
load_u32-le_u32 v h = omega (
  arith,
  load_u32-sum (le_u32 v) 0 (omega arith) (omega arith) (omega arith) (omega arith),
  low_byte v,
  low_byte (v >>> 8),
  low_byte (v >>> 16),
  low_byte (v >>> 24),
)

pub load_u16-le_u16 : (v : ℕ) → v < 2 ^ 16 → load_u16 (le_u16 v) 0 ≡ v
load_u16-le_u16 v h =
    omega
      (arith, load_u16-sum (le_u16 v) 0 (omega arith) (omega arith), low_byte v, low_byte (v >>> 8))

pub byte_at-lt : (w : List ℕ) (i : ℕ) → IsBytes w → byte_at w i < 256
byte_at-lt [] i h = omega arith
byte_at-lt (b ∷ w) zero h = h.0
byte_at-lt (b ∷ w) (suc i) h = byte_at-lt w i h.1

-- Loading from bytes gives a word.
pub load_u32-lt : (w : List ℕ) (i : ℕ) → IsBytes w → load_u32 w i < 2 ^ 32
load_u32-lt w i h =
    let b0 = byte_at-lt w i h in
    let b1 = byte_at-lt w (i + 1) h in
    let b2 = byte_at-lt w (i + 2) h in
    let b3 = byte_at-lt w (i + 3) h in omega (arith, load_u32-sum w i b0 b1 b2 b3)

pub load_u16-lt : (w : List ℕ) (i : ℕ) → IsBytes w → load_u16 w i < 2 ^ 16
load_u16-lt w i h =
    let b0 = byte_at-lt w i h in
    let b1 = byte_at-lt w (i + 1) h in omega (arith, load_u16-sum w i b0 b1)

-- A word tells its four bytes.
pub load_u32_inj :
    (v w : List ℕ) (i : ℕ)
    → IsBytes v
    → IsBytes w
    → load_u32 v i ≡ load_u32 w i
    → (byte_at v i ≡ byte_at w i)
      × (byte_at v (i + 1) ≡ byte_at w (i + 1))
      × (byte_at v (i + 2) ≡ byte_at w (i + 2))
      × (byte_at v (i + 3) ≡ byte_at w (i + 3))
load_u32_inj v w i hv hw e =
    let v0 = byte_at-lt v i hv in
    let v1 = byte_at-lt v (i + 1) hv in
    let v2 = byte_at-lt v (i + 2) hv in
    let v3 = byte_at-lt v (i + 3) hv in
    let w0 = byte_at-lt w i hw in
    let w1 = byte_at-lt w (i + 1) hw in
    let w2 = byte_at-lt w (i + 2) hw in
    let w3 = byte_at-lt w (i + 3) hw in
    omega (arith, load_u32-sum v i v0 v1 v2 v3, load_u32-sum w i w0 w1 w2 w3)

pub tabulate-IsBytes : (n i : ℕ) (f : ℕ → ℕ) → ((a : ℕ) → f a < 256) → IsBytes (tabulate n i f)
tabulate-IsBytes zero i f h = tt
tabulate-IsBytes (suc n) i f h = (h i, tabulate-IsBytes n (i + 1) f h)

pub take-IsBytes : (n : ℕ) (s : List ℕ) → IsBytes s → IsBytes (take n s)
take-IsBytes zero s h = tt
take-IsBytes (suc n) [] h = tt
take-IsBytes (suc n) (b ∷ s) h = (h.0, take-IsBytes n s h.1)

offset_cases : (i k : ℕ) → i ≤ k → k < i + 4 → (i ≡ k) ⊎ ((i + 1 ≡ k) ⊎ ((i + 2 ≡ k) ⊎ (i + 3 ≡ k)))
offset_cases i k lo hi = ground arith

-- Equal words have equal bytes.
pub byte_at-word :
    (v w : List ℕ) (i k : ℕ)
    → IsBytes v
    → IsBytes w
    → i ≤ k
    → k < i + 4
    → load_u32 v i ≡ load_u32 w i
    → byte_at v k ≡ byte_at w k
byte_at-word v w i k bv bw lo hi e =
    let parts = load_u32_inj v w i bv bw e in
    elim (offset_cases i k lo hi) [
      | inl here ↦ subst (λ j. byte_at v j ≡ byte_at w j) here parts.0
      | inr (inl here) ↦ subst (λ j. byte_at v j ≡ byte_at w j) here parts.1
      | inr (inr (inl here)) ↦ subst (λ j. byte_at v j ≡ byte_at w j) here parts.2
      | inr (inr (inr here)) ↦ subst (λ j. byte_at v j ≡ byte_at w j) here parts.3
    ]
