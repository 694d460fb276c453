-- ===== src/Decoder/Cfsr/Names.antt =====
-- The names that `decode_cfsr` of tools/decode_panicdump.py lists are those of the bits that are set.
use native.Mathlib.Nat.{mod-lt, one-le-pow, div-add-mod'}
use panicdump.Base.{
  ℕ, zero, suc, ◌+◌, ◌*◌, ◌/◌, ◌%◌, ◌^◌, ◌<◌, ◌≡◌, refl, sym, ap, ap₂, ◌∙◌, arith, List, [], ◌∷◌,
  ◌++◌, Bool, bit_and, ◌!=◌, ◌==◌, if◌then◌else◌, ◌>>>◌, ◌<<<◌, Bool-cases, inl, inr,
}
use panicdump.Bits.Fields.{and-mask, and-high}
use panicdump.Decoder.Cfsr.{ufsr_bits, bfsr_bits, mmfsr_bits, set_names, decode_cfsr}

-- The names of the bits of a register, in the order of a table that has each at its position.
abbrev pub flagged : ℕ → List (ℕ × List ℕ) → List (List ℕ)
flagged register [] = []
flagged register ((position, name) ∷ table) =
    let rest = flagged register table in
    if register / 2 ^ position % 2 == 1 then name ∷ rest else rest

-- A table moved up by `k` positions.
abbrev pub above : ℕ → List (ℕ × List ℕ) → List (ℕ × List ℕ)
above k [] = []
above k ((position, name) ∷ table) = (k + position, name) ∷ above k table

flag-test : (q p : ℕ) → q < 2 → 0 < p → (q * p != 0) ≡ (q == 1)
flag-test zero p h u = let none' : zero * p ≡ 0 = omega arith in ap (λ t. t != 0) none'
flag-test (suc zero) p h u = ground (arith, u)
flag-test (suc (suc q)) p h u = absurd (omega arith)

bit-test : (n b : ℕ) → (bit_and n (1 <<< b) != 0) ≡ (n / 2 ^ b % 2 == 1)
bit-test n b =
    let positive : 0 < 2 ^ b = one-le-pow b 2 (omega arith) in
    let low = mod-lt n positive in
    let q = n / 2 ^ b in
    let parts : bit_and n (1 <<< b) ≡ q % 2 * 2 ^ b =
      ap (λ t. bit_and t (1 * 2 ^ b)) (sym (div-add-mod' n (2 ^ b)))
      ∙ and-high b q (n % 2 ^ b) 1 low
      ∙ ap (λ t. t * 2 ^ b) (and-mask 1 q) in
    ap (λ t. t != 0) parts ∙ flag-test (q % 2) (2 ^ b) (omega arith) positive

-- A status whose bits are those of the register from `k` on, where the table looks.
abbrev Agree : ℕ → ℕ → ℕ → List (ℕ × List ℕ) → Type 0
Agree status register k [] = Unit
Agree status register k ((bit, name) ∷ bits) =
    (status / 2 ^ bit % 2 ≡ register / 2 ^ (k + bit) % 2) × Agree status register k bits

set_names-flagged :
    (status register k : ℕ) (bits : List (ℕ × List ℕ))
    → Agree status register k bits
    → set_names status bits ≡ flagged register (above k bits)
unfolding set_names
set_names-flagged status register k [] h = refl
set_names-flagged status register k ((bit, name) ∷ bits) (same, h) =
    ap₂ (λ (t : Bool) l. if t then name ∷ l else l) (bit-test status bit ∙ ap (λ t. t == 1) same)
      (set_names-flagged status register k bits h)

flagged-append :
    (register : ℕ) (s t : List (ℕ × List ℕ))
    → flagged register (s ++ t) ≡ flagged register s ++ flagged register t
flagged-append register [] t = refl
flagged-append register ((position, name) ∷ s) t =
    elim (Bool-cases (register / 2 ^ position % 2 == 1)) [
      | inl on ↦ rw on (ap (λ l. name ∷ l) (flagged-append register s t))
      | inr off ↦ rw off (flagged-append register s t)
    ]

-- For every value of the register CFSR: `decode_cfsr` lists exactly the names of the bits that are set
-- in it, in the order of the three tables, of which that of the usage faults looks from bit 16 on,
-- that of the bus faults from bit 8 on, and that of the memory management faults from bit 0 on.
pub decode_cfsr-flagged :
    (cfsr : ℕ)
    → decode_cfsr cfsr
      ≡ flagged cfsr (above 16 ufsr_bits ++ (above 8 bfsr_bits ++ above 0 mmfsr_bits))
unfolding decode_cfsr
decode_cfsr-flagged cfsr =
    let usage = and-mask 16 (cfsr >>> 16) in
    let bus = and-mask 8 (cfsr >>> 8) in
    let memory = and-mask 8 cfsr in
    let u =
      set_names-flagged (bit_and (cfsr >>> 16) 0xFFFF) cfsr 16 ufsr_bits (omega (arith, usage)) in
    let b = set_names-flagged (bit_and (cfsr >>> 8) 0xFF) cfsr 8 bfsr_bits (omega (arith, bus)) in
    let m = set_names-flagged (bit_and cfsr 0xFF) cfsr 0 mmfsr_bits (omega (arith, memory)) in
    ap₂ ◌++◌ u (ap₂ ◌++◌ b m ∙ sym (flagged-append cfsr (above 8 bfsr_bits) (above 0 mmfsr_bits)))
    ∙ sym (flagged-append cfsr (above 16 ufsr_bits) (above 8 bfsr_bits ++ above 0 mmfsr_bits))
