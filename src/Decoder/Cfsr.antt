-- ===== src/Decoder/Cfsr.antt =====
-- `decode_cfsr` of tools/decode_panicdump.py.
pub mod Names
use panicdump.Base.{ℕ, List, [], ◌∷◌, ◌++◌, bit_and, ◌!=◌, if◌then◌else◌, ◌>>>◌, ◌<<<◌}
use panicdump.Export.{codes}

-- _UFSR_BITS, _BFSR_BITS and _MMFSR_BITS
abbrev pub ufsr_bits : List (ℕ × List ℕ)
ufsr_bits =
    (9, codes "DIVBYZERO")
    ∷ (8, codes "UNALIGNED")
    ∷ (3, codes "NOCP (coprocessor fault)")
    ∷ (2, codes "INVPC (invalid PC load)")
    ∷ (1, codes "INVSTATE (invalid state)")
    ∷ (0, codes "UNDEFINSTR (undefined instruction)")
    ∷ []

abbrev pub bfsr_bits : List (ℕ × List ℕ)
bfsr_bits =
    (7, codes "BFARVALID (BFAR holds address)")
    ∷ (5, codes "LSPERR (FP lazy stack)")
    ∷ (4, codes "STKERR (stack push fault)")
    ∷ (3, codes "UNSTKERR (stack pop fault)")
    ∷ (2, codes "IMPRECISERR (imprecise data bus)")
    ∷ (1, codes "PRECISERR (precise data bus)")
    ∷ (0, codes "IBUSERR (instruction bus fault)")
    ∷ []

abbrev pub mmfsr_bits : List (ℕ × List ℕ)
mmfsr_bits =
    (7, codes "MMARVALID (MMFAR holds address)")
    ∷ (5, codes "MLSPERR (FP lazy stack MPU)")
    ∷ (4, codes "MSTKERR (stack push MPU)")
    ∷ (3, codes "MUNSTKERR (stack pop MPU)")
    ∷ (1, codes "DACCVIOL (data access violation)")
    ∷ (0, codes "IACCVIOL (instruction access violation)")
    ∷ []

-- A loop of `decode_cfsr`, with what it appends.
unfoldable pub set_names : ℕ → List (ℕ × List ℕ) → List (List ℕ)
set_names status [] = []
set_names status ((bit, name) ∷ bits) =
    let rest = set_names status bits in
    if bit_and status (1 <<< bit) != 0 then name ∷ rest else rest

unfoldable pub decode_cfsr : ℕ → List (List ℕ)
unfolding set_names
decode_cfsr cfsr =
    let ufsr = bit_and (cfsr >>> 16) 0xFFFF in
    let bfsr = bit_and (cfsr >>> 8) 0xFF in
    let mmfsr = bit_and cfsr 0xFF in
    set_names ufsr ufsr_bits ++ (set_names bfsr bfsr_bits ++ set_names mmfsr mmfsr_bits)
