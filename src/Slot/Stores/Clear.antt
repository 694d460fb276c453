-- ===== src/Slot/Stores/Clear.antt =====
-- `panicdump_clear` as its stores: from the first one on no dump is valid.
use panicdump.Base.{
  ℕ, zero, suc, ◌+◌, ◌%◌, ◌<◌, ◌≡◌, refl, ◌∙◌, arith, List, [], ◌∷◌, false, take, set,
  get_or-set_ne, bit_or, u32, ◌<<<◌,
}
use panicdump.Bits.Step.{or_digit}
use panicdump.Wire.{byte_at, load_u32}
use panicdump.Codec.{validate_wire, image_valid}
use panicdump.Slot.{Slot, has_valid, clear}
use panicdump.Slot.Stores.{apply, run, zero_stores, clear_stores, run-zero_stores}

pub run-clear_stores : (slot : Slot) → run slot.dump_wire clear_stores ≡ (clear slot).dump_wire
unfolding clear_stores clear
run-clear_stores slot = run-zero_stores slot.dump_wire 0 192

first_byte :
    (wire : List ℕ) (k off len : ℕ)
    → 0 < off
    → byte_at (run wire (take k (zero_stores off len))) 0 ≡ byte_at wire 0
unfolding run apply zero_stores
first_byte wire zero off len h = refl
first_byte wire (suc k) off zero h = refl
first_byte wire (suc k) off (suc len) h =
    first_byte (set wire off 0) k (off + 1) len (omega arith)
    ∙ get_or-set_ne wire off 0 0 0 (omega arith)

set-first : (wire : List ℕ) → byte_at (set wire 0 0) 0 ≡ 0
set-first [] = refl
set-first (b ∷ wire) = refl

-- The magic is odd.
even-load_u32 : (wire : List ℕ) → byte_at wire 0 ≡ 0 → load_u32 wire 0 % 2 ≡ 0
unfolding load_u32
even-load_u32 wire e =
    let b1 = u32 (byte_at wire 1 <<< 8) in
    let b2 = u32 (byte_at wire 2 <<< 16) in
    let b3 = u32 (byte_at wire 3 <<< 24) in
    let one = or_digit (byte_at wire 0) b1 in
    let two = or_digit (bit_or (byte_at wire 0) b1) b2 in
    let three = or_digit (bit_or (bit_or (byte_at wire 0) b1) b2) b3 in
    omega (arith, e, one, two, three)

invalid_even : (slot : Slot) → load_u32 slot.dump_wire 0 % 2 ≡ 0 → has_valid slot ≡ false
unfolding has_valid validate_wire image_valid
invalid_even slot e = ground (arith, e)

-- A clear that is cut short after its first store leaves no valid dump.
pub interrupted_clear :
    (slot : Slot) (k : ℕ)
    → has_valid (record slot { dump_wire = run slot.dump_wire (take (suc k) clear_stores) }) ≡ false
unfolding clear_stores run apply
interrupted_clear slot k =
    let wire = set slot.dump_wire 0 0 in
    let gone = first_byte wire k 1 191 (omega arith) ∙ set-first slot.dump_wire in
    invalid_even _ (even-load_u32 (run wire (take k (zero_stores 1 191))) gone)
