-- ===== src/Slot/Stores/Order.antt =====
-- The commit protocol: the stores of `panicdump_commit_snapshot` in order, cut short anywhere.
use panicdump.Base.{
  ℕ, zero, suc, ◌+◌, ◌≤◌, ◌<◌, ◌≡◌, refl, sym, ap, ap₂, ◌∙◌, arith, List, [], ◌∷◌, ◌++◌, Option,
  none, some, Bool-cases, inl, inr, false, take, length, length-append, get_or-set_ne, get_or,
  tabulate, tabulate-get_or, ◌!=◌,
}
use panicdump.Wire.{byte_at, load_u32, store_u32}
use panicdump.Dump.{Regs, Stack}
use panicdump.Fields.{crc32_with_zero_crc}
use panicdump.Codec.{validate_wire, image_valid}
use panicdump.Slot.{
  Slot, Snapshot, has_valid, commit_header, commit_regs, commit_payload, commit_snapshot,
  write_magic, write_commit_marker,
}
use panicdump.Slot.Stores.{
  Store, byte, word, apply, run, u32_stores, words_stores, zero_stores, copy_stores, header_stores,
  regs_stores, slice_stores, stack_stores, payload_stores, checksum_stores, commit_stores,
  run-append, run-header_stores, run-regs_stores, run-stack_stores,
}

run-payload_stores :
    (wire : List ℕ) (tag : ℕ) (s : Snapshot)
    → run wire (word 0 0 ∷ payload_stores tag s) ≡ commit_payload wire tag s
unfolding payload_stores commit_payload run
run-payload_stores wire tag s =
    let wire1 = write_magic wire 0 in
    let wire2 = commit_header wire1 tag s in
    run-append wire1 (header_stores tag s) (regs_stores s.regs ++ stack_stores s.stack)
    ∙ ap (λ w. run w (regs_stores s.regs ++ stack_stores s.stack)) (run-header_stores wire1 tag s)
    ∙ run-append wire2 (regs_stores s.regs) (stack_stores s.stack)
    ∙ ap (λ w. run w (stack_stores s.stack)) (run-regs_stores wire2 s.regs)
    ∙ run-stack_stores (commit_regs wire2 s.regs) s.stack

-- The stores in order make the image that `panicdump_commit_snapshot` leaves.
pub run-commit_stores :
    (slot : Slot) (s : Snapshot)
    → run slot.dump_wire (commit_stores slot s) ≡ (commit_snapshot slot s).dump_wire
unfolding commit_stores checksum_stores commit_snapshot run apply
run-commit_stores slot s =
    let payload = payload_stores slot.user_tag s in
    let checksum = checksum_stores slot.dump_wire slot.user_tag s in
    let wire1 = write_magic slot.dump_wire 0 in
    let same = run-payload_stores slot.dump_wire slot.user_tag s in
    run-append wire1 (payload ++ checksum) (word 0 0x50444331 ∷ [])
    ∙ ap (λ w. store_u32 w 0 0x50444331) (run-append wire1 payload checksum)
    ∙ ap₂ (λ w v. write_commit_marker (store_u32 w 32 (crc32_with_zero_crc v))) same same

-- Stores of single bytes past the magic.
abbrev pub SparesMagic : List Store → Type 0
SparesMagic [] = Unit
SparesMagic (byte off v ∷ stores) = (4 ≤ off) × SparesMagic stores
SparesMagic (word off v ∷ stores) = ⊥

SparesMagic-append : (a b : List Store) → SparesMagic a → SparesMagic b → SparesMagic (a ++ b)
SparesMagic-append [] b p q = q
SparesMagic-append (byte off v ∷ a) b p q = (p.0, SparesMagic-append a b p.1 q)
SparesMagic-append (word off v ∷ a) b p q = absurd p

SparesMagic-take : (k : ℕ) (a : List Store) → SparesMagic a → SparesMagic (take k a)
SparesMagic-take zero a p = tt
SparesMagic-take (suc k) [] p = tt
SparesMagic-take (suc k) (byte off v ∷ a) p = (p.0, SparesMagic-take k a p.1)
SparesMagic-take (suc k) (word off v ∷ a) p = absurd p

zero_stores-SparesMagic : (off len : ℕ) → 4 ≤ off → SparesMagic (zero_stores off len)
unfolding zero_stores
zero_stores-SparesMagic off zero h = tt
zero_stores-SparesMagic off (suc len) h = (h, zero_stores-SparesMagic (off + 1) len (omega arith))

copy_stores-SparesMagic :
    (off : ℕ) (src : List ℕ) (from len : ℕ) → 4 ≤ off → SparesMagic (copy_stores off src from len)
unfolding copy_stores
copy_stores-SparesMagic off src from zero h = tt
copy_stores-SparesMagic off src from (suc len) h =
    (h, copy_stores-SparesMagic (off + 1) src (from + 1) len (omega arith))

regs_stores-SparesMagic : (regs : Option Regs) → SparesMagic (regs_stores regs)
unfolding regs_stores words_stores
regs_stores-SparesMagic none = zero_stores-SparesMagic 36 84 (omega arith)
regs_stores-SparesMagic (some regs) = omega arith

stack_stores-SparesMagic : (stack : Option Stack) → SparesMagic (stack_stores stack)
unfolding stack_stores slice_stores
stack_stores-SparesMagic none = zero_stores-SparesMagic 120 72 (omega arith)
stack_stores-SparesMagic (some stack) =
    SparesMagic-append (u32_stores 120 stack.captured_sp ++ u32_stores 124 stack.stack_bytes)
      (slice_stores stack) (omega arith)
      (elim (Bool-cases (stack.stack_bytes != 0)) [
        | inl copied ↦ rw copied (copy_stores-SparesMagic 128 stack.slice 0 64 (omega arith))
        | inr empty ↦ rw empty (zero_stores-SparesMagic 128 64 (omega arith))
      ])

payload_stores-SparesMagic : (tag : ℕ) (s : Snapshot) → SparesMagic (payload_stores tag s)
unfolding payload_stores header_stores
payload_stores-SparesMagic tag s =
    SparesMagic-append (header_stores tag s) (regs_stores s.regs ++ stack_stores s.stack)
      (omega arith)
      (SparesMagic-append (regs_stores s.regs) (stack_stores s.stack)
        (regs_stores-SparesMagic s.regs) (stack_stores-SparesMagic s.stack))

pub body-SparesMagic :
    (wire : List ℕ) (tag : ℕ) (s : Snapshot)
    → SparesMagic (payload_stores tag s ++ checksum_stores wire tag s)
unfolding checksum_stores
body-SparesMagic wire tag s =
    SparesMagic-append (payload_stores tag s) (checksum_stores wire tag s)
      (payload_stores-SparesMagic tag s) (omega arith)

-- The first four bytes after such stores.
byte_at-run :
    (wire : List ℕ) (stores : List Store) (i : ℕ)
    → SparesMagic stores
    → i < 4
    → byte_at (run wire stores) i ≡ byte_at wire i
unfolding run apply
byte_at-run wire [] i p h = refl
byte_at-run wire (byte off v ∷ stores) i p h =
    byte_at-run _ stores i p.1 h ∙ get_or-set_ne wire off i v 0 (omega arith)
byte_at-run wire (word off v ∷ stores) i p h = absurd p

pub magic-run :
    (wire : List ℕ) (stores : List Store)
    → SparesMagic stores
    → load_u32 (run wire stores) 0 ≡ load_u32 wire 0
unfolding load_u32
magic-run wire stores p = rw (
  byte_at-run wire stores 0 p (omega arith),
  byte_at-run wire stores 1 p (omega arith),
  byte_at-run wire stores 2 p (omega arith),
  byte_at-run wire stores 3 p (omega arith),
)

-- Without the magic an image is not valid.
invalid_without_magic : (slot : Slot) → load_u32 slot.dump_wire 0 ≡ 0 → has_valid slot ≡ false
unfolding has_valid validate_wire image_valid
invalid_without_magic slot e = rw e

pub cleared_magic : (wire : List ℕ) → length wire ≡ 192 → load_u32 (store_u32 wire 0 0) 0 ≡ 0
cleared_magic wire e =
    ap (λ w. load_u32 (store_u32 w 0 0) 0) (sym (tabulate-get_or 192 wire 0 e))
    ∙ cleared (λ i. get_or wire i 0)
  where
    cleared : (w : ℕ → ℕ) → load_u32 (store_u32 (tabulate 192 0 w) 0 0) 0 ≡ 0
    cleared w = unfold load_u32 store_u32 in refl

take-append : (k : ℕ) (a b : List Store) → k ≤ length a → take k (a ++ b) ≡ take k a
take-append zero a b h = refl
take-append (suc k) [] b h = absurd (omega arith)
take-append (suc k) (s ∷ a) b h = ap (λ t. s ∷ t) (take-append k a b (omega arith))

-- A commit into an image of 192 bytes that is cut short after its first store and before its last
-- leaves no valid dump: not the old one, and no mixture.
pub interrupted_commit :
    (slot : Slot) (s : Snapshot) (k : ℕ)
    → length slot.dump_wire ≡ 192
    → 0 < k
    → k < length (commit_stores slot s)
    → has_valid (record slot { dump_wire = run slot.dump_wire (take k (commit_stores slot s)) })
      ≡ false
unfolding commit_stores run apply
interrupted_commit slot s zero e pos h = absurd (omega arith)
interrupted_commit slot s (suc k) e pos h =
    let body = payload_stores slot.user_tag s ++ checksum_stores slot.dump_wire slot.user_tag s in
    let marker : List Store = word 0 0x50444331 ∷ [] in
    let within : k ≤ length body = omega (arith, length-append body marker) in
    let spares = body-SparesMagic slot.dump_wire slot.user_tag s in
    let wire1 = store_u32 slot.dump_wire 0 0 in
    invalid_without_magic _ (
      ap (λ stores. load_u32 (run wire1 stores) 0) (take-append k body marker within)
      ∙ magic-run wire1 (take k body) (SparesMagic-take k body spares)
      ∙ cleared_magic slot.dump_wire e)
