-- ===== src/Slot/Stores/Bytes.antt =====
-- The stores of a commit are bytes, so the slot stays an array of bytes after any number of them.
use panicdump.Base.{
  ℕ, zero, suc, ◌+◌, ◌<◌, arith, List, [], ◌∷◌, ◌++◌, Option, none, some, take, set, ◌!=◌,
  Bool-cases, inl, inr,
}
use panicdump.Wire.{store_u32}
use panicdump.Wire.Word.{byte_at-lt}
use panicdump.Dump.{Regs, Stack, IsBytes}
use panicdump.Fields.{reg_values}
use panicdump.Slot.{Slot, Snapshot}
use panicdump.Slot.Typed.{IsSnapshot, IsStackOption}
use panicdump.Slot.Stores.{
  Store, byte, word, apply, run, u32_stores, words_stores, zero_stores, copy_stores, header_stores,
  regs_stores, slice_stores, stack_stores, payload_stores, checksum_stores, commit_stores,
}

abbrev pub AreBytes : List Store → Type 0
AreBytes [] = Unit
AreBytes (byte off v ∷ stores) = (v < 256) × AreBytes stores
AreBytes (word off v ∷ stores) = AreBytes stores

set-IsBytes : (wire : List ℕ) (i v : ℕ) → IsBytes wire → v < 256 → IsBytes (set wire i v)
set-IsBytes [] i v h p = tt
set-IsBytes (b ∷ wire) zero v h p = (p, h.1)
set-IsBytes (b ∷ wire) (suc i) v h p = (h.0, set-IsBytes wire i v h.1 p)

store_u32-IsBytes : (wire : List ℕ) (off v : ℕ) → IsBytes wire → IsBytes (store_u32 wire off v)
unfolding store_u32
store_u32-IsBytes wire off v h =
    set-IsBytes _ (off + 3) _
      (set-IsBytes _ (off + 2) _
        (set-IsBytes _ (off + 1) _ (set-IsBytes wire off _ h (omega arith)) (omega arith))
        (omega arith))
      (omega arith)

pub run-IsBytes :
    (wire : List ℕ) (stores : List Store)
    → IsBytes wire
    → AreBytes stores
    → IsBytes (run wire stores)
unfolding run apply
run-IsBytes wire [] h p = h
run-IsBytes wire (byte off v ∷ stores) h p =
    run-IsBytes (set wire off v) stores (set-IsBytes wire off v h p.0) p.1
run-IsBytes wire (word off v ∷ stores) h p =
    run-IsBytes (store_u32 wire off v) stores (store_u32-IsBytes wire off v h) p

AreBytes-append : (a b : List Store) → AreBytes a → AreBytes b → AreBytes (a ++ b)
AreBytes-append [] b p q = q
AreBytes-append (byte off v ∷ a) b p q = (p.0, AreBytes-append a b p.1 q)
AreBytes-append (word off v ∷ a) b p q = AreBytes-append a b p q

pub AreBytes-take : (k : ℕ) (a : List Store) → AreBytes a → AreBytes (take k a)
AreBytes-take zero a p = tt
AreBytes-take (suc k) [] p = tt
AreBytes-take (suc k) (byte off v ∷ a) p = (p.0, AreBytes-take k a p.1)
AreBytes-take (suc k) (word off v ∷ a) p = AreBytes-take k a p

pub zero_stores-AreBytes : (off len : ℕ) → AreBytes (zero_stores off len)
unfolding zero_stores
zero_stores-AreBytes off zero = tt
zero_stores-AreBytes off (suc len) = (omega arith, zero_stores-AreBytes (off + 1) len)

copy_stores-AreBytes :
    (off : ℕ) (src : List ℕ) (from len : ℕ) → IsBytes src → AreBytes (copy_stores off src from len)
unfolding copy_stores
copy_stores-AreBytes off src from zero h = tt
copy_stores-AreBytes off src from (suc len) h =
    (byte_at-lt src from h, copy_stores-AreBytes (off + 1) src (from + 1) len h)

u32_stores-AreBytes : (off v : ℕ) → AreBytes (u32_stores off v)
u32_stores-AreBytes off v = omega arith

words_stores-AreBytes : (off : ℕ) (values : List ℕ) → AreBytes (words_stores off values)
unfolding words_stores
words_stores-AreBytes off [] = tt
words_stores-AreBytes off (v ∷ values) =
    AreBytes-append (u32_stores off v) (words_stores (off + 4) values) (u32_stores-AreBytes off v)
      (words_stores-AreBytes (off + 4) values)

regs_stores-AreBytes : (regs : Option Regs) → AreBytes (regs_stores regs)
unfolding regs_stores
regs_stores-AreBytes none = zero_stores-AreBytes 36 84
regs_stores-AreBytes (some regs) = words_stores-AreBytes 36 (reg_values regs)

stack_stores-AreBytes : (stack : Option Stack) → IsStackOption stack → AreBytes (stack_stores stack)
unfolding stack_stores slice_stores
stack_stores-AreBytes none h = zero_stores-AreBytes 120 72
stack_stores-AreBytes (some stack) h =
    AreBytes-append (u32_stores 120 stack.captured_sp ++ u32_stores 124 stack.stack_bytes)
      (slice_stores stack) (omega arith)
      (elim (Bool-cases (stack.stack_bytes != 0)) [
        | inl copied ↦ rw copied (copy_stores-AreBytes 128 stack.slice 0 64 h.slice_bytes)
        | inr empty ↦ rw empty (zero_stores-AreBytes 128 64)
      ])

header_stores-AreBytes : (tag : ℕ) (s : Snapshot) → AreBytes (header_stores tag s)
unfolding header_stores
header_stores-AreBytes tag s = omega arith

pub commit_stores-AreBytes :
    (slot : Slot) (s : Snapshot) → IsSnapshot s → AreBytes (commit_stores slot s)
unfolding commit_stores payload_stores checksum_stores
commit_stores-AreBytes slot s h =
    let rest =
      AreBytes-append (regs_stores s.regs) (stack_stores s.stack) (regs_stores-AreBytes s.regs)
        (stack_stores-AreBytes s.stack h.stack) in
    let payload =
      AreBytes-append (header_stores slot.user_tag s) (regs_stores s.regs ++ stack_stores s.stack)
        (header_stores-AreBytes slot.user_tag s) rest in
    let body =
      AreBytes-append (payload_stores slot.user_tag s)
        (checksum_stores slot.dump_wire slot.user_tag s) payload (u32_stores-AreBytes 32 _) in
    AreBytes-append
      (payload_stores slot.user_tag s ++ checksum_stores slot.dump_wire slot.user_tag s)
      (word 0 0x50444331 ∷ []) body tt
