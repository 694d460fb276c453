-- ===== src/Slot/Stores.antt =====
-- A commit and a clear as the sequences of their stores to the slot, in program order: bytes, and the two
-- aligned word stores of the magic. A fault or a reset may come between any two of them.
pub mod Order
pub mod Clear
pub mod Bytes
use panicdump.Base.{
  ℕ, zero, suc, ◌+◌, ◌!=◌, ◌≡◌, refl, List, [], ◌∷◌, ◌++◌, Option, none, some, set, u8, bit_and,
  ◌>>>◌, if◌then◌else◌, Bool-cases, inl, inr,
}
use panicdump.Wire.{byte_at, store_u32, zero_bytes, copy_bytes}
use panicdump.Format
use panicdump.Dump.{Regs, Stack}
use panicdump.Fields.{crc32_with_zero_crc, reg_values, write_words}
use panicdump.Slot.{Slot, Snapshot, commit_header, commit_regs, commit_stack}

pub data Store : Type 0 where
  byte : ℕ → ℕ → Store
  word : ℕ → ℕ → Store

unfoldable pub apply : List ℕ → Store → List ℕ
apply wire (byte off value) = set wire off value
apply wire (word off value) = store_u32 wire off value

-- The array after a sequence of stores.
unfoldable pub run : List ℕ → List Store → List ℕ
unfolding apply
run wire [] = wire
run wire (s ∷ stores) = run (apply wire s) stores

abbrev u16_stores : ℕ → ℕ → List Store
u16_stores off v =
    byte off (u8 (bit_and v 0xff)) ∷ byte (off + 1) (u8 (bit_and (v >>> 8) 0xff)) ∷ []

abbrev pub u32_stores : ℕ → ℕ → List Store
u32_stores off v =
    byte off (u8 (bit_and v 0xff))
    ∷ byte (off + 1) (u8 (bit_and (v >>> 8) 0xff))
    ∷ byte (off + 2) (u8 (bit_and (v >>> 16) 0xff))
    ∷ byte (off + 3) (u8 (bit_and (v >>> 24) 0xff))
    ∷ []

unfoldable pub words_stores : ℕ → List ℕ → List Store
words_stores off [] = []
words_stores off (v ∷ values) = u32_stores off v ++ words_stores (off + 4) values

unfoldable pub zero_stores : ℕ → ℕ → List Store
zero_stores off zero = []
zero_stores off (suc len) = byte off 0 ∷ zero_stores (off + 1) len

unfoldable pub copy_stores : ℕ → List ℕ → ℕ → ℕ → List Store
copy_stores off src from zero = []
copy_stores off src from (suc len) =
    byte off (byte_at src from) ∷ copy_stores (off + 1) src (from + 1) len

unfoldable pub header_stores : ℕ → Snapshot → List Store
header_stores tag s =
    u16_stores Format.version_offset Format.version
    ++ (u16_stores Format.header_size_offset Format.header_size
        ++ (u32_stores Format.total_size_offset Format.wire_total_size
            ++ (u32_stores Format.flags_offset s.flags
                ++ (u32_stores Format.arch_id_offset s.arch_id
                    ++ (u32_stores Format.fault_reason_offset s.fault_reason
                        ++ (u32_stores Format.sequence_offset s.exc_return
                            ++ (u32_stores Format.user_tag_offset tag
                                ++ u32_stores Format.crc32_offset 0)))))))

unfoldable pub regs_stores : Option Regs → List Store
regs_stores none = zero_stores Format.regs_offset Format.regs_size
regs_stores (some regs) = words_stores Format.regs_offset (reg_values regs)

unfoldable pub slice_stores : Stack → List Store
slice_stores stack =
    if stack.stack_bytes != 0
    then copy_stores (Format.stack_offset + 8) stack.slice 0 Format.stack_slice_bytes
    else zero_stores (Format.stack_offset + 8) Format.stack_slice_bytes

unfoldable pub stack_stores : Option Stack → List Store
stack_stores none = zero_stores Format.stack_offset Format.stack_size
stack_stores (some stack) =
    u32_stores Format.stack_offset stack.captured_sp
    ++ (u32_stores (Format.stack_offset + 4) stack.stack_bytes ++ slice_stores stack)

-- Between the two stores of the magic, but for the checksum.
unfoldable pub payload_stores : ℕ → Snapshot → List Store
payload_stores tag s = header_stores tag s ++ (regs_stores s.regs ++ stack_stores s.stack)

unfoldable pub checksum_stores : List ℕ → ℕ → Snapshot → List Store
checksum_stores wire tag s =
    u32_stores Format.crc32_offset
      (crc32_with_zero_crc (run wire (word Format.magic_offset 0 ∷ payload_stores tag s)))

unfoldable pub commit_stores : Slot → Snapshot → List Store
commit_stores slot s =
    word Format.magic_offset 0
    ∷ ((payload_stores slot.user_tag s ++ checksum_stores slot.dump_wire slot.user_tag s)
        ++ (word Format.magic_offset Format.magic ∷ []))

-- `panicdump_clear`
unfoldable pub clear_stores : List Store
unfolding zero_stores
clear_stores = zero_stores 0 Format.wire_total_size

pub run-append : (wire : List ℕ) (a b : List Store) → run wire (a ++ b) ≡ run (run wire a) b
unfolding run
run-append wire [] b = refl
run-append wire (s ∷ a) b = run-append (apply wire s) a b

run-words_stores :
    (wire : List ℕ) (off : ℕ) (values : List ℕ)
    → run wire (words_stores off values) ≡ write_words wire off values
unfolding run words_stores write_words
run-words_stores wire off [] = refl
run-words_stores wire off (v ∷ values) = run-words_stores (store_u32 wire off v) (off + 4) values

pub run-zero_stores :
    (wire : List ℕ) (off len : ℕ) → run wire (zero_stores off len) ≡ zero_bytes wire off len
unfolding run zero_stores zero_bytes
run-zero_stores wire off zero = refl
run-zero_stores wire off (suc len) = run-zero_stores (set wire off 0) (off + 1) len

run-copy_stores :
    (wire : List ℕ) (off : ℕ) (src : List ℕ) (from len : ℕ)
    → run wire (copy_stores off src from len) ≡ copy_bytes wire off src from len
unfolding run copy_stores copy_bytes
run-copy_stores wire off src from zero = refl
run-copy_stores wire off src from (suc len) =
    run-copy_stores (set wire off (byte_at src from)) (off + 1) src (from + 1) len

run-header_stores :
    (wire : List ℕ) (tag : ℕ) (s : Snapshot)
    → run wire (header_stores tag s) ≡ commit_header wire tag s
unfolding run header_stores commit_header
run-header_stores wire tag s = refl

run-regs_stores :
    (wire : List ℕ) (regs : Option Regs) → run wire (regs_stores regs) ≡ commit_regs wire regs
unfolding regs_stores commit_regs
run-regs_stores wire none = run-zero_stores wire 36 84
run-regs_stores wire (some regs) = run-words_stores wire 36 (reg_values regs)

run-stack_stores :
    (wire : List ℕ) (stack : Option Stack) → run wire (stack_stores stack) ≡ commit_stack wire stack
unfolding stack_stores slice_stores commit_stack run
run-stack_stores wire none = run-zero_stores wire 120 72
run-stack_stores wire (some stack) =
    let wire2 = store_u32 (store_u32 wire 120 stack.captured_sp) 124 stack.stack_bytes in
    elim (Bool-cases (stack.stack_bytes != 0)) [
      | inl copied ↦ rw copied (run-copy_stores wire2 128 stack.slice 0 64)
      | inr empty ↦ rw empty (run-zero_stores wire2 128 64)
    ]
