-- ===== src/Slot/Commit.antt =====
-- What a commit leaves in the slot, whatever the slot held.
use panicdump.Base.{
  ℕ, ◌≡◌, refl, sym, ap, ◌∙◌, Bool, true, false, Option, none, some, if◌then◌else◌, ◌!=◌, ◌++◌,
  length, replicate, get_or, tabulate, tabulate-get_or, List,
}
use panicdump.Wire.{store_u32, copy_bytes, zero_bytes}
use panicdump.Format
use panicdump.Dump.{Regs, Stack, Dump, zero_regs, zero_stack}
use panicdump.Fields.{crc32_with_zero_crc}
use panicdump.Fields.Image.{image, fields_image}
use panicdump.Fields.Checksum.{checksum-image}
use panicdump.Codec.RoundTrip.{with_checksum}
use panicdump.Slot.{
  Slot, Snapshot, commit_header, commit_regs, commit_payload, commit_snapshot, write_magic,
  write_commit_marker,
}

abbrev pub regs_or_zero : Option Regs → Regs
regs_or_zero none = zero_regs
regs_or_zero (some regs) = regs

abbrev pub stack_or_zero : Option Stack → Stack
stack_or_zero none = zero_stack
stack_or_zero (some stack) = stack

-- The dump that a commit records.
abbrev pub recorded : ℕ → Snapshot → Dump
recorded tag s = record {
  magic = Format.magic;
  version = Format.version;
  header_size = Format.header_size;
  total_size = Format.wire_total_size;
  flags = s.flags;
  arch_id = s.arch_id;
  fault_reason = s.fault_reason;
  sequence = s.exc_return;
  user_tag = tag;
  crc32 = 0;
  regs = regs_or_zero s.regs;
  stack = stack_or_zero s.stack;
}

-- The same without the magic, as it is when the checksum is taken.
abbrev unmarked : ℕ → Snapshot → Dump
unmarked tag s = record (recorded tag s) { magic = 0 }

-- A snapshot with the pointers given.
abbrev with_parts : Snapshot → Option Regs → Option Stack → Snapshot
with_parts s regs stack = record s { regs = regs; stack = stack }

-- What is written when the commit comes to the bytes of the slice.
before_slice : List ℕ → ℕ → Snapshot → Option Regs → ℕ → ℕ → List ℕ
before_slice wire tag s regs sp bytes =
    let wire1 = commit_regs (commit_header (write_magic wire 0) tag s) regs in
    store_u32 (store_u32 wire1 120 sp) 124 bytes

module _ (w slice : ℕ → ℕ) (tag : ℕ) (s : Snapshot) (sp bytes : ℕ) where
  abbrev given_stack : Stack
  given_stack = record { captured_sp = sp; stack_bytes = bytes; slice = tabulate 64 0 slice }

  -- On an array whose cells are written out, the stores compute.
  slice_cells :
      (regs : Option Regs) (copied : Bool)
      → let before = before_slice (tabulate 192 0 w) tag s regs sp bytes in
        (if copied
          then copy_bytes before 128 (tabulate 64 0 slice) 0 64
          else zero_bytes before 128 64)
        ≡ fields_image (unmarked tag (with_parts s regs (some given_stack)))
          ++ (if copied then tabulate 64 0 slice else replicate 64 0)
  unfolding before_slice commit_header commit_regs write_magic copy_bytes zero_bytes
  slice_cells none true = refl
  slice_cells none false = refl
  slice_cells (some regs) true = refl
  slice_cells (some regs) false = refl

  payload-image-some :
      (regs : Option Regs)
      → let s' = with_parts s regs (some given_stack) in
        commit_payload (tabulate 192 0 w) tag s' ≡ image (unmarked tag s')
  unfolding commit_payload before_slice image
  payload-image-some regs = slice_cells regs (bytes != 0)

payload-image-none :
    (w : ℕ → ℕ) (tag : ℕ) (s : Snapshot) (regs : Option Regs)
    → let s' = with_parts s regs none in
      commit_payload (tabulate 192 0 w) tag s' ≡ image (unmarked tag s')
unfolding commit_payload image
payload-image-none w tag s none = refl
payload-image-none w tag s (some regs) = refl

-- Where a stack record is given, its array has 64 bytes.
abbrev pub HasSlice : Option Stack → Type 0
HasSlice none = Unit
HasSlice (some stack) = length stack.slice ≡ 64

payload-image_cells :
    (w : ℕ → ℕ) (tag : ℕ) (s : Snapshot) (stack : Option Stack)
    → HasSlice stack
    → let s' = with_parts s s.regs stack in
      commit_payload (tabulate 192 0 w) tag s' ≡ image (unmarked tag s')
payload-image_cells w tag s none h = payload-image-none w tag s s.regs
payload-image_cells w tag s (some stack) h =
    let cells = tabulate-get_or 64 stack.slice 0 h in
    let given = λ (bytes : List ℕ). with_parts s s.regs (some (record stack { slice = bytes })) in
    ap (λ b. commit_payload (tabulate 192 0 w) tag (given b)) (sym cells)
    ∙ payload-image-some w (λ i. get_or stack.slice i 0) tag s stack.captured_sp stack.stack_bytes
        s.regs
    ∙ ap (λ b. image (unmarked tag (given b))) cells

-- The payload overwrites every byte of the slot.
pub payload-image :
    (wire : List ℕ) (tag : ℕ) (s : Snapshot)
    → length wire ≡ 192
    → HasSlice s.stack
    → commit_payload wire tag s ≡ image (unmarked tag s)
payload-image wire tag s e h =
    let cells = tabulate-get_or 192 wire 0 e in
    ap (λ w. commit_payload w tag s) (sym cells)
    ∙ payload-image_cells (λ i. get_or wire i 0) tag s s.stack h

seal-image :
    (dump : Dump) (c : ℕ)
    → write_commit_marker (store_u32 (image dump) 32 c)
      ≡ image (record dump { magic = Format.magic; crc32 = c })
unfolding write_commit_marker write_magic store_u32 image
seal-image dump c = refl

-- A commit, of a stack record of 64 bytes or none, replaces the whole image of 192 bytes, whatever it
-- held before, by the image of the recorded dump with its checksum, and changes neither the user tag nor the cached dump.
pub commit_snapshot_lem :
    (slot : Slot) (s : Snapshot)
    → length slot.dump_wire ≡ 192
    → HasSlice s.stack
    → commit_snapshot slot s
      ≡ record slot { dump_wire = image (with_checksum (recorded slot.user_tag s)) }
unfolding commit_snapshot
commit_snapshot_lem slot s e h =
    let dump = unmarked slot.user_tag s in
    let payload = payload-image slot.dump_wire slot.user_tag s e h in
    let checksum = checksum-image (recorded slot.user_tag s) 0 0 in
    ap
      (λ w. record slot {
        dump_wire = write_commit_marker (store_u32 w 32 (crc32_with_zero_crc w));
      })
      payload
    ∙ ap (λ w. record slot { dump_wire = w })
        (seal-image dump (crc32_with_zero_crc (image dump))
          ∙ ap (λ c. image (record dump { magic = Format.magic; crc32 = c })) checksum)
