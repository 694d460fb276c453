-- ===== src/Slot.antt =====
-- The dump slot of src/panicdump.c: the static variables `g_dump_wire`, `g_user_tag` and
-- `g_cached_dump`, the calls that read and clear them, and `panicdump_commit_snapshot`.
pub mod Commit
pub mod Typed
pub mod Valid
pub mod Stores
pub mod Life
pub mod Events
use panicdump.Base.{ℕ, List, Bool, Option, none, some, if◌then◌else◌}
use panicdump.Wire.{store_u16, store_u32, zero_bytes}
use panicdump.Format
use panicdump.Dump.{Regs, Stack, Dump}
use panicdump.Fields.{
  write_u32_field, write_u16_field, crc32_with_zero_crc, write_regs, write_stack,
  decode_dump_fields,
}
use panicdump.Codec.{validate_wire}

pub record Slot : Type 0 where
  pub dump_wire : List ℕ
  pub user_tag : ℕ
  pub cached_dump : Dump

unfoldable pub has_valid : Slot → Bool
has_valid slot = validate_wire (some slot.dump_wire) Format.wire_total_size

unfoldable pub clear : Slot → Slot
clear slot = record slot { dump_wire = zero_bytes slot.dump_wire 0 Format.wire_total_size }

-- The pointer to the cached dump, if it is not null, as the dump that it points to.
unfoldable pub get : Slot → Option Dump × Slot
unfolding has_valid
get slot =
    if has_valid slot
    then (let dump = decode_dump_fields slot.dump_wire in
        (some dump, record slot { cached_dump = dump }))
    else (none, slot)

unfoldable pub set_user_tag : Slot → ℕ → Slot
set_user_tag slot tag = record slot { user_tag = tag }

unfoldable pub get_user_tag : Slot → ℕ
get_user_tag slot = slot.user_tag

-- One aligned store of a word, on a little-endian machine.
unfoldable pub write_magic : List ℕ → ℕ → List ℕ
unfolding store_u32
write_magic wire magic = store_u32 wire Format.magic_offset magic

-- The barrier before the store changes no memory.
unfoldable pub write_commit_marker : List ℕ → List ℕ
unfolding write_magic
write_commit_marker wire = write_magic wire Format.magic

-- What a commit is given: the arguments of `panicdump_commit_snapshot`, and `arch_id` for the
-- constant PANICDUMP_PORT_ARCH_ID of the port.
pub record Snapshot : Type 0 where
  pub arch_id : ℕ
  pub regs : Option Regs
  pub stack : Option Stack
  pub fault_reason : ℕ
  pub flags : ℕ
  pub exc_return : ℕ

unfoldable pub commit_header : List ℕ → ℕ → Snapshot → List ℕ
unfolding store_u16 store_u32
commit_header wire tag s =
    let wire1 = write_u16_field wire Format.version_offset Format.version in
    let wire2 = write_u16_field wire1 Format.header_size_offset Format.header_size in
    let wire3 = write_u32_field wire2 Format.total_size_offset Format.wire_total_size in
    let wire4 = write_u32_field wire3 Format.flags_offset s.flags in
    let wire5 = write_u32_field wire4 Format.arch_id_offset s.arch_id in
    let wire6 = write_u32_field wire5 Format.fault_reason_offset s.fault_reason in
    let wire7 = write_u32_field wire6 Format.sequence_offset s.exc_return in
    let wire8 = write_u32_field wire7 Format.user_tag_offset tag in
    write_u32_field wire8 Format.crc32_offset 0

unfoldable pub commit_regs : List ℕ → Option Regs → List ℕ
unfolding write_regs zero_bytes
commit_regs wire (some regs) = write_regs wire regs
commit_regs wire none = zero_bytes wire Format.regs_offset Format.regs_size

unfoldable pub commit_stack : List ℕ → Option Stack → List ℕ
unfolding write_stack zero_bytes
commit_stack wire (some stack) = write_stack wire stack
commit_stack wire none = zero_bytes wire Format.stack_offset Format.stack_size

-- The image before its checksum is stored: no magic, header, registers, stack slice.
unfoldable pub commit_payload : List ℕ → ℕ → Snapshot → List ℕ
unfolding write_magic commit_header commit_regs commit_stack
commit_payload wire tag s =
    let wire1 = write_magic wire 0 in
    let wire2 = commit_header wire1 tag s in
    let wire3 = commit_regs wire2 s.regs in commit_stack wire3 s.stack

unfoldable pub commit_snapshot : Slot → Snapshot → Slot
unfolding write_commit_marker
commit_snapshot slot s =
    let wire = commit_payload slot.dump_wire slot.user_tag s in
    let wire' = write_u32_field wire Format.crc32_offset (crc32_with_zero_crc wire) in
    record slot { dump_wire = write_commit_marker wire' }
