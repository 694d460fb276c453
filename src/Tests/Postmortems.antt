-- ===== src/Tests/Postmortems.antt =====
-- The whole way of a dump, on a machine with 64 KiB of RAM.
use panicdump.Base.{
  ℕ, ◌-◌, ◌≡◌, false, refl, sym, ap, ◌∙◌, arith, List, some, ◌&&◌, leb, ltb, if◌then◌else◌, length,
  tabulate, tabulate-get_or,
}
use panicdump.Dump.{Dump, IsBytes}
use panicdump.Crc.{crc32}
use panicdump.Wire.{byte_at}
use panicdump.Slot.{Slot, commit_snapshot}
use panicdump.Port.CortexM.{exc_frame_safe, fault_entry, fault_handler_c, word_at}
use panicdump.Demo.Startup.{Memory, reset_handler}
use panicdump.Demo.Startup.Loops.{AllBytes}
use panicdump.Demo.Startup.Retain.{slot_at}
use panicdump.Port.CortexM.Entry.{entry_snapshot, entry-IsSnapshot, fault_entry-commit}
use panicdump.Slot.Valid.{commit-IsSlot}
use panicdump.Wire.Word.{byte_at-lt}
use panicdump.Slot.Typed.{IsSlot}
use panicdump.Postmortem.{IsReported, entry_frame, regs_at_fault, slice_at_fault}
use panicdump.Postmortem.Fault.{Spares, slot_at-IsSlot, fault_entry-reset_handler-main}
use panicdump.Tests.Samples.{
  board, board-IsBuild, stopped, stopped-IsMachine, pushed, pushed-IsMachine, sample_dump,
}
use panicdump.Tests.Demos.{sections, sections-IsLaidOut}

-- A BusFault with r3 = 7, on the main stack.
abbrev left : Dump → Slot
left d =
    fault_entry board 3 stopped pushed 0xFFFFFFF9 7 (slot_at pushed.memory 0x20000104 0x200001C4 d)

abbrev wire_left : List ℕ
wire_left = (left sample_dump).dump_wire

same_left :
    (d : Dump)
    → left d ≡ record {
      dump_wire = wire_left;
      user_tag = word_at pushed.memory 0x200001C4;
      cached_dump = d;
    }
unfolding fault_entry fault_handler_c commit_snapshot
same_left d = refl

left-IsSlot : IsSlot (left sample_dump)
left-IsSlot =
    let slot = slot_at pushed.memory 0x20000104 0x200001C4 sample_dump in
    rw (fault_entry-commit board stopped pushed slot 3 0xFFFFFFF9 7) (
      commit-IsSlot slot (entry_snapshot board stopped pushed 3 0xFFFFFFF9 7)
        (slot_at-IsSlot pushed.memory 0x20000104 0x200001C4 sample_dump pushed-IsMachine.memory)
        (entry-IsSnapshot board stopped pushed 3 0xFFFFFFF9 7 board-IsBuild pushed-IsMachine
          (omega arith) (omega arith)))

-- The memory of the machine, with an image of 192 bytes at 0x20000104.
abbrev with_wire : List ℕ → Memory
with_wire wire a =
    if leb 0x20000104 a && ltb a 0x200001C4 then byte_at wire (a - 0x20000104) else pushed.memory a

with_wire-AllBytes : (wire : List ℕ) → IsBytes wire → AllBytes (with_wire wire)
with_wire-AllBytes wire bytes a = ground (arith, byte_at-lt wire (a - 0x20000104) bytes)

tabulate-with_wire :
    (wire : List ℕ) → length wire ≡ 192 → tabulate 192 0x20000104 (with_wire wire) ≡ wire
tabulate-with_wire wire full = tabulate-get_or 192 wire 0 full

abbrev at_reset : Memory
at_reset = with_wire wire_left

at_reset-left : (d : Dump) → slot_at at_reset 0x20000104 0x200001C4 d ≡ left d
at_reset-left d =
    ap
      (λ (l : List ℕ). record {
        dump_wire = l;
        user_tag = word_at pushed.memory 0x200001C4;
        cached_dump = d;
      })
      (tabulate-with_wire wire_left left-IsSlot.wire_length)
    ∙ sym (same_left d)

pushed-Spares : Spares pushed stopped 0x2000FF00
pushed-Spares a lo hi = ground arith

fault_entry-reset_handler-main_example :
    (memory' : Memory) × (reset_handler 100 sections at_reset ≡ some memory')
    × ((start_up : Dump)
        → IsReported
            (λ s. crc32 s (length s))
            false
            (slot_at memory' 0x20000104 0x200001C4 start_up)
            (regs_at_fault stopped pushed
              (entry_frame stopped 0xFFFFFFF9)
              (exc_frame_safe board (entry_frame stopped 0xFFFFFFF9)))
            (slice_at_fault stopped
              (entry_frame stopped 0xFFFFFFF9)
              (exc_frame_safe board (entry_frame stopped 0xFFFFFFF9)))
            3
            7)
fault_entry-reset_handler-main_example =
    fault_entry-reset_handler-main (λ s. crc32 s (length s)) (λ s. refl) false board stopped pushed
      3 0xFFFFFFF9 7 100 sections 0x20000104 0 192 at_reset board-IsBuild pushed-IsMachine
      stopped-IsMachine.memory pushed-Spares (omega arith) (omega arith) (omega arith)
      sections-IsLaidOut (with_wire-AllBytes wire_left left-IsSlot.wire_bytes) (omega arith)
      at_reset-left
