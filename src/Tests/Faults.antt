-- ===== src/Tests/Faults.antt =====
-- The theorems on faults and software triggers, on a machine with 64 KiB of RAM.
use panicdump.Base.{
  ℕ, ◌+◌, ◌%◌, ◌≤◌, ◌<◌, ◌≡◌, ◌≢◌, ◌↔◌, ◌⊎◌, refl, false, none, arith, List, [], ◌∷◌, some, true,
  ltb, leb, ◌&&◌, if◌then◌else◌,
}
use panicdump.Dump.{Dump}
use panicdump.Fields.Decode.{stored}
use panicdump.Slot.{Slot, has_valid, get, commit_snapshot}
use panicdump.Slot.Valid.{committed_dump}
use panicdump.Export.{Writer, boot_check_and_export}
use panicdump.Boot.{exported, boot-fault_handler_c}
use panicdump.Port.CortexM.{Core, frame_within_ram, exc_frame_safe, fault_handler_c, fault_entry}
use panicdump.Port.CortexM.Typed.{IsCore}
use panicdump.Port.CortexM.Fault.{expected_snapshot, get-fault_handler_c}
use panicdump.Port.CortexM.Entry.{fault_entry-sequence}
use panicdump.Port.CortexM.Safe.{frame_within_ram_iff}
use panicdump.Port.CortexM.Bus.{Bus, run_fault_handler}
use panicdump.Port.CortexM.Bus.Safe.{Answers, run_fault_handler-expected}
use panicdump.Demo.Vectors.{take_exception}
use panicdump.Demo.Vectors.Recorded.{take_exception-recorded}
use panicdump.Wire.{load_u32}
use panicdump.Slot.Events.{barrier, wrote}
use panicdump.Port.CortexM.Publish.{aircr}
use panicdump.Port.CortexM.Publish.Safe.{about_to_write, fault_events-published, fault_events-reset}
use panicdump.Tests.Samples.{
  used_slot, used_slot-IsSlot, board, board-IsBuild, stopped, stopped-IsMachine, pushed,
  pushed-IsMachine,
}

get-fault_handler_c_example :
    let slot' = fault_handler_c board stopped 0x2000FF00 2 0 0xFFFFFFF9 used_slot in
    let safe = exc_frame_safe board 0x2000FF00 in
    let s = expected_snapshot board stopped 0x2000FF00 2 0 0xFFFFFFF9 safe in
    (has_valid slot' ≡ true) × ((get slot').0 ≡ some (stored (committed_dump used_slot s)))
get-fault_handler_c_example =
    get-fault_handler_c board stopped used_slot 0x2000FF00 2 0 0xFFFFFFF9 board-IsBuild
      stopped-IsMachine used_slot-IsSlot (omega arith) (omega arith)

-- A stub that was entered with EXC_RETURN 0xFFFFFFFD records the 7 that r3 held.
fault_entry-sequence_example :
    (dump : Dump) × ((get (fault_entry board 3 stopped pushed 0xFFFFFFFD 7 used_slot)).0
      ≡ some dump)
    × (dump.sequence ≡ 7)
fault_entry-sequence_example =
    fault_entry-sequence board stopped pushed used_slot 3 0xFFFFFFFD 7 board-IsBuild
      pushed-IsMachine used_slot-IsSlot (omega arith) (omega arith)

frame_within_ram_iff_example :
    (frame_within_ram board 0x2000FFC0 ≡ true)
    ↔ ((0x20000000 ≤ 0x2000FFC0) × (0x2000FFC0 + 64 ≤ 0x20010000) × ◌≡◌ {A = ℕ} (0x2000FFC0 % 4) 0)
frame_within_ram_iff_example = frame_within_ram_iff board 0x2000FFC0 (omega arith) (omega arith)

-- A bus that answers in the RAM only.
abbrev ram_only : Bus
ram_only a = if leb 0x20000000 a && ltb a 0x20010000 then some (a % 251) else none

ram_only-Answers : Answers ram_only (λ a. a % 251) 0x20000000 0x20010000
ram_only-Answers a lo hi = ground arith

run_fault_handler-expected_example :
    let safe = exc_frame_safe board 0x2000FFC0 in
    run_fault_handler board ram_only stopped 0x2000FFC0 3 0 0xFFFFFFF9 used_slot
    ≡ some
        (commit_snapshot used_slot (expected_snapshot board stopped 0x2000FFC0 3 0 0xFFFFFFF9 safe))
run_fault_handler-expected_example =
    run_fault_handler-expected board ram_only stopped (omega arith) (omega arith) ram_only-Answers
      used_slot 0x2000FFC0 3 0 0xFFFFFFF9

abbrev calling : Core
calling = record {
  gp = λ _. 0x11111111;
  sp_val = 0x20006000;
  lr_val = 0x08000101;
  pc_val = 0x08000200;
}

calling-IsCore : IsCore calling
calling-IsCore = grind arith

-- A BusFault of the demo, with the 7 that r3 held.
take_exception-recorded_example :
    (((5 < 3) ⊎ (7 ≤ 5)) × (take_exception board stopped pushed 5 0xFFFFFFF9 7 used_slot ≡ none))
    ⊎ ((3 ≤ 5)
        × (5 ≤ 6)
        × ((slot' : Slot) × (dump : Dump) × (take_exception board stopped pushed 5 0xFFFFFFF9 7
                used_slot
              ≡ some slot')
            × ((get slot').0 ≡ some dump)
            × (5 ≡ dump.fault_reason + 2)
            × (dump.user_tag ≡ used_slot.user_tag)))
take_exception-recorded_example =
    take_exception-recorded board stopped pushed used_slot 5 0xFFFFFFF9 7 board-IsBuild
      pushed-IsMachine used_slot-IsSlot (omega arith)

-- A callback that counts, and takes 100 characters.
abbrev count : ℕ → Writer ℕ
count c n = (ltb n 100, n + 1)

boot-fault_handler_c_example :
    let crashed = fault_handler_c board stopped 0x2000FF00 2 0 0xFFFFFFF9 used_slot in
    let safe = exc_frame_safe board 0x2000FF00 in
    let c = expected_snapshot board stopped 0x2000FF00 2 0 0xFFFFFFF9 safe in
    boot_check_and_export (some count) crashed 0
    ≡ exported count 0 used_slot (committed_dump used_slot c)
boot-fault_handler_c_example =
    boot-fault_handler_c count 0 board stopped used_slot 0x2000FF00 2 0 0xFFFFFFF9 board-IsBuild
      stopped-IsMachine used_slot-IsSlot (omega arith) (omega arith)

-- A fault on a slot whose first bytes are leftover, seen where the reset is requested.
abbrev landed : List ℕ
landed = (fault_events-reset board stopped 0x2000FF00 2 0 0xFFFFFFF9 used_slot).0

leftover_magic : load_u32 used_slot.dump_wire 0 ≢ 0x50444331
unfolding load_u32
leftover_magic e = absurd (omega (arith, e))

fault_events-published_example :
    let slot' = fault_handler_c board stopped 0x2000FF00 2 0 0xFFFFFFF9 used_slot in
    ((has_valid (record used_slot { dump_wire = landed }) ≡ false) ⊎ (landed ≡ slot'.dump_wire))
    × ((about_to_write (wrote aircr 0x05FA0004 ∷ barrier ∷ []) ≡ false)
        ⊎ (landed ≡ slot'.dump_wire))
fault_events-published_example =
    fault_events-published false board stopped 0x2000FF00 2 0 0xFFFFFFF9 used_slot
      (wrote aircr 0x05FA0004 ∷ barrier ∷ []) landed [] refl leftover_magic
      (fault_events-reset board stopped 0x2000FF00 2 0 0xFFFFFFF9 used_slot).1
