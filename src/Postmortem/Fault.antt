-- ===== src/Postmortem/Fault.antt =====
-- From a fault through an entry stub, over the reset, to the report.
use panicdump.Port.CortexM.Safe.{frame_within_ram_iff, frame_regs_same}
use panicdump.Fields.Decode.{stored}
use panicdump.Slot.Valid.{committed_dump}
use panicdump.Decoder.Parse.Agree.{decoded}
use panicdump.Slot.Commit.{stack_or_zero}
use panicdump.Dump.{IsBytes, zero_regs}
use panicdump.Postmortem.{slice_at_fault}
use panicdump.Base.{
  tabulate_ext, ap, u32, ◌⊎◌, ℕ, ◌+◌, ◌*◌, ◌^◌, ◌≤◌, ◌<◌, ◌≡◌, refl, ◌∙◌, sym, arith, List, Bool,
  true, false, some, length, bit_and, ◌==◌, length-tabulate, Bool-cases, inl, inr,
}
use panicdump.Wire.Word.{tabulate-IsBytes}
use panicdump.Crc.{crc32}
use panicdump.Dump.{Dump}
use panicdump.Slot.{Slot}
use panicdump.Slot.Typed.{IsSlot}
use panicdump.Slot.Commit.{regs_or_zero}
use panicdump.Port.CortexM.{
  Build, Machine, Prologue, in_handler, frame_within_ram, exc_frame_safe, read_special_regs,
  frame_regs, fault_entry,
}
use panicdump.Port.CortexM.Typed.{IsMachine, IsBuild}
use panicdump.Port.CortexM.Fault.{expected_regs, expected_snapshot}
use panicdump.Port.CortexM.Entry.{
  entry_snapshot, fault_entry-commit, entry_snapshot-parts, entry-IsSnapshot, entry-IsAccepted,
}
use panicdump.Demo.Startup.{Memory, Symbols, reset_handler}
use panicdump.Demo.Startup.Loops.{AllBytes}
use panicdump.Demo.Startup.Retain.{IsLaidOut, slot_at, reset_handler-IsStarted}
use panicdump.Postmortem.{entry_frame, regs_at_fault, IsReported}
use panicdump.Postmortem.Commit.{commit-IsReported}

-- The prologue spares the 64 bytes from an address on.
abbrev pub Spares : Prologue → Machine → ℕ → Type 0
Spares pro m frame = (a : ℕ) → frame ≤ a → a < frame + 64 → pro.memory a ≡ m.memory a

-- A build whose RAM is these 64 bytes.
abbrev window : ℕ → Build
window frame = record { ram_base = frame; ram_end = frame + 64; arch_id = 3 }

expected-regs_at_fault :
    (m : Machine) (pro : Prologue) (frame : ℕ) (safe : Bool)
    → Spares pro m frame
    → expected_regs (in_handler m pro) frame safe ≡ regs_at_fault m pro frame safe
unfolding read_special_regs frame_regs
expected-regs_at_fault m pro frame true spares = ap (read_special_regs (in_handler m pro)) (
    frame_regs_same (window frame) (in_handler m pro) m.memory spares frame zero_regs (omega arith)
      (omega arith))
expected-regs_at_fault m pro frame false spares = refl

expected-slice_at_fault :
    (b : Build) (m : Machine) (pro : Prologue) (slot : Slot) (frame reason use_psp exc_return : ℕ)
    (safe : Bool)
    → Spares pro m frame
    → let s = expected_snapshot b (in_handler m pro) frame reason use_psp exc_return safe in
      (decoded (stored (committed_dump slot s))).stack_data ≡ slice_at_fault m frame safe
expected-slice_at_fault b m pro slot frame reason use_psp exc_return true spares =
    tabulate_ext 64 frame pro.memory m.memory spares
expected-slice_at_fault b m pro slot frame reason use_psp exc_return false spares = refl

module _ (b : Build) (m : Machine) (pro : Prologue) (reason lr r3 : ℕ)
    (spares : Spares pro m (entry_frame m lr)) where
  entry_regs :
      regs_or_zero (entry_snapshot b m pro reason lr r3).regs
      ≡ regs_at_fault m pro (entry_frame m lr) (exc_frame_safe b (entry_frame m lr))
  entry_regs = elim (Bool-cases (bit_and lr 4 == 0)) [
    | inl e ↦ rw e (expected-regs_at_fault m pro m.msp (exc_frame_safe b m.msp) (rw e at spares))
    | inr e ↦ rw e (expected-regs_at_fault m pro m.psp (exc_frame_safe b m.psp) (rw e at spares))
  ]

  entry_slice :
      (slot : Slot)
      → (decoded (stored (committed_dump slot (entry_snapshot b m pro reason lr r3)))).stack_data
        ≡ slice_at_fault m (entry_frame m lr) (exc_frame_safe b (entry_frame m lr))
  entry_slice slot = elim (Bool-cases (bit_and lr 4 == 0)) [
    | inl e ↦ rw e (
        expected-slice_at_fault b m pro slot m.msp reason 0 r3 (exc_frame_safe b m.msp)
          (rw e at spares))
    | inr e ↦ rw e (
        expected-slice_at_fault b m pro slot m.psp reason 1 r3 (exc_frame_safe b m.psp)
          (rw e at spares))
  ]

entry_sp :
    (b : Build) (m : Machine) (pro : Prologue) (reason lr r3 : ℕ)
    → (stack_or_zero (entry_snapshot b m pro reason lr r3).stack).captured_sp
      ≡ u32 (entry_frame m lr)
entry_sp b m pro reason lr r3 = elim (Bool-cases (bit_and lr 4 == 0)) [
  | inl e ↦ rw e refl
  | inr e ↦ rw e refl
]

slice_at_fault-IsBytes :
    (m : Machine) (frame : ℕ) (safe : Bool)
    → AllBytes m.memory
    → IsBytes (slice_at_fault m frame safe)
slice_at_fault-IsBytes m frame true bytes = tabulate-IsBytes 64 frame m.memory bytes
slice_at_fault-IsBytes m frame false bytes = tt

slice-size :
    (b : Build) (m : Machine) (frame sp : ℕ)
    → IsBuild b
    → 64 ≤ b.ram_end
    → sp ≡ u32 frame
    → let slice = slice_at_fault m frame (exc_frame_safe b frame) in
      (length slice ≡ 0) ⊎ ((length slice ≡ 64) × (sp + 48 < 2 ^ 32))
unfolding exc_frame_safe
slice-size b m frame sp built room same = elim (Bool-cases (frame_within_ram b frame)) [
  | inl safe ↦
      let within = (frame_within_ram_iff b frame room built.ram_end).0 safe in
      rw safe (inr (refl, omega (arith, within.1, built.ram_end, same)))
  | inr outside ↦ rw outside (inl refl)
]

pub slot_at-IsSlot :
    (memory : Memory) (w t : ℕ) (d : Dump) → AllBytes memory → IsSlot (slot_at memory w t d)
slot_at-IsSlot memory w t d bytes = record {
  wire_length = length-tabulate 192 w memory;
  wire_bytes = tabulate-IsBytes 192 w memory bytes;
  user_tag = omega (arith, bytes t, bytes (t + 1), bytes (t + 2), bytes (t + 3));
}

module _ (zlib_crc32 : List ℕ → ℕ) (zlib : (s : List ℕ) → zlib_crc32 s ≡ crc32 s (length s)) where
  fault_entry-IsReported :
      (forensic : Bool) (b : Build) (m : Machine) (pro : Prologue) (slot : Slot) (reason lr r3 : ℕ)
      → IsBuild b
      → IsMachine (in_handler m pro)
      → AllBytes m.memory
      → Spares pro m (entry_frame m lr)
      → IsSlot slot
      → 64 ≤ b.ram_end
      → reason ≤ 5
      → r3 < 2 ^ 32
      → IsReported zlib_crc32 forensic
          (fault_entry b reason m pro lr r3 slot)
          (regs_at_fault m pro (entry_frame m lr) (exc_frame_safe b (entry_frame m lr)))
          (slice_at_fault m (entry_frame m lr) (exc_frame_safe b (entry_frame m lr)))
          reason
          r3
  fault_entry-IsReported forensic b m pro slot reason lr r3 built sound whole spares typed room
        known ret =
      let s = entry_snapshot b m pro reason lr r3 in
      let frame = entry_frame m lr in
      let safe = exc_frame_safe b frame in
      let (same_return, same_reason) =
        entry_snapshot-parts b m pro reason lr r3 built sound known ret in
      let done =
        commit-IsReported zlib_crc32 zlib forensic slot s typed
          (entry-IsSnapshot b m pro reason lr r3 built sound known ret)
          (entry-IsAccepted b m pro reason lr r3 built sound known ret)
          (slice_at_fault m frame safe) (entry_slice b m pro reason lr r3 spares slot)
          (slice_at_fault-IsBytes m frame safe whole)
          (slice-size b m frame (stack_or_zero s.stack).captured_sp built room
            (entry_sp b m pro reason lr r3)) in
      rw (fault_entry-commit b m pro slot reason lr r3, ← entry_regs b m pro reason lr r3 spares)
        (rw (same_return, same_reason) at done)

  -- A fault enters through a stub, with a reason that the format knows. The end of RAM is at least 64,
  -- and the prologue of the handler moves MSP and writes the stack, but none of the 64 bytes from the
  -- frame on. Then a reset finds, where .noinit has the library's variables, what the fault handler
  -- left there, and any bytes elsewhere. With the sections of the linker script in order and aligned,
  -- the start-up code gets to `main`; there `panicdump_boot_check_and_export` passes a text to its
  -- callback and clears the slot, and the decoder, given this text with `--hex`, prints a report with
  -- exit status 0. Its lines show the registers of the machine at the fault, which are the special
  -- ones, with MSP as the prologue has left it, and, if the frame passes the test, those of the frame;
  -- then also the 64 bytes of stack from the frame on; the name of the fault; and as the exception
  -- return r3 as the fault found it. `zlib.crc32` is taken to be the CRC-32 of the format.
  pub fault_entry-reset_handler-main :
      (forensic : Bool) (b : Build) (m : Machine) (pro : Prologue) (reason lr r3 : ℕ) (fuel : ℕ)
      (sym : Symbols) (noinit w t : ℕ) (memory : Memory)
      → IsBuild b
      → IsMachine (in_handler m pro)
      → AllBytes m.memory
      → Spares pro m (entry_frame m lr)
      → 64 ≤ b.ram_end
      → reason ≤ 5
      → r3 < 2 ^ 32
      → IsLaidOut sym noinit
      → AllBytes memory
      → noinit < sym.sdata + fuel * 4
      → ((d : Dump)
          → slot_at memory (noinit + w) (noinit + t) d
            ≡ fault_entry b reason m pro lr r3 (slot_at pro.memory (noinit + w) (noinit + t) d))
      → (memory' : Memory) × (reset_handler fuel sym memory ≡ some memory')
        × ((start_up : Dump)
            → IsReported zlib_crc32 forensic
                (slot_at memory' (noinit + w) (noinit + t) start_up)
                (regs_at_fault m pro (entry_frame m lr) (exc_frame_safe b (entry_frame m lr)))
                (slice_at_fault m (entry_frame m lr) (exc_frame_safe b (entry_frame m lr)))
                reason
                r3)
  fault_entry-reset_handler-main forensic b m pro reason lr r3 fuel sym noinit w t memory built
        sound whole spares room known ret laid bytes enough kept =
      let (memory', started, state) =
        reset_handler-IsStarted fuel sym noinit memory laid bytes enough in
      (
        memory',
        started,
        λ start_up.
            let there = slot_at pro.memory (noinit + w) (noinit + t) start_up in
            rw (state.slot w t start_up ∙ kept start_up) (
              fault_entry-IsReported forensic b m pro there reason lr r3 built sound whole spares
                (slot_at-IsSlot pro.memory (noinit + w) (noinit + t) start_up sound.memory) room
                known ret),
      )
