-- ===== src/Postmortem.antt =====
-- The whole way of a dump: a fault enters through a stub of ports/cortexm/panicdump_fault_entry.S, the next
-- reset runs the start-up code of examples/stm32f4_demo, the application exports the dump, and
-- tools/decode_panicdump.py makes a report of the text.
pub mod Commit
pub mod Fault
use panicdump.Base.{
  ℕ, ◌+◌, ◌≡◌, List, [], ◌++◌, Bool, true, false, some, bit_and, ◌==◌, if◌then◌else◌, tabulate,
}
use panicdump.Dump.{Regs}
use panicdump.Slot.{Slot, has_valid}
use panicdump.Export.{codes, ok, boot_check_and_export}
use panicdump.Port.CortexM.{Machine, Prologue, word_at}
use panicdump.Decoder.Dicts.{fault_name}
use panicdump.Decoder.Main.{Arguments, report, main}
use panicdump.Decoder.Pipeline.{collect}
use panicdump.Decoder.Report.Split.{split_lines}
use panicdump.Decoder.Report.Slice.{shown_slice}
use panicdump.Decoder.Report.ReadBack.{shown_regs, line_at, word_on}

-- The stack pointer that was in use, by bit 2 of EXC_RETURN.
abbrev pub entry_frame : Machine → ℕ → ℕ
entry_frame m lr = if bit_and lr 4 == 0 then m.msp else m.psp

-- The eight words that the exception has pushed, if they can be read, and the special registers, of
-- which MSP is as the prologue of the handler has left it.
abbrev pub regs_at_fault : Machine → Prologue → ℕ → Bool → Regs
regs_at_fault m pro frame safe =
    let pushed = λ (addr : ℕ). if safe then word_at m.memory addr else 0 in
    record {
      r0 = pushed frame;
      r1 = pushed (frame + 4);
      r2 = pushed (frame + 8);
      r3 = pushed (frame + 12);
      r12 = pushed (frame + 16);
      lr = pushed (frame + 20);
      pc = pushed (frame + 24);
      xpsr = pushed (frame + 28);
      msp = pro.msp;
      psp = m.psp;
      control = m.control;
      primask = m.primask;
      basepri = m.basepri;
      faultmask = m.faultmask;
      cfsr = m.device 0xE000ED28;
      hfsr = m.device 0xE000ED2C;
      dfsr = m.device 0xE000ED30;
      mmfar = m.device 0xE000ED34;
      bfar = m.device 0xE000ED38;
      afsr = m.device 0xE000ED3C;
      shcsr = m.device 0xE000ED24;
    }

-- The 64 bytes from the stack pointer on, if they can be read.
abbrev pub slice_at_fault : Machine → ℕ → Bool → List ℕ
slice_at_fault m frame safe = if safe then tabulate 64 frame m.memory else []

abbrev pub framed : Bool → Arguments
framed forensic = record { hex = true; json = false; verify = false; forensic = forensic }

-- A boot exports the dump of a slot to a file, of which the decoder prints a report with exit status 0 that
-- shows the registers, the stack slice, the name of the fault and the exception return, and the slot is clear.
pub record IsReported (zlib_crc32 : List ℕ → ℕ) (forensic : Bool) (slot : Slot) (regs : Regs)
    (slice : List ℕ) (reason exc_return : ℕ) : Type 0 where
  pub slot' : Slot
  pub text : List ℕ
  pub page : List ℕ
  pub exported : boot_check_and_export (some collect) slot [] ≡ (ok, slot', text)
  pub cleared : has_valid slot' ≡ false
  pub printed : main zlib_crc32 (framed forensic) (some text) ≡ (report page, 0)
  pub shown : shown_regs (split_lines page) ≡ regs
  pub sliced : shown_slice (split_lines page) ≡ slice
  pub fault : line_at (split_lines page) 5 ≡ codes "  fault       : " ++ fault_name reason []
  pub returned : word_on (line_at (split_lines page) 7) ≡ exc_return
