-- ===== src/Port/CortexM/Bus.antt =====
-- `panicdump_fault_handler_c` of src/panicdump_port_cortexm.c on a memory where an access can fail: a
-- load at an address that the bus does not answer is `none`, and so is the handler then.
pub mod Safe
use panicdump.Base.{
  ℕ, zero, suc, ◌+◌, ◌*◌, ◌^◌, List, Option, some, ◌>>=◌, bit_or, set, ◌==◌, ◌!=◌, if◌then◌else◌,
  u32,
}
use panicdump.Format
use panicdump.Dump.{Stack, zero_regs, zero_stack}
use panicdump.Slot.{Slot, Snapshot, commit_snapshot}
use panicdump.Port.CortexM.{
  Build, Machine, ExcFrame, frame_within_ram, exc_frame_safe, read_special_regs,
}

-- The byte at each address, if there is one.
abbrev pub Bus : Type 0
Bus = ℕ → Option ℕ

unfoldable pub load_word : Bus → ℕ → Option ℕ
load_word bus addr = do
  b0 ← bus addr
  b1 ← bus (addr + 1)
  b2 ← bus (addr + 2)
  b3 ← bus (addr + 3)
  some (b0 + b1 * 2 ^ 8 + b2 * 2 ^ 16 + b3 * 2 ^ 24)

-- The eight loads through `frame`.
unfoldable pub load_exc_frame : Bus → ℕ → Option ExcFrame
load_exc_frame bus exc_frame = do
  r0 ← load_word bus exc_frame
  r1 ← load_word bus (exc_frame + 4)
  r2 ← load_word bus (exc_frame + 8)
  r3 ← load_word bus (exc_frame + 12)
  r12 ← load_word bus (exc_frame + 16)
  lr ← load_word bus (exc_frame + 20)
  pc ← load_word bus (exc_frame + 24)
  xpsr ← load_word bus (exc_frame + 28)
  some (record { r0 = r0; r1 = r1; r2 = r2; r3 = r3; r12 = r12; lr = lr; pc = pc; xpsr = xpsr })

-- `panicdump_copy_bytes` from an address.
unfoldable pub load_bytes : List ℕ → ℕ → Bus → ℕ → ℕ → Option (List ℕ)
load_bytes dst off bus addr zero = some dst
load_bytes dst off bus addr (suc len) = do
  byte ← bus addr
  load_bytes (set dst off byte) (off + 1) bus (addr + 1) len

module _ (build : Build) (bus : Bus) where
  -- `panicdump_capture_stack_slice`
  unfoldable pub load_stack_slice : ℕ → Option Stack
  load_stack_slice frame =
      let out = record zero_stack { captured_sp = u32 frame } in
      if frame_within_ram build frame
      then (load_bytes out.slice 0 bus frame Format.stack_slice_bytes >>= λ slice.
          some (record out { stack_bytes = Format.stack_slice_bytes; slice = slice }))
      else some out

  -- The memory of the machine is not used.
  unfoldable pub load_snapshot : Machine → ℕ → ℕ → ℕ → ℕ → Option Snapshot
  load_snapshot m exc_frame fault_reason use_psp exc_return =
      let flags1 = if use_psp != 0 then bit_or 0 Format.flag_use_psp else 0 in
      if exc_frame_safe build exc_frame
      then (load_exc_frame bus exc_frame >>= λ frame.
          let regs = record zero_regs {
            r0 = frame.r0;
            r1 = frame.r1;
            r2 = frame.r2;
            r3 = frame.r3;
            r12 = frame.r12;
            lr = frame.lr;
            pc = frame.pc;
            xpsr = frame.xpsr;
          } in
          let flags2 = bit_or flags1 Format.flag_frame_valid in
          load_stack_slice exc_frame >>= λ stack.
          let flags3 =
            if stack.stack_bytes == Format.stack_slice_bytes
            then bit_or flags2 Format.flag_stack_valid
            else flags2 in
          some (record {
            arch_id = build.arch_id;
            regs = some (read_special_regs m regs);
            stack = some stack;
            fault_reason = fault_reason;
            flags = flags3;
            exc_return = exc_return;
          }))
      else some (record {
        arch_id = build.arch_id;
        regs = some (read_special_regs m zero_regs);
        stack = some (record zero_stack { captured_sp = u32 exc_frame; stack_bytes = 0 });
        fault_reason = fault_reason;
        flags = bit_or flags1 Format.flag_invalid_frame;
        exc_return = exc_return;
      })

  unfoldable pub run_fault_handler : Machine → ℕ → ℕ → ℕ → ℕ → Slot → Option Slot
  run_fault_handler m exc_frame fault_reason use_psp exc_return slot = do
    snapshot ← load_snapshot m exc_frame fault_reason use_psp exc_return
    some (commit_snapshot slot snapshot)
