-- ===== src/Port/CortexM.antt =====
-- src/panicdump_port_cortexm.c, and the entry stubs of ports/cortexm/panicdump_fault_entry.S. What the
-- inline assembly and the device registers yield is given with the machine.
pub mod Typed
pub mod Fault
pub mod Entry
pub mod Safe
pub mod Bus
pub mod Publish
use panicdump.Base.{
  ℕ, zero, suc, ◌+◌, ◌-◌, ◌*◌, ◌^◌, ◌%◌, List, Bool, some, bit_and, bit_or, set, leb, ◌==◌, ◌!=◌,
  ◌&&◌, if◌then◌else◌, u32,
}
use panicdump.Format
use panicdump.Dump.{Regs, Stack, zero_regs, zero_stack}
use panicdump.Slot.{Slot, Snapshot, commit_snapshot}

-- PANICDUMP_RAM_BASE, PANICDUMP_RAM_END and PANICDUMP_PORT_ARCH_ID of the build.
pub record Build : Type 0 where
  pub ram_base : ℕ
  pub ram_end : ℕ
  pub arch_id : ℕ

-- The memory by bytes, the device registers by address, and the special registers.
pub record Machine : Type 0 where
  pub memory : ℕ → ℕ
  pub device : ℕ → ℕ
  pub msp : ℕ
  pub psp : ℕ
  pub control : ℕ
  pub primask : ℕ
  pub basepri : ℕ
  pub faultmask : ℕ

-- What the prologue that the compiler gives to `panicdump_fault_handler_c` leaves: it runs on the main
-- stack, moves MSP and writes the stack.
pub record Prologue : Type 0 where
  pub msp : ℕ
  pub memory : ℕ → ℕ

-- The machine as the body of `panicdump_fault_handler_c` finds it.
abbrev pub in_handler : Machine → Prologue → Machine
in_handler m pro = record m { msp = pro.msp; memory = pro.memory }

-- The general registers as the inline assembly of `panicdump_port_capture_sw_regs` finds them.
pub record Core : Type 0 where
  pub gp : ℕ → ℕ
  pub sp_val : ℕ
  pub lr_val : ℕ
  pub pc_val : ℕ

-- A word of the memory.
abbrev pub word_at : (ℕ → ℕ) → ℕ → ℕ
word_at memory addr =
    memory addr
    + memory (addr + 1) * 2 ^ 8
    + memory (addr + 2) * 2 ^ 16
    + memory (addr + 3) * 2 ^ 24

-- `panicdump_copy_bytes` from an address.
unfoldable pub copy_memory : List ℕ → ℕ → (ℕ → ℕ) → ℕ → ℕ → List ℕ
copy_memory dst off memory addr zero = dst
copy_memory dst off memory addr (suc len) =
    copy_memory (set dst off (memory addr)) (off + 1) memory (addr + 1) len

module _ (build : Build) where
  -- The subtraction wraps at 32 bits.
  unfoldable pub frame_within_ram : ℕ → Bool
  frame_within_ram addr =
      leb build.ram_base addr
      && (leb addr ((build.ram_end + 2 ^ 32 - Format.stack_slice_bytes) % 2 ^ 32)
          && bit_and addr 0x3 == 0)

  unfoldable pub exc_frame_safe : ℕ → Bool
  exc_frame_safe exc_frame = frame_within_ram exc_frame

  unfoldable pub capture_stack_slice : Machine → ℕ → Stack
  unfolding copy_memory
  capture_stack_slice m frame =
      let out = record zero_stack { captured_sp = u32 frame } in
      if frame_within_ram frame
      then record out {
        stack_bytes = Format.stack_slice_bytes;
        slice = copy_memory out.slice 0 m.memory frame Format.stack_slice_bytes;
      }
      else out

abbrev scb_cfsr : ℕ
scb_cfsr = 0xE000ED28

abbrev scb_hfsr : ℕ
scb_hfsr = 0xE000ED2C

abbrev scb_dfsr : ℕ
scb_dfsr = 0xE000ED30

abbrev scb_mmfar : ℕ
scb_mmfar = 0xE000ED34

abbrev scb_bfar : ℕ
scb_bfar = 0xE000ED38

abbrev scb_afsr : ℕ
scb_afsr = 0xE000ED3C

abbrev scb_shcsr : ℕ
scb_shcsr = 0xE000ED24

unfoldable pub read_special_regs : Machine → Regs → Regs
read_special_regs m regs = record regs {
  msp = m.msp;
  psp = m.psp;
  control = m.control;
  primask = m.primask;
  basepri = m.basepri;
  faultmask = m.faultmask;
  cfsr = m.device scb_cfsr;
  hfsr = m.device scb_hfsr;
  dfsr = m.device scb_dfsr;
  mmfar = m.device scb_mmfar;
  bfar = m.device scb_bfar;
  afsr = m.device scb_afsr;
  shcsr = m.device scb_shcsr;
}

-- `cortexm_exc_frame_t`
pub record ExcFrame : Type 0 where
  pub r0 : ℕ
  pub r1 : ℕ
  pub r2 : ℕ
  pub r3 : ℕ
  pub r12 : ℕ
  pub lr : ℕ
  pub pc : ℕ
  pub xpsr : ℕ

-- The frame at an address, which `panicdump_fault_handler_c` has cast to a pointer to one.
abbrev pub frame_at : (ℕ → ℕ) → ℕ → ExcFrame
frame_at memory exc_frame = record {
  r0 = word_at memory exc_frame;
  r1 = word_at memory (exc_frame + 4);
  r2 = word_at memory (exc_frame + 8);
  r3 = word_at memory (exc_frame + 12);
  r12 = word_at memory (exc_frame + 16);
  lr = word_at memory (exc_frame + 20);
  pc = word_at memory (exc_frame + 24);
  xpsr = word_at memory (exc_frame + 28);
}

-- The registers of the frame.
unfoldable pub frame_regs : Machine → ℕ → Regs → Regs
frame_regs m exc_frame regs =
    let frame = frame_at m.memory exc_frame in
    record regs {
      r0 = frame.r0;
      r1 = frame.r1;
      r2 = frame.r2;
      r3 = frame.r3;
      r12 = frame.r12;
      lr = frame.lr;
      pc = frame.pc;
      xpsr = frame.xpsr;
    }

-- `out_regs` before the special registers are read.
abbrev pub core_regs : Core → Regs
core_regs core = record zero_regs {
  r0 = core.gp 0;
  r1 = core.gp 1;
  r2 = core.gp 2;
  r3 = core.gp 3;
  r12 = core.gp 12;
  lr = core.lr_val;
  pc = core.pc_val;
  xpsr = 0;
  msp = 0;
  psp = 0;
}

module _ (build : Build) where
  -- The snapshot that `panicdump_fault_handler_c` commits.
  unfoldable pub fault_snapshot : Machine → ℕ → ℕ → ℕ → ℕ → Snapshot
  unfolding read_special_regs
  fault_snapshot m exc_frame fault_reason use_psp exc_return =
      let flags1 = if use_psp != 0 then bit_or 0 Format.flag_use_psp else 0 in
      if exc_frame_safe build exc_frame
      then (let regs = frame_regs m exc_frame zero_regs in
          let flags2 = bit_or flags1 Format.flag_frame_valid in
          let stack = capture_stack_slice build m exc_frame in
          let flags3 =
            if stack.stack_bytes == Format.stack_slice_bytes
            then bit_or flags2 Format.flag_stack_valid
            else flags2 in
          record {
            arch_id = build.arch_id;
            regs = some (read_special_regs m regs);
            stack = some stack;
            fault_reason = fault_reason;
            flags = flags3;
            exc_return = exc_return;
          })
      else record {
        arch_id = build.arch_id;
        regs = some (read_special_regs m zero_regs);
        stack = some (record zero_stack { captured_sp = u32 exc_frame; stack_bytes = 0 });
        fault_reason = fault_reason;
        flags = bit_or flags1 Format.flag_invalid_frame;
        exc_return = exc_return;
      }

  -- The slot when the handler halts or resets: it does not return.
  unfoldable pub fault_handler_c : Machine → ℕ → ℕ → ℕ → ℕ → Slot → Slot
  fault_handler_c m exc_frame fault_reason use_psp exc_return slot =
      commit_snapshot slot (fault_snapshot m exc_frame fault_reason use_psp exc_return)

  -- FAULT_ENTRY: bit 2 of `lr` selects the stack pointer; r0, r1 and r2 are set, and r3, the fourth
  -- argument, is as the exception found it. The stub reads the pointers before the prologue of
  -- `panicdump_fault_handler_c`, which reads them again after it.
  unfoldable pub fault_entry : ℕ → Machine → Prologue → ℕ → ℕ → Slot → Slot
  fault_entry reason m pro lr r3 slot =
      if bit_and lr 4 == 0
      then fault_handler_c (in_handler m pro) m.msp reason 0 r3 slot
      else fault_handler_c (in_handler m pro) m.psp reason 1 r3 slot

  unfoldable pub capture_sw_regs : Machine × Core → Regs × Stack
  unfolding read_special_regs copy_memory
  capture_sw_regs (m, core) =
      let stack = record zero_stack { captured_sp = core.sp_val; stack_bytes = 0 } in
      let sliced = record stack {
        stack_bytes = Format.stack_slice_bytes;
        slice = copy_memory stack.slice 0 m.memory core.sp_val Format.stack_slice_bytes;
      } in
      (
        read_special_regs m (core_regs core),
        if frame_within_ram build core.sp_val then sliced else stack,
      )
