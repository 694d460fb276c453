-- ===== src/Port/CortexM/Typed.antt =====
-- What the Cortex-M port captures is in range.
use panicdump.Base.{
  ℕ, ◌+◌, ◌<◌, ◌≡◌, ◌⊎◌, ◌^◌, refl, arith, Bool-cases, inl, inr, replicate, tabulate,
  length-tabulate,
}
use panicdump.Wire.Word.{tabulate-IsBytes}
use panicdump.Dump.{Regs, IsRegs, IsStack, zero_regs, zero_stack}
use panicdump.Port.CortexM.{
  Build, Machine, Core, word_at, copy_memory, frame_within_ram, core_regs, read_special_regs,
  frame_regs, capture_sw_regs,
}

-- Bytes in the memory, words in the registers.
pub record IsMachine (m : Machine) : Type 0 where
  pub memory : (a : ℕ) → m.memory a < 256
  pub device : (a : ℕ) → m.device a < 2 ^ 32
  pub msp : m.msp < 2 ^ 32
  pub psp : m.psp < 2 ^ 32
  pub control : m.control < 2 ^ 32
  pub primask : m.primask < 2 ^ 32
  pub basepri : m.basepri < 2 ^ 32
  pub faultmask : m.faultmask < 2 ^ 32

pub record IsCore (c : Core) : Type 0 where
  pub gp : (i : ℕ) → c.gp i < 2 ^ 32
  pub sp_val : c.sp_val < 2 ^ 32
  pub lr_val : c.lr_val < 2 ^ 32
  pub pc_val : c.pc_val < 2 ^ 32

-- The compile-time checks of panicdump_port.h allow the two architectures.
pub record IsBuild (b : Build) : Type 0 where
  pub arch_id : (b.arch_id ≡ 3) ⊎ (b.arch_id ≡ 4)
  pub ordered : b.ram_base < b.ram_end
  pub ram_end : b.ram_end < 2 ^ 32

word_at-lt : (m : Machine) (a : ℕ) → IsMachine m → word_at m.memory a < 2 ^ 32
word_at-lt m a h = omega (arith, h.memory a, h.memory (a + 1), h.memory (a + 2), h.memory (a + 3))

-- 64 bytes copied over a zeroed array are the memory's.
pub copy_memory-tabulate :
    (memory : ℕ → ℕ) (addr : ℕ)
    → copy_memory (replicate 64 0) 0 memory addr 64 ≡ tabulate 64 addr memory
unfolding copy_memory
copy_memory-tabulate memory addr = refl

pub frame_regs-IsRegs : (m : Machine) (a : ℕ) → IsMachine m → IsRegs (frame_regs m a zero_regs)
unfolding frame_regs
frame_regs-IsRegs m a h =
    let w0 = word_at-lt m a h in
    let w1 = word_at-lt m (a + 4) h in
    let w2 = word_at-lt m (a + 8) h in
    let w3 = word_at-lt m (a + 12) h in
    let w4 = word_at-lt m (a + 16) h in
    let w5 = word_at-lt m (a + 20) h in
    let w6 = word_at-lt m (a + 24) h in let w7 = word_at-lt m (a + 28) h in omega arith

pub read_special_regs-IsRegs :
    (m : Machine) (r : Regs) → IsMachine m → IsRegs r → IsRegs (read_special_regs m r)
unfolding read_special_regs
read_special_regs-IsRegs m r h p = omega (
  arith,
  h.device 0xE000ED28,
  h.device 0xE000ED2C,
  h.device 0xE000ED30,
  h.device 0xE000ED34,
  h.device 0xE000ED38,
  h.device 0xE000ED3C,
  h.device 0xE000ED24,
)

pub slice-IsStack :
    (m : Machine) (sp a : ℕ)
    → IsMachine m
    → sp < 2 ^ 32
    → IsStack (record {
      captured_sp = sp;
      stack_bytes = 64;
      slice = copy_memory (replicate 64 0) 0 m.memory a 64;
    })
slice-IsStack m sp a h p = record {
  captured_sp = p;
  stack_bytes = omega arith;
  slice_length = rw (copy_memory-tabulate m.memory a) (length-tabulate 64 a m.memory);
  slice_bytes = rw (copy_memory-tabulate m.memory a) (tabulate-IsBytes 64 a m.memory h.memory);
}

pub empty-IsStack :
    (sp : ℕ) → sp < 2 ^ 32 → IsStack (record zero_stack { captured_sp = sp; stack_bytes = 0 })
empty-IsStack sp p = ground arith

-- The captured registers and stack of a software trigger are in range.
pub capture_sw_regs-IsRegs :
    (b : Build) (m : Machine) (c : Core)
    → IsMachine m
    → IsCore c
    → IsRegs (capture_sw_regs b (m, c)).0
unfolding capture_sw_regs
capture_sw_regs-IsRegs b m c h k =
    read_special_regs-IsRegs m (core_regs c) h
      (omega (arith, k.gp 0, k.gp 1, k.gp 2, k.gp 3, k.gp 12, k.lr_val, k.pc_val))

pub capture_sw_regs-IsStack :
    (b : Build) (m : Machine) (c : Core)
    → IsMachine m
    → IsCore c
    → IsStack (capture_sw_regs b (m, c)).1
unfolding capture_sw_regs
capture_sw_regs-IsStack b m c h k = elim (Bool-cases (frame_within_ram b c.sp_val)) [
  | inl within ↦ rw within (slice-IsStack m c.sp_val c.sp_val h k.sp_val)
  | inr outside ↦ rw outside (empty-IsStack c.sp_val k.sp_val)
]

pub capture_sw_regs-slice :
    (b : Build) (mc : Machine × Core)
    → let stack = (capture_sw_regs b mc).1 in (stack.stack_bytes ≡ 0) ⊎ (stack.stack_bytes ≡ 64)
unfolding capture_sw_regs
capture_sw_regs-slice b (m, c) = elim (Bool-cases (frame_within_ram b c.sp_val)) [
  | inl within ↦ rw within (inr refl)
  | inr outside ↦ rw outside (inl refl)
]
