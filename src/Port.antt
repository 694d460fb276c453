-- ===== src/Port.antt =====
-- What include/panicdump_port.h asks of a port, and its two implementations below.
pub mod Host
pub mod CortexM
pub mod Instances
use panicdump.Base.{ℕ, ◌≡◌, ◌⊎◌}
use panicdump.Dump.{Regs, Stack, IsRegs, IsStack}

-- `M` is what the port reads of the machine, and `Sound` says that its values are in range.
-- `capture_sw_regs` is the function of that name on zeroed or garbage structs, which it overwrites.
pub record Port (M : Type 0) : Type 1 where
  pub arch_id : ℕ
  pub capture_sw_regs : M → Regs × Stack
  pub Sound : M → Type 0
  pub arch_known : (arch_id ≡ 3) ⊎ (arch_id ≡ 4)
  pub regs_typed : (m : M) → Sound m → IsRegs (capture_sw_regs m).0
  pub stack_typed : (m : M) → Sound m → IsStack (capture_sw_regs m).1
  pub slice_size :
      (m : M)
      → let stack = (capture_sw_regs m).1 in (stack.stack_bytes ≡ 0) ⊎ (stack.stack_bytes ≡ 64)
