-- ===== src/Port/Instances.antt =====
-- The host port and the Cortex-M port fill the interface.
use panicdump.Base.{ℕ}
use panicdump.Port.{Port}
use panicdump.Port.Host
use panicdump.Port.CortexM
use panicdump.Port.CortexM.{Build, Machine, Core}
use panicdump.Port.CortexM.Typed.{
  IsMachine, IsCore, IsBuild, capture_sw_regs-IsRegs, capture_sw_regs-IsStack,
  capture_sw_regs-slice,
}

abbrev pub host : Port ℕ
host = record {
  arch_id = Host.arch_id;
  capture_sw_regs = Host.capture_sw_regs;
  Sound = λ _. Unit;
  arch_known = Host.arch-known;
  regs_typed = λ address _. Host.capture-IsRegs address;
  stack_typed = λ address _. Host.capture-IsStack address;
  slice_size = Host.capture-slice;
}

abbrev pub cortex_m : (b : Build) → IsBuild b → Port (Machine × Core)
cortex_m b built = record {
  arch_id = b.arch_id;
  capture_sw_regs = CortexM.capture_sw_regs b;
  Sound = λ mc. IsMachine mc.0 × IsCore mc.1;
  arch_known = built.arch_id;
  regs_typed = λ mc h. capture_sw_regs-IsRegs b mc.0 mc.1 h.0 h.1;
  stack_typed = λ mc h. capture_sw_regs-IsStack b mc.0 mc.1 h.0 h.1;
  slice_size = capture_sw_regs-slice b;
}
