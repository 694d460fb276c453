-- ===== src/Dump.antt =====
-- The structs of include/panicdump.h, and the ranges of their fields.
use panicdump.Base.{ℕ, List, [], ◌∷◌, replicate, ◌^◌, ◌<◌, ◌≡◌, length}

-- `panicdump_regs_t`
pub record Regs : Type 0 where
  pub r0 : ℕ
  pub r1 : ℕ
  pub r2 : ℕ
  pub r3 : ℕ
  pub r12 : ℕ
  pub lr : ℕ
  pub pc : ℕ
  pub xpsr : ℕ
  pub msp : ℕ
  pub psp : ℕ
  pub control : ℕ
  pub primask : ℕ
  pub basepri : ℕ
  pub faultmask : ℕ
  pub cfsr : ℕ
  pub hfsr : ℕ
  pub dfsr : ℕ
  pub mmfar : ℕ
  pub bfar : ℕ
  pub afsr : ℕ
  pub shcsr : ℕ

-- `panicdump_stack_t`
pub record Stack : Type 0 where
  pub captured_sp : ℕ
  pub stack_bytes : ℕ
  pub slice : List ℕ

-- `panicdump_dump_t`
pub record Dump : Type 0 where
  pub magic : ℕ
  pub version : ℕ
  pub header_size : ℕ
  pub total_size : ℕ
  pub flags : ℕ
  pub arch_id : ℕ
  pub fault_reason : ℕ
  pub sequence : ℕ
  pub user_tag : ℕ
  pub crc32 : ℕ
  pub regs : Regs
  pub stack : Stack

-- A zeroed `panicdump_regs_t` and `panicdump_stack_t`.
abbrev pub zero_regs : Regs
zero_regs = record {
  r0 = 0;
  r1 = 0;
  r2 = 0;
  r3 = 0;
  r12 = 0;
  lr = 0;
  pc = 0;
  xpsr = 0;
  msp = 0;
  psp = 0;
  control = 0;
  primask = 0;
  basepri = 0;
  faultmask = 0;
  cfsr = 0;
  hfsr = 0;
  dfsr = 0;
  mmfar = 0;
  bfar = 0;
  afsr = 0;
  shcsr = 0;
}

abbrev pub zero_stack : Stack
zero_stack = record { captured_sp = 0; stack_bytes = 0; slice = replicate 64 0 }

-- The ranges that the C types give.
abbrev pub IsU16 : ℕ → Type 0
IsU16 n = n < 2 ^ 16

abbrev pub IsU32 : ℕ → Type 0
IsU32 n = n < 2 ^ 32

abbrev pub IsBytes : List ℕ → Type 0
IsBytes [] = Unit
IsBytes (b ∷ bytes) = (b < 256) × IsBytes bytes

pub record IsRegs (r : Regs) : Type 0 where
  pub r0 : IsU32 r.r0
  pub r1 : IsU32 r.r1
  pub r2 : IsU32 r.r2
  pub r3 : IsU32 r.r3
  pub r12 : IsU32 r.r12
  pub lr : IsU32 r.lr
  pub pc : IsU32 r.pc
  pub xpsr : IsU32 r.xpsr
  pub msp : IsU32 r.msp
  pub psp : IsU32 r.psp
  pub control : IsU32 r.control
  pub primask : IsU32 r.primask
  pub basepri : IsU32 r.basepri
  pub faultmask : IsU32 r.faultmask
  pub cfsr : IsU32 r.cfsr
  pub hfsr : IsU32 r.hfsr
  pub dfsr : IsU32 r.dfsr
  pub mmfar : IsU32 r.mmfar
  pub bfar : IsU32 r.bfar
  pub afsr : IsU32 r.afsr
  pub shcsr : IsU32 r.shcsr

pub record IsStack (s : Stack) : Type 0 where
  pub captured_sp : IsU32 s.captured_sp
  pub stack_bytes : IsU32 s.stack_bytes
  pub slice_length : length s.slice ≡ 64
  pub slice_bytes : IsBytes s.slice

pub record IsDump (d : Dump) : Type 0 where
  pub magic : IsU32 d.magic
  pub version : IsU16 d.version
  pub header_size : IsU16 d.header_size
  pub total_size : IsU32 d.total_size
  pub flags : IsU32 d.flags
  pub arch_id : IsU32 d.arch_id
  pub fault_reason : IsU32 d.fault_reason
  pub sequence : IsU32 d.sequence
  pub user_tag : IsU32 d.user_tag
  pub crc32 : IsU32 d.crc32
  pub regs : IsRegs d.regs
  pub stack : IsStack d.stack
