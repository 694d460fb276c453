-- ===== src/Slot/Typed.antt =====
-- The ranges of what a slot and a snapshot hold, and the arguments that the format knows.
use panicdump.Base.{◌≡◌, ◌⊎◌, ◌≤◌, ◌<◌, arith, Option, none, some, length}
use panicdump.Dump.{Regs, Stack, IsRegs, IsStack, IsDump, IsU32, IsBytes, zero_regs, zero_stack}
use panicdump.Slot.{Slot, Snapshot}
use panicdump.Slot.Commit.{recorded, regs_or_zero, stack_or_zero, HasSlice}

abbrev pub IsRegsOption : Option Regs → Type 0
IsRegsOption none = Unit
IsRegsOption (some regs) = IsRegs regs

abbrev pub IsStackOption : Option Stack → Type 0
IsStackOption none = Unit
IsStackOption (some stack) = IsStack stack

-- The ranges that the C types of the arguments give.
pub record IsSnapshot (s : Snapshot) : Type 0 where
  pub arch_id : IsU32 s.arch_id
  pub regs : IsRegsOption s.regs
  pub stack : IsStackOption s.stack
  pub fault_reason : IsU32 s.fault_reason
  pub flags : IsU32 s.flags
  pub exc_return : IsU32 s.exc_return

-- A slot of 192 bytes and a tag of one word.
pub record IsSlot (slot : Slot) : Type 0 where
  pub wire_length : length slot.dump_wire ≡ 192
  pub wire_bytes : IsBytes slot.dump_wire
  pub user_tag : IsU32 slot.user_tag

-- The arguments that make a valid dump.
pub record IsAccepted (s : Snapshot) : Type 0 where
  pub flags : s.flags < 16
  pub arch_id : (s.arch_id ≡ 3) ⊎ (s.arch_id ≡ 4)
  pub fault_reason : s.fault_reason ≤ 5
  pub stack_bytes :
      ((stack_or_zero s.stack).stack_bytes ≡ 0) ⊎ ((stack_or_zero s.stack).stack_bytes ≡ 64)

zero_regs-IsRegs : IsRegs zero_regs
zero_regs-IsRegs = omega arith

zero_stack-IsStack : IsStack zero_stack
zero_stack-IsStack = ground arith

pub regs-IsRegs : (regs : Option Regs) → IsRegsOption regs → IsRegs (regs_or_zero regs)
regs-IsRegs none h = zero_regs-IsRegs
regs-IsRegs (some regs) h = h

pub stack-IsStack : (stack : Option Stack) → IsStackOption stack → IsStack (stack_or_zero stack)
stack-IsStack none h = zero_stack-IsStack
stack-IsStack (some stack) h = h

pub stack-HasSlice : (stack : Option Stack) → IsStackOption stack → HasSlice stack
stack-HasSlice none h = tt
stack-HasSlice (some stack) h = h.slice_length

pub recorded-IsDump :
    (slot : Slot) (s : Snapshot) → IsSlot slot → IsSnapshot s → IsDump (recorded slot.user_tag s)
recorded-IsDump slot s p h = record {
  magic = omega arith;
  version = omega arith;
  header_size = omega arith;
  total_size = omega arith;
  flags = h.flags;
  arch_id = h.arch_id;
  fault_reason = h.fault_reason;
  sequence = h.exc_return;
  user_tag = p.user_tag;
  crc32 = omega arith;
  regs = regs-IsRegs s.regs h.regs;
  stack = stack-IsStack s.stack h.stack;
}
