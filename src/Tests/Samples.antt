-- ===== src/Tests/Samples.antt =====
-- Data for the tests: the structs of tests/panicdump_core_test.c, a slot with leftover bytes, and
-- tools/test_vectors/valid_hardfault.bin, and a machine with 64 KiB of RAM.
use panicdump.Base.{
  leb, ltb, ◌&&◌, if◌then◌else◌, ℕ, ◌%◌, arith, List, [], ◌∷◌, some, replicate, tabulate,
}
use panicdump.Dump.{Regs, Stack, Dump, IsDump, IsBytes}
use panicdump.Slot.{Slot, Snapshot}
use panicdump.Port.CortexM.{Build, Machine, Prologue, in_handler}
use panicdump.Port.CortexM.Typed.{IsBuild, IsMachine}
use panicdump.Slot.Typed.{IsSlot, IsSnapshot, IsAccepted}

abbrev pub sample_regs : Regs
sample_regs = record {
  r0 = 0x11111111;
  r1 = 0x22222222;
  r2 = 0x33333333;
  r3 = 0x44444444;
  r12 = 0x12121212;
  lr = 0xFFFFFFF9;
  pc = 0x08001234;
  xpsr = 0x21000000;
  msp = 0x20007FF0;
  psp = 0x20006000;
  control = 1;
  primask = 0;
  basepri = 0;
  faultmask = 0;
  cfsr = 0x00008200;
  hfsr = 0x40000000;
  dfsr = 0;
  mmfar = 0;
  bfar = 0x20010004;
  afsr = 0;
  shcsr = 0;
}

abbrev pub sample_stack : Stack
sample_stack = record { captured_sp = 0x20007FF0; stack_bytes = 64; slice = tabulate 64 0 (λ i. i) }

abbrev pub sample_dump : Dump
sample_dump = record {
  magic = 0x50444331;
  version = 1;
  header_size = 36;
  total_size = 192;
  flags = 12;
  arch_id = 4;
  fault_reason = 1;
  sequence = 0xFFFFFFF9;
  user_tag = 0xABCD1234;
  crc32 = 0;
  regs = sample_regs;
  stack = sample_stack;
}

pub sample_dump-IsDump : IsDump sample_dump
sample_dump-IsDump = omega arith

abbrev pub leftover : List ℕ
leftover = replicate 192 0xA5

abbrev pub used_slot : Slot
used_slot = record { dump_wire = leftover; user_tag = 0xABCD1234; cached_dump = sample_dump }

pub used_slot-IsSlot : IsSlot used_slot
used_slot-IsSlot = omega arith

abbrev pub sample_snapshot : Snapshot
sample_snapshot = record {
  arch_id = 4;
  regs = some sample_regs;
  stack = some sample_stack;
  fault_reason = 1;
  flags = 12;
  exc_return = 0xFFFFFFF9;
}

pub sample_snapshot-IsSnapshot : IsSnapshot sample_snapshot
sample_snapshot-IsSnapshot = omega arith

pub sample_snapshot-IsAccepted : IsAccepted sample_snapshot
sample_snapshot-IsAccepted = omega arith

abbrev pub valid_hardfault : List ℕ
valid_hardfault =
    49 ∷ 67 ∷ 68 ∷ 80 ∷ 1 ∷ 0 ∷ 36 ∷ 0 ∷ 192 ∷ 0 ∷ 0 ∷ 0 ∷ 0 ∷ 0 ∷ 0 ∷ 0 ∷ 4 ∷ 0 ∷ 0 ∷ 0 ∷ 1 ∷ 0 ∷ 0
    ∷ 0 ∷ 0 ∷ 0 ∷ 0 ∷ 0 ∷ 42 ∷ 0 ∷ 0 ∷ 0 ∷ 147 ∷ 100 ∷ 175 ∷ 238 ∷ 0 ∷ 0 ∷ 0 ∷ 0 ∷ 0 ∷ 16 ∷ 0 ∷ 32
    ∷ 16 ∷ 0 ∷ 0 ∷ 0 ∷ 239 ∷ 190 ∷ 173 ∷ 222 ∷ 0 ∷ 0 ∷ 0 ∷ 0 ∷ 249 ∷ 255 ∷ 255 ∷ 255 ∷ 52 ∷ 18 ∷ 0
    ∷ 8 ∷ 0 ∷ 0 ∷ 0 ∷ 33 ∷ 240 ∷ 127 ∷ 0 ∷ 32 ∷ 0 ∷ 0 ∷ 0 ∷ 0 ∷ 0 ∷ 0 ∷ 0 ∷ 0 ∷ 0 ∷ 0 ∷ 0 ∷ 0 ∷ 0
    ∷ 0 ∷ 0 ∷ 0 ∷ 0 ∷ 0 ∷ 0 ∷ 0 ∷ 0 ∷ 130 ∷ 0 ∷ 0 ∷ 0 ∷ 0 ∷ 0 ∷ 64 ∷ 0 ∷ 0 ∷ 0 ∷ 0 ∷ 0 ∷ 0 ∷ 0 ∷ 0
    ∷ 4 ∷ 0 ∷ 1 ∷ 32 ∷ 0 ∷ 0 ∷ 0 ∷ 0 ∷ 0 ∷ 0 ∷ 0 ∷ 0 ∷ 240 ∷ 127 ∷ 0 ∷ 32 ∷ 64 ∷ 0 ∷ 0 ∷ 0 ∷ 0 ∷ 17
    ∷ 0 ∷ 8 ∷ 0 ∷ 34 ∷ 0 ∷ 8 ∷ 0 ∷ 51 ∷ 0 ∷ 8 ∷ 0 ∷ 16 ∷ 0 ∷ 32 ∷ 0 ∷ 0 ∷ 0 ∷ 0 ∷ 0 ∷ 0 ∷ 0 ∷ 0 ∷ 0
    ∷ 0 ∷ 0 ∷ 0 ∷ 0 ∷ 0 ∷ 0 ∷ 0 ∷ 0 ∷ 0 ∷ 0 ∷ 0 ∷ 0 ∷ 0 ∷ 0 ∷ 0 ∷ 0 ∷ 0 ∷ 0 ∷ 0 ∷ 0 ∷ 0 ∷ 0 ∷ 0 ∷ 0
    ∷ 0 ∷ 0 ∷ 0 ∷ 0 ∷ 0 ∷ 0 ∷ 0 ∷ 0 ∷ 0 ∷ 0 ∷ 0 ∷ 0 ∷ 0 ∷ 0 ∷ 0 ∷ []

pub valid_hardfault-IsBytes : IsBytes valid_hardfault
valid_hardfault-IsBytes = omega arith

abbrev pub board : Build
board = record { ram_base = 0x20000000; ram_end = 0x20010000; arch_id = 3 }

pub board-IsBuild : IsBuild board
board-IsBuild = omega arith

abbrev pub stopped : Machine
stopped = record {
  memory = λ a. a % 251;
  device = λ a. 0x8200;
  msp = 0x2000FF00;
  psp = 0x20006000;
  control = 0;
  primask = 0;
  basepri = 0;
  faultmask = 0;
}

pub stopped-IsMachine : IsMachine stopped
stopped-IsMachine = grind arith

-- A prologue that pushes 32 bytes.
abbrev pub pushed : Prologue
pushed = record {
  msp = 0x2000FEE0;
  memory = λ a. if leb 0x2000FEE0 a && ltb a 0x2000FF00 then 0xA5 else a % 251;
}

pub pushed-IsMachine : IsMachine (in_handler stopped pushed)
pushed-IsMachine = grind arith
