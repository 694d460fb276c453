-- ===== src/Port/CortexM/Fault.antt =====
-- The dump that a fault leaves.
use panicdump.Base.{
  ℕ, ◌+◌, ◌≤◌, ◌<◌, ◌≡◌, ◌^◌, refl, ap, arith, Bool, true, false, some, u32, Bool-cases, inl, inr,
  replicate, tabulate, if◌then◌else◌, ◌!=◌,
}
use panicdump.Dump.{Regs, Stack, zero_regs}
use panicdump.Fields.Decode.{stored}
use panicdump.Slot.{Slot, Snapshot, has_valid, get}
use panicdump.Slot.Typed.{IsSlot, IsSnapshot, IsAccepted}
use panicdump.Slot.Valid.{committed_dump, has_valid-commit_iff, get-commit}
use panicdump.Port.CortexM.{
  Build, Machine, frame_within_ram, exc_frame_safe, capture_stack_slice, read_special_regs,
  frame_regs, fault_snapshot, fault_handler_c,
}
use panicdump.Port.CortexM.Typed.{
  IsMachine, IsBuild, read_special_regs-IsRegs, frame_regs-IsRegs, slice-IsStack, empty-IsStack,
  copy_memory-tabulate,
}

-- PSP active; then either the frame and the slice valid, or the frame invalid.
abbrev pub expected_flags : ℕ → Bool → ℕ
expected_flags use_psp safe = (if use_psp != 0 then 2 else 0) + (if safe then 12 else 1)

-- The frame's registers, if it can be read, with the special registers.
abbrev pub expected_regs : Machine → ℕ → Bool → Regs
expected_regs m frame safe =
    read_special_regs m (if safe then frame_regs m frame zero_regs else zero_regs)

-- The 64 bytes from the frame on, if it can be read.
abbrev pub expected_stack : Machine → ℕ → Bool → Stack
expected_stack m frame safe = record {
  captured_sp = u32 frame;
  stack_bytes = if safe then 64 else 0;
  slice = if safe then tabulate 64 frame m.memory else replicate 64 0;
}

module _ (b : Build) (m : Machine) (frame reason use_psp exc_return : ℕ) where
  pub fault_snapshot_lem :
      let safe = exc_frame_safe b frame in
      fault_snapshot b m frame reason use_psp exc_return ≡ record {
        arch_id = b.arch_id;
        regs = some (expected_regs m frame safe);
        stack = some (expected_stack m frame safe);
        fault_reason = reason;
        flags = expected_flags use_psp safe;
        exc_return = exc_return;
      }
  unfolding fault_snapshot exc_frame_safe capture_stack_slice
  fault_snapshot_lem = elim (Bool-cases (use_psp != 0)) [
    | inl psp ↦ elim (Bool-cases (frame_within_ram b frame)) [
      | inl within ↦ rw (psp, within)
      | inr outside ↦ rw (psp, outside)
    ]
    | inr msp ↦ elim (Bool-cases (frame_within_ram b frame)) [
      | inl within ↦ rw (msp, within)
      | inr outside ↦ rw (msp, outside)
    ]
  ]

-- The same snapshot, by what the frame test says.
abbrev pub expected_snapshot : Build → Machine → ℕ → ℕ → ℕ → ℕ → Bool → Snapshot
expected_snapshot b m frame reason use_psp exc_return safe = record {
  arch_id = b.arch_id;
  regs = some (expected_regs m frame safe);
  stack = some (expected_stack m frame safe);
  fault_reason = reason;
  flags = expected_flags use_psp safe;
  exc_return = exc_return;
}

module _ (b : Build) (m : Machine) (frame reason use_psp exc_return : ℕ) (built : IsBuild b)
    (sound : IsMachine m) (known : reason ≤ 5) (ret : exc_return < 2 ^ 32) where
  pub expected-IsSnapshot :
      (safe : Bool) → IsSnapshot (expected_snapshot b m frame reason use_psp exc_return safe)
  expected-IsSnapshot true = record {
    arch_id = omega (arith, built.arch_id);
    regs =
        read_special_regs-IsRegs m (frame_regs m frame zero_regs) sound
          (frame_regs-IsRegs m frame sound);
    stack =
        rw (← copy_memory-tabulate m.memory frame)
          (slice-IsStack m (u32 frame) frame sound (omega arith));
    fault_reason = omega arith;
    flags = ground arith;
    exc_return = ret;
  }
  expected-IsSnapshot false = record {
    arch_id = omega (arith, built.arch_id);
    regs = read_special_regs-IsRegs m zero_regs sound (omega arith);
    stack = empty-IsStack (u32 frame) (omega arith);
    fault_reason = omega arith;
    flags = ground arith;
    exc_return = ret;
  }

  pub expected-IsAccepted :
      (safe : Bool) → IsAccepted (expected_snapshot b m frame reason use_psp exc_return safe)
  expected-IsAccepted true = record {
    flags = ground arith;
    arch_id = built.arch_id;
    fault_reason = known;
    stack_bytes = inr refl;
  }
  expected-IsAccepted false = record {
    flags = ground arith;
    arch_id = built.arch_id;
    fault_reason = known;
    stack_bytes = inl refl;
  }

-- When the fault handler has run with a reason that the format knows, the slot holds a valid dump,
-- and `panicdump_get` returns it: with the reason, the exception return and the user tag that the
-- slot held, the flags, the registers and the slice by the test of the frame pointer.
pub get-fault_handler_c :
    (b : Build) (m : Machine) (slot : Slot) (frame reason use_psp exc_return : ℕ)
    → IsBuild b
    → IsMachine m
    → IsSlot slot
    → reason ≤ 5
    → exc_return < 2 ^ 32
    → let slot' = fault_handler_c b m frame reason use_psp exc_return slot in
      let safe = exc_frame_safe b frame in
      let s = expected_snapshot b m frame reason use_psp exc_return safe in
      (has_valid slot' ≡ true) × ((get slot').0 ≡ some (stored (committed_dump slot s)))
unfolding fault_handler_c
get-fault_handler_c b m slot frame reason use_psp exc_return built sound typed known ret =
    let safe = exc_frame_safe b frame in
    let s = expected_snapshot b m frame reason use_psp exc_return safe in
    let snapshot =
      expected-IsSnapshot b m frame reason use_psp exc_return built sound known ret safe in
    let accepted =
      expected-IsAccepted b m frame reason use_psp exc_return built sound known ret safe in
    rw (fault_snapshot_lem b m frame reason use_psp exc_return) (
      (has_valid-commit_iff slot s typed snapshot).1 accepted,
      ap (λ r. r.0) (get-commit slot s typed snapshot accepted),
    )
