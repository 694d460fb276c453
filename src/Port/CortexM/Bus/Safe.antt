-- ===== src/Port/CortexM/Bus/Safe.antt =====
-- The fault handler reads no memory outside the configured RAM.
use panicdump.Base.{
  ℕ, zero, suc, ◌+◌, ◌≤◌, ◌<◌, ◌≡◌, ◌^◌, refl, ap, ◌∙◌, arith, List, Bool-cases, inl, inr, true,
  some, ◌>>=◌, set,
}
use panicdump.Slot.{Slot, commit_snapshot}
use panicdump.Port.CortexM.{
  Build, Machine, word_at, frame_at, copy_memory, frame_within_ram, exc_frame_safe,
  capture_stack_slice, frame_regs, fault_snapshot,
}
use panicdump.Port.CortexM.Fault.{expected_snapshot, fault_snapshot_lem}
use panicdump.Port.CortexM.Safe.{frame_within_ram_iff}
use panicdump.Port.CortexM.Bus.{
  Bus, load_word, load_exc_frame, load_bytes, load_stack_slice, load_snapshot, run_fault_handler,
}

-- The bus answers with the memory from one address up to another.
abbrev pub Answers : Bus → (ℕ → ℕ) → ℕ → ℕ → Type 0
Answers bus memory lo hi = (a : ℕ) → lo ≤ a → a < hi → bus a ≡ some (memory a)

module _ (bus : Bus) (memory : ℕ → ℕ) (lo hi : ℕ) (answers : Answers bus memory lo hi) where
  load_word_lem : (a : ℕ) → lo ≤ a → a + 4 ≤ hi → load_word bus a ≡ some (word_at memory a)
  unfolding load_word
  load_word_lem a above below =
      rw
        (
          answers a above (omega arith),
          answers (a + 1) (omega arith) (omega arith),
          answers (a + 2) (omega arith) (omega arith),
          answers (a + 3) (omega arith) (omega arith),
        )
        refl

  load_exc_frame_lem :
      (a : ℕ) → lo ≤ a → a + 32 ≤ hi → load_exc_frame bus a ≡ some (frame_at memory a)
  unfolding load_exc_frame
  load_exc_frame_lem a above below =
      let word = λ (k : ℕ) (p : k ≤ 28). load_word_lem (a + k) (omega arith) (omega arith) in
      rw
        (
          load_word_lem a above (omega arith),
          word 4 (omega arith),
          word 8 (omega arith),
          word 12 (omega arith),
          word 16 (omega arith),
          word 20 (omega arith),
          word 24 (omega arith),
          word 28 (omega arith),
        )
        refl

  load_bytes_lem :
      (dst : List ℕ) (off a len : ℕ)
      → lo ≤ a
      → a + len ≤ hi
      → load_bytes dst off bus a len ≡ some (copy_memory dst off memory a len)
  unfolding load_bytes copy_memory
  load_bytes_lem dst off a zero above below = refl
  load_bytes_lem dst off a (suc len) above below =
      let first = answers a above (omega arith) in
      let rest =
        load_bytes_lem (set dst off (memory a)) (off + 1) (a + 1) len (omega arith) (omega arith) in
      ap (λ o. o >>= λ byte. load_bytes (set dst off byte) (off + 1) bus (a + 1) len) first ∙ rest

module _ (b : Build) (bus : Bus) (m : Machine) (room : 64 ≤ b.ram_end) (fits : b.ram_end < 2 ^ 32)
    (answers : Answers bus m.memory b.ram_base b.ram_end) where
  load_stack_slice_lem :
      (frame : ℕ)
      → frame_within_ram b frame ≡ true
      → load_stack_slice b bus frame ≡ some (capture_stack_slice b m frame)
  unfolding load_stack_slice capture_stack_slice
  load_stack_slice_lem frame within =
      let (lo, hi, aligned) = (frame_within_ram_iff b frame room fits).0 within in
      rw (within, load_bytes_lem bus m.memory b.ram_base b.ram_end answers _ 0 frame 64 lo hi) refl

  load_snapshot_lem :
      (frame reason use_psp exc_return : ℕ)
      → load_snapshot b bus m frame reason use_psp exc_return
        ≡ some (fault_snapshot b m frame reason use_psp exc_return)
  unfolding load_snapshot fault_snapshot exc_frame_safe frame_regs
  load_snapshot_lem frame reason use_psp exc_return = elim (Bool-cases (frame_within_ram b frame)) [
    | inl within ↦
        let (lo, hi, aligned) = (frame_within_ram_iff b frame room fits).0 within in
        let read =
          load_exc_frame_lem bus m.memory b.ram_base b.ram_end answers frame lo (omega arith) in
        rw (within, read, load_stack_slice_lem frame within) refl
    | inr outside ↦ rw outside refl
  ]

  -- Let the end of RAM be at least 64 and below 2 ^ 32, and let the bus answer in the configured RAM,
  -- with the memory of the machine. At any address outside it, it may answer or not. Then, whatever
  -- the frame pointer, no load of the fault handler fails, and it commits the snapshot by the frame
  -- test.
  pub run_fault_handler-expected :
      (slot : Slot) (frame reason use_psp exc_return : ℕ)
      → let safe = exc_frame_safe b frame in
        run_fault_handler b bus m frame reason use_psp exc_return slot
        ≡ some (commit_snapshot slot (expected_snapshot b m frame reason use_psp exc_return safe))
  unfolding run_fault_handler
  run_fault_handler-expected slot frame reason use_psp exc_return =
      ap (λ o. o >>= λ s. some (commit_snapshot slot s))
        (load_snapshot_lem frame reason use_psp exc_return
          ∙ ap some (fault_snapshot_lem b m frame reason use_psp exc_return))
