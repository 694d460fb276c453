-- ===== src/Port/CortexM/Entry.antt =====
-- The dump that a fault leaves which came in through an entry stub.
use panicdump.Base.{
  bit_and, ◌==◌, ℕ, ◌≤◌, ◌<◌, ◌≡◌, ◌^◌, refl, ap, true, some, Bool-cases, inl, inr, if◌then◌else◌,
}
use panicdump.Dump.{Dump}
use panicdump.Fields.Decode.{stored}
use panicdump.Slot.{Slot, Snapshot, has_valid, get, commit_snapshot}
use panicdump.Slot.Typed.{IsSlot, IsSnapshot, IsAccepted}
use panicdump.Slot.Valid.{committed_dump, has_valid-commit_iff, get-commit}
use panicdump.Port.CortexM.{
  Build, Machine, Prologue, in_handler, exc_frame_safe, fault_handler_c, fault_entry,
}
use panicdump.Port.CortexM.Typed.{IsMachine, IsBuild}
use panicdump.Port.CortexM.Fault.{
  expected_snapshot, fault_snapshot_lem, expected-IsSnapshot, expected-IsAccepted,
}

-- The dump that a fault entry records: the one of the handler, with the stack pointer that bit 2 of
-- `lr` selects.
abbrev pub entry_snapshot : Build → Machine → Prologue → ℕ → ℕ → ℕ → Snapshot
entry_snapshot b m pro reason lr r3 =
    if bit_and lr 4 == 0
    then expected_snapshot b (in_handler m pro) m.msp reason 0 r3 (exc_frame_safe b m.msp)
    else expected_snapshot b (in_handler m pro) m.psp reason 1 r3 (exc_frame_safe b m.psp)

pub fault_entry-commit :
    (b : Build) (m : Machine) (pro : Prologue) (slot : Slot) (reason lr r3 : ℕ)
    → fault_entry b reason m pro lr r3 slot
      ≡ commit_snapshot slot (entry_snapshot b m pro reason lr r3)
unfolding fault_entry fault_handler_c
fault_entry-commit b m pro slot reason lr r3 = elim (Bool-cases (bit_and lr 4 == 0)) [
  | inl main ↦
      rw main
        (ap (commit_snapshot slot) (fault_snapshot_lem b (in_handler m pro) m.msp reason 0 r3))
  | inr process ↦
      rw process
        (ap (commit_snapshot slot) (fault_snapshot_lem b (in_handler m pro) m.psp reason 1 r3))
]

module _ (b : Build) (m : Machine) (pro : Prologue) (reason lr r3 : ℕ) (built : IsBuild b)
    (sound : IsMachine (in_handler m pro)) (known : reason ≤ 5) (ret : r3 < 2 ^ 32) where
  pub entry-IsSnapshot : IsSnapshot (entry_snapshot b m pro reason lr r3)
  entry-IsSnapshot =
      let main = expected-IsSnapshot b (in_handler m pro) m.msp reason 0 r3 built sound known ret in
      let process =
        expected-IsSnapshot b (in_handler m pro) m.psp reason 1 r3 built sound known ret in
      elim (Bool-cases (bit_and lr 4 == 0)) [
        | inl e ↦ rw e (main (exc_frame_safe b m.msp))
        | inr e ↦ rw e (process (exc_frame_safe b m.psp))
      ]

  pub entry-IsAccepted : IsAccepted (entry_snapshot b m pro reason lr r3)
  entry-IsAccepted =
      let main = expected-IsAccepted b (in_handler m pro) m.msp reason 0 r3 built sound known ret in
      let process =
        expected-IsAccepted b (in_handler m pro) m.psp reason 1 r3 built sound known ret in
      elim (Bool-cases (bit_and lr 4 == 0)) [
        | inl e ↦ rw e (main (exc_frame_safe b m.msp))
        | inr e ↦ rw e (process (exc_frame_safe b m.psp))
      ]

  -- Reason and exception return do not depend on which stack pointer was active.
  pub entry_snapshot-parts :
      ((entry_snapshot b m pro reason lr r3).exc_return ≡ r3)
      × ((entry_snapshot b m pro reason lr r3).fault_reason ≡ reason)
  entry_snapshot-parts = elim (Bool-cases (bit_and lr 4 == 0)) [
    | inl e ↦ rw e (refl, refl)
    | inr e ↦ rw e (refl, refl)
  ]

  -- The dump that the next boot finds after a fault entry with a reason that the format knows: the
  -- reason of the stub, the user tag that the slot held, and as the exception return r3 as the
  -- exception found it, whatever EXC_RETURN was in lr.
  pub get-fault_entry :
      (slot : Slot)
      → IsSlot slot
      → let slot' = fault_entry b reason m pro lr r3 slot in
        (has_valid slot' ≡ true)
        × ((dump : Dump) × ((get slot').0 ≡ some dump)
            × (dump.sequence ≡ r3)
            × (dump.fault_reason ≡ reason)
            × (dump.user_tag ≡ slot.user_tag))
  get-fault_entry slot typed =
      let s = entry_snapshot b m pro reason lr r3 in
      rw (fault_entry-commit b m pro slot reason lr r3) (
        (has_valid-commit_iff slot s typed entry-IsSnapshot).1 entry-IsAccepted,
        (
          stored (committed_dump slot s),
          ap (λ r. r.0) (get-commit slot s typed entry-IsSnapshot entry-IsAccepted),
          entry_snapshot-parts.0,
          entry_snapshot-parts.1,
          refl,
        ),
      )

-- What a fault entry, with a reason that the format knows, records as the exception return is r3 as
-- the exception found it, whatever EXC_RETURN was in lr.
pub fault_entry-sequence :
    (b : Build) (m : Machine) (pro : Prologue) (slot : Slot) (reason lr r3 : ℕ)
    → IsBuild b
    → IsMachine (in_handler m pro)
    → IsSlot slot
    → reason ≤ 5
    → r3 < 2 ^ 32
    → (dump : Dump) × ((get (fault_entry b reason m pro lr r3 slot)).0 ≡ some dump)
      × (dump.sequence ≡ r3)
fault_entry-sequence b m pro slot reason lr r3 built sound typed known ret =
    let (valid, (dump, found, sequence, same_reason, same_tag)) =
      get-fault_entry b m pro reason lr r3 built sound known ret slot typed in
    (dump, found, sequence)
