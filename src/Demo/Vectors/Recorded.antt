-- ===== src/Demo/Vectors/Recorded.antt =====
-- What the next boot finds after an exception.
use panicdump.Base.{
  ℕ, zero, suc, ◌+◌, ◌^◌, ◌≤◌, ◌<◌, ◌≡◌, ◌⊎◌, inl, inr, refl, arith, List, [], ◌∷◌, none, some,
  replicate, get_or,
}
use panicdump.Dump.{Dump}
use panicdump.Slot.{Slot, get}
use panicdump.Slot.Typed.{IsSlot}
use panicdump.Port.CortexM.{Build, Machine, Prologue, in_handler, fault_entry}
use panicdump.Port.CortexM.Typed.{IsBuild, IsMachine}
use panicdump.Port.CortexM.Entry.{get-fault_entry}
use panicdump.Demo.Vectors.{
  Vector, reserved, default_vector, vector_table, stub_reason, take_exception,
}

abbrev AllOther : List Vector → Type 0
AllOther [] = Unit
AllOther (v ∷ vectors) = (stub_reason v ≡ none) × AllOther vectors

get_or-AllOther :
    (vectors : List Vector) (i : ℕ)
    → AllOther vectors
    → stub_reason (get_or vectors i reserved) ≡ none
unfolding stub_reason
get_or-AllOther [] i h = refl
get_or-AllOther (v ∷ vectors) zero h = h.0
get_or-AllOther (v ∷ vectors) (suc i) h = get_or-AllOther vectors i h.1

replicate-AllOther : (n : ℕ) → AllOther (replicate n default_vector)
unfolding stub_reason
replicate-AllOther zero = tt
replicate-AllOther (suc n) = (refl, replicate-AllOther n)

-- The four faults have a stub with their reason, and no other number has one.
reason_of :
    (number : ℕ)
    → ((((number < 3) ⊎ (7 ≤ number)) × (stub_reason (get_or vector_table number reserved) ≡ none))
        ⊎ ((reason : ℕ) × (number ≡ reason + 2)
            × (1 ≤ reason)
            × (reason ≤ 4)
            × (stub_reason (get_or vector_table number reserved) ≡ some reason)))
unfolding vector_table stub_reason
reason_of zero = inl (inl (omega arith), refl)
reason_of (suc zero) = inl (inl (omega arith), refl)
reason_of (suc (suc zero)) = inl (inl (omega arith), refl)
reason_of (suc (suc (suc zero))) = inr (1, refl, omega arith, omega arith, refl)
reason_of (suc (suc (suc (suc zero)))) = inr (2, refl, omega arith, omega arith, refl)
reason_of (suc (suc (suc (suc (suc zero))))) = inr (3, refl, omega arith, omega arith, refl)
reason_of (suc (suc (suc (suc (suc (suc zero)))))) = inr (4, refl, omega arith, omega arith, refl)
reason_of (suc (suc (suc (suc (suc (suc (suc i))))))) =
    let rest : List Vector =
      reserved
      ∷ reserved
      ∷ reserved
      ∷ reserved
      ∷ default_vector
      ∷ default_vector
      ∷ reserved
      ∷ default_vector
      ∷ default_vector
      ∷ replicate 68 default_vector in
    inl (
      inr (omega arith),
      get_or-AllOther rest i (
        refl,
        (refl, (refl, (refl, (refl, (refl, (refl, (refl, (refl, replicate-AllOther 68)))))))),
      ),
    )

-- For every exception number: from 3 to 6, the HardFault, MemManage, BusFault and UsageFault, the table
-- of the demo has a stub, after which the next boot finds a dump with the number less 2 as its
-- reason, which is that of the fault in the format, and with the user tag that the slot held. Below 3
-- and from 7 on there is no stub, and so no dump is written.
pub take_exception-recorded :
    (b : Build) (m : Machine) (pro : Prologue) (slot : Slot) (number lr r3 : ℕ)
    → IsBuild b
    → IsMachine (in_handler m pro)
    → IsSlot slot
    → r3 < 2 ^ 32
    → (((number < 3) ⊎ (7 ≤ number)) × (take_exception b m pro number lr r3 slot ≡ none))
      ⊎ ((3 ≤ number)
          × (number ≤ 6)
          × ((slot' : Slot) × (dump : Dump) × (take_exception b m pro number lr r3 slot
                ≡ some slot')
              × ((get slot').0 ≡ some dump)
              × (number ≡ dump.fault_reason + 2)
              × (dump.user_tag ≡ slot.user_tag)))
unfolding take_exception
take_exception-recorded b m pro slot number lr r3 built sound typed ret = elim (reason_of number) [
  | inl (outside, nothing) ↦ inl (outside, rw nothing refl)
  | inr (reason, same, low, known, found) ↦
      let (valid, (dump, held, sequence, same_reason, same_tag)) =
        get-fault_entry b m pro reason lr r3 built sound (omega (arith, known)) ret slot typed in
      inr (
        omega (arith, same, low),
        omega (arith, same, known),
        (
          fault_entry b reason m pro lr r3 slot,
          dump,
          rw found refl,
          held,
          omega (arith, same, same_reason),
          same_tag,
        ),
      )
]
