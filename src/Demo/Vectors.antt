-- ===== src/Demo/Vectors.antt =====
-- The vector table of examples/stm32f4_demo/startup_stm32f4.S, and the stubs in it, of
-- ports/cortexm/panicdump_fault_entry.S.
pub mod Recorded
use panicdump.Base.{ℕ, List, ◌∷◌, Option, none, some, replicate, get_or}
use panicdump.Slot.{Slot}
use panicdump.Port.CortexM.{Build, Machine, Prologue, fault_entry}

-- The words of the table: the initial stack pointer, the handlers, and the reserved zeros.
pub data Vector : Type 0 where
  estack reserved : Vector
  reset_vector default_vector : Vector
  hard_fault mem_manage bus_fault usage_fault : Vector

unfoldable pub vector_table : List Vector
vector_table =
    estack
    ∷ reset_vector
    ∷ default_vector
    ∷ hard_fault
    ∷ mem_manage
    ∷ bus_fault
    ∷ usage_fault
    ∷ reserved
    ∷ reserved
    ∷ reserved
    ∷ reserved
    ∷ default_vector
    ∷ default_vector
    ∷ reserved
    ∷ default_vector
    ∷ default_vector
    ∷ replicate 68 default_vector

-- The arguments of FAULT_ENTRY.
unfoldable pub stub_reason : Vector → Option ℕ
stub_reason hard_fault = some 1
stub_reason mem_manage = some 2
stub_reason bus_fault = some 3
stub_reason usage_fault = some 4
stub_reason other = none

-- The slot that the stub leaves which the processor finds at the number of the exception. `none` is
-- `Default_Handler`, which loops and writes nothing, and what is not the vector of an exception.
unfoldable pub take_exception : Build → Machine → Prologue → ℕ → ℕ → ℕ → Slot → Option Slot
unfolding vector_table stub_reason
take_exception build m pro number lr r3 slot =
    elim (stub_reason (get_or vector_table number reserved)) [
      | none ↦ none
      | some reason ↦ some (fault_entry build reason m pro lr r3 slot)
    ]
