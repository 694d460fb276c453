-- ===== src/Port/CortexM/Publish.antt =====
-- src/panicdump_port_cortexm.c: `panicdump_port_publish_barrier`, `panicdump_port_reset`, and the fault
-- handler as the events that it makes. Its loops at the end make none.
pub mod Safe
use panicdump.Base.{ℕ, List, [], ◌∷◌, ◌++◌, Bool, if◌then◌else◌}
use panicdump.Slot.{Slot}
use panicdump.Slot.Events.{Event, barrier, wrote, commit_events}
use panicdump.Port.CortexM.{Build, Machine, fault_snapshot}

-- PANICDUMP_SCB_AIRCR
abbrev pub aircr : ℕ
aircr = 0xE000ED0C

-- `dmb`
unfoldable pub publish_barrier : List Event
publish_barrier = barrier ∷ []

-- `dsb`, the request, `dsb`
unfoldable pub reset : List Event
reset = barrier ∷ wrote aircr 0x05FA0004 ∷ barrier ∷ []

-- `halt_on_fault` is PANICDUMP_HALT_ON_FAULT.
unfoldable pub fault_events : Bool → Build → Machine → ℕ → ℕ → ℕ → ℕ → Slot → List Event
unfolding publish_barrier reset
fault_events halt_on_fault build m exc_frame fault_reason use_psp exc_return slot =
    let s = fault_snapshot build m exc_frame fault_reason use_psp exc_return in
    commit_events publish_barrier slot s ++ (if halt_on_fault then [] else reset)
