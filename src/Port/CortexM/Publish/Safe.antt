-- ===== src/Port/CortexM/Publish/Safe.antt =====
-- A reset at any time during the fault handler, and the one that it requests.
use panicdump.Base.{
  ℕ, ◌≡◌, ◌≢◌, ◌⊎◌, inl, inr, Bool-cases, refl, sym, ◌∙◌, arith, List, [], ◌∷◌, ◌++◌, Bool, true,
  false, length, if◌then◌else◌,
}
use mathlib.Core.Path.{subst}
use mathlib.Core.List.{append_assoc}
use panicdump.Wire.{load_u32}
use panicdump.Codec.{validate_wire, image_valid}
use panicdump.Slot.{Slot, has_valid}
use panicdump.Slot.Stores.{Store, run}
use panicdump.Slot.Events.{Event, stored, barrier, wrote, Runs, begin, stores_of, commit_events}
use panicdump.Slot.Events.Order.{Guarded, Fenced, NoWrite, Absent}
use panicdump.Slot.Events.Publish.{magic-final, write-final, in_order}
use panicdump.Slot.Events.Commit.{commit-Guarded, commit-Fenced, run-commit_events}
use panicdump.Port.CortexM.{Build, Machine, fault_snapshot, fault_handler_c}
use panicdump.Port.CortexM.Publish.{aircr, publish_barrier, reset, fault_events}

has_valid-magic : (slot : Slot) → has_valid slot ≡ true → load_u32 slot.dump_wire 0 ≡ 0x50444331
unfolding has_valid validate_wire image_valid
has_valid-magic slot h = ground (arith, h)

abbrev ending : Bool → List Event
ending halt_on_fault = if halt_on_fault then [] else reset

no_stores : (halt_on_fault : Bool) → stores_of (ending halt_on_fault) ≡ []
unfolding stores_of reset
no_stores true = refl
no_stores false = refl

ending-Fenced :
    (halt_on_fault : Bool) → NoWrite (ending halt_on_fault) × Fenced (ending halt_on_fault)
unfolding Fenced reset stores_of
ending-Fenced true = (tt, tt)
ending-Fenced false = (tt, (refl, tt))

abbrev pub about_to_write : List Event → Bool
about_to_write (wrote a v ∷ later) = true
about_to_write other = false

requested :
    (program : List Event) (before : List ℕ)
    → Guarded program
    → Fenced program
    → Absent before
    → {after : List ℕ} → run before (stores_of program) ≡ after
    → (rest : List Event) (wire : List ℕ) (held : List Store) → Runs program before rest wire held
    → (about_to_write rest ≡ false) ⊎ (wire ≡ after)
requested program before g f p image (wrote a v ∷ later) wire held runs =
    inr (write-final program before g f p runs ∙ image)
requested program before g f p image (stored s ∷ later) wire held runs = inl refl
requested program before g f p image (barrier ∷ later) wire held runs = inl refl
requested program before g f p image [] wire held runs = inl refl

-- Let stores of the fault handler land in any order, but for those to the same byte and the barriers.
-- If the slot had no magic before, then at any time a valid dump in memory is the whole image
-- that the handler commits, and that image is in memory when the reset is requested, the one write of a
-- device register.
pub fault_events-published :
    (halt_on_fault : Bool) (b : Build) (m : Machine) (exc_frame fault_reason use_psp exc_return : ℕ)
    (slot : Slot) (rest : List Event) (wire : List ℕ) (held : List Store)
    → length slot.dump_wire ≡ 192
    → load_u32 slot.dump_wire 0 ≢ 0x50444331
    → Runs
        (fault_events halt_on_fault b m exc_frame fault_reason use_psp exc_return slot)
        slot.dump_wire
        rest
        wire
        held
    → let slot' = fault_handler_c b m exc_frame fault_reason use_psp exc_return slot in
      ((has_valid (record slot { dump_wire = wire }) ≡ false) ⊎ (wire ≡ slot'.dump_wire))
      × ((about_to_write rest ≡ false) ⊎ (wire ≡ slot'.dump_wire))
unfolding fault_events fault_handler_c publish_barrier
fault_events-published halt_on_fault b m exc_frame fault_reason use_psp exc_return slot rest wire
      held full absent runs =
    let s = fault_snapshot b m exc_frame fault_reason use_psp exc_return in
    let program = fault_events halt_on_fault b m exc_frame fault_reason use_psp exc_return slot in
    let after = ending halt_on_fault in
    let quiet = no_stores halt_on_fault in
    let (next, fence) = ending-Fenced halt_on_fault in
    let guarded = commit-Guarded slot s after quiet in
    let fenced = commit-Fenced slot s after quiet next fence in
    let start : Absent slot.dump_wire = record { full = full; magic = absent } in
    let image = run-commit_events slot s after quiet in
    (
      elim (Bool-cases (has_valid (record slot { dump_wire = wire }))) [
        | inl valid ↦ inr (
            magic-final program slot.dump_wire guarded fenced start runs (has_valid-magic _ valid)
            ∙ image)
        | inr gone ↦ inl gone
      ],
      requested program slot.dump_wire guarded fenced start image rest wire held runs,
    )

-- The fault handler gets to its request.
pub fault_events-reset :
    (b : Build) (m : Machine) (exc_frame fault_reason use_psp exc_return : ℕ) (slot : Slot)
    → (wire : List ℕ) × Runs
        (fault_events false b m exc_frame fault_reason use_psp exc_return slot)
        slot.dump_wire
        (wrote aircr 0x05FA0004 ∷ barrier ∷ [])
        wire
        []
unfolding fault_events reset
fault_events-reset b m exc_frame fault_reason use_psp exc_return slot =
    let s = fault_snapshot b m exc_frame fault_reason use_psp exc_return in
    let commit = commit_events publish_barrier slot s in
    let program = fault_events false b m exc_frame fault_reason use_psp exc_return slot in
    let left : List Event = wrote aircr 0x05FA0004 ∷ barrier ∷ [] in
    let split : program ≡ (commit ++ barrier ∷ []) ++ left =
      sym (append_assoc commit (barrier ∷ []) left) in
    (
      run slot.dump_wire (stores_of (commit ++ barrier ∷ [])),
      in_order (commit ++ barrier ∷ []) left slot.dump_wire
          (subst (λ r. Runs program slot.dump_wire r slot.dump_wire []) split begin),
    )
