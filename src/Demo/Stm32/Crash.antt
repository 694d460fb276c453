-- ===== src/Demo/Stm32/Crash.antt =====
-- The deliberate fault of the demo, and the boot after it.
use panicdump.Base.{ℕ, ◌≤◌, ◌<◌, ◌≡◌, ◌^◌, refl, arith, Bool, some}
use panicdump.Dump.{Dump, IsBytes}
use panicdump.Slot.{get}
use panicdump.Slot.Typed.{IsSlot}
use panicdump.Slot.Valid.{commit-IsSlot}
use panicdump.Port.CortexM.{Build, Machine, Prologue, in_handler, fault_entry}
use panicdump.Port.CortexM.Typed.{IsBuild, IsMachine}
use panicdump.Port.CortexM.Entry.{
  entry_snapshot, fault_entry-commit, entry-IsSnapshot, get-fault_entry,
}
use panicdump.Demo.Uart.{Uart}
use panicdump.Demo.Uart.Sends.{IsLive}
use panicdump.Demo.Delay.{delay_ms_lem}
use panicdump.Demo.Stm32.{Board, start, demo_trigger_fault, trigger_text}
use panicdump.Demo.Stm32.Puts.{puts-Shows}
use panicdump.Demo.Stm32.Boot.{Started, start-Started}

trigger_text-IsBytes : IsBytes trigger_text
unfolding trigger_text
trigger_text-IsBytes = omega arith

-- On a serial port that is ready again and again, `demo_trigger_fault` gets to its fault. If the fault
-- comes in through a stub with a reason that the format knows, the dump that it leaves has that reason
-- and the user tag of the board, and the next boot, with any state of the port, sends its text, exactly
-- the characters up to the first after which the result found is false, and clears it.
pub crash-Started :
    (status : ℕ → ℕ) (fuel rounds : ℕ) (result : ℕ → Uart → Bool) (b : Build) (m : Machine)
    (pro : Prologue) (board : Board) (reason lr r3 : ℕ) (uart : Uart)
    → IsLive status fuel
    → 4000000 < rounds
    → IsBuild b
    → IsMachine (in_handler m pro)
    → IsSlot board.slot
    → reason ≤ 5
    → r3 < 2 ^ 32
    → (crashed : Board) × (demo_trigger_fault status fuel rounds b m pro reason lr r3 board
        ≡ some crashed)
      × ((dump : Dump) × ((get crashed.slot).0 ≡ some dump)
          × (dump.fault_reason ≡ reason)
          × (dump.user_tag ≡ board.slot.user_tag))
      × ((board' : Board) × (start status fuel rounds result (record crashed { uart = uart })
            ≡ some board')
          × Started status fuel result (record crashed { uart = uart }) board')
unfolding demo_trigger_fault
crash-Started status fuel rounds result b m pro board reason lr r3 uart live enough built sound
      typed known ret =
    let (u, done, sent) = puts-Shows status fuel live trigger_text board trigger_text-IsBytes in
    let waited = delay_ms_lem rounds 1000 (omega arith) (omega arith) in
    let slot = fault_entry b reason m pro lr r3 board.slot in
    let crashed : Board = record { slot = slot; uart = u } in
    let snapshot = entry-IsSnapshot b m pro reason lr r3 built sound known ret in
    let commit = fault_entry-commit b m pro board.slot reason lr r3 in
    let kept : IsSlot slot =
      rw commit (commit-IsSlot board.slot (entry_snapshot b m pro reason lr r3) typed snapshot) in
    let (valid, (dump, found, sequence, same_reason, same_tag)) =
      get-fault_entry b m pro reason lr r3 built sound known ret board.slot typed in
    (
      crashed,
      rw (done, waited, demo_trigger_fault) refl,
      (dump, found, same_reason, same_tag),
      start-Started status fuel rounds result live enough (record crashed { uart = uart })
          kept.wire_length kept.wire_bytes valid,
    )
