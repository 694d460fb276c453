-- ===== src/Port/Host.antt =====
-- src/panicdump_port_host.c
use panicdump.Base.{ℕ, ◌≡◌, ◌⊎◌, ap, ◌∙◌, arith, u32, List, [], ◌∷◌, ◌++◌}
use panicdump.Slot.{Slot, Snapshot, commit_snapshot}
use panicdump.Slot.Stores.{word, run, payload_stores, checksum_stores, commit_stores}
use panicdump.Slot.Stores.Order.{run-commit_stores}
use panicdump.Slot.Events.{Event, stored, stores_of, commit_events, marker_events}
use panicdump.Slot.Events.Commit.{stores_of-issue}
use panicdump.Dump.{Regs, Stack, IsRegs, IsStack, zero_regs, zero_stack}

-- All is zero but the address of the caller's struct, cut to 32 bits.
unfoldable pub capture_sw_regs : ℕ → Regs × Stack
capture_sw_regs out_stack = (zero_regs, record zero_stack { captured_sp = u32 out_stack })

-- It makes no event. `panicdump_port_reset` ends the process with `abort`.
unfoldable pub publish_barrier : List Event
publish_barrier = []

-- PANICDUMP_PORT_ARCH_ID of a host build.
abbrev pub arch_id : ℕ
arch_id = 4

pub capture-IsRegs : (address : ℕ) → IsRegs (capture_sw_regs address).0
unfolding capture_sw_regs
capture-IsRegs address = omega arith

pub capture-IsStack : (address : ℕ) → IsStack (capture_sw_regs address).1
unfolding capture_sw_regs
capture-IsStack address = ground arith

pub capture-slice :
    (address : ℕ)
    → let stack = (capture_sw_regs address).1 in (stack.stack_bytes ≡ 0) ⊎ (stack.stack_bytes ≡ 64)
unfolding capture_sw_regs
capture-slice address = omega arith

pub arch-known : (arch_id ≡ 3) ⊎ (arch_id ≡ 4)
arch-known = omega arith

-- On the host a commit is its stores alone.
stores_of-commit_events :
    (slot : Slot) (s : Snapshot)
    → stores_of (commit_events publish_barrier slot s) ≡ commit_stores slot s
unfolding commit_events marker_events commit_stores publish_barrier stores_of
stores_of-commit_events slot s =
    let body = payload_stores slot.user_tag s ++ checksum_stores slot.dump_wire slot.user_tag s in
    stores_of-issue (word 0 0 ∷ body) (stored (word 0 0x50444331) ∷ [])

-- They make the image that the function makes.
pub run-commit_events :
    (slot : Slot) (s : Snapshot)
    → run slot.dump_wire (stores_of (commit_events publish_barrier slot s))
      ≡ (commit_snapshot slot s).dump_wire
run-commit_events slot s =
    ap (run slot.dump_wire) (stores_of-commit_events slot s) ∙ run-commit_stores slot s
