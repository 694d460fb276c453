-- ===== src/Trigger.antt =====
-- The software trigger of src/panicdump.c, over a port. None of the calls returns: the slot is what
-- `panicdump_port_reset` leaves to the next boot.
pub mod Recorded
use panicdump.Base.{ℕ, Option, none, some}
use panicdump.Format
use panicdump.Slot.{Slot, Snapshot, commit_snapshot}
use panicdump.Tag.{reason_tag_hash_n}
use panicdump.Port.{Port}

module _ {M : Type 0} (port : Port M) where
  open port use {arch_id, capture_sw_regs}

  unfoldable pub sw_snapshot : M → Snapshot
  sw_snapshot m =
      let (regs, stack) = capture_sw_regs m in
      record {
        arch_id = arch_id;
        regs = some regs;
        stack = some stack;
        fault_reason = Format.fault_sw_trigger;
        flags = 0;
        exc_return = 0;
      }

  unfoldable pub trigger_reason : M → Slot → ℕ → Slot
  trigger_reason m slot reason_tag =
      commit_snapshot (record slot { user_tag = reason_tag }) (sw_snapshot m)

  unfoldable pub trigger_tag : M → Slot → Option (ℕ → ℕ) → ℕ → Slot
  trigger_tag m slot none max_len = trigger_reason m slot slot.user_tag
  trigger_tag m slot (some tag) max_len =
      trigger_reason m slot (reason_tag_hash_n (some tag) max_len)

  unfoldable pub trigger : M → Slot → Option (ℕ → ℕ) → Slot
  unfolding trigger_tag
  trigger m slot reason_tag = trigger_tag m slot reason_tag Format.reason_tag_max_len
