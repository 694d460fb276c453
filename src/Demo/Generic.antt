-- ===== src/Demo/Generic.antt =====
-- examples/generic_cortexm_demo/generic_cortexm_demo.c. `your_uart_putchar` is the integrator's, and
-- returns nothing: `result` is what the export finds where it looks for a result.
pub mod Spec
use panicdump.Base.{ℕ, zero, suc, List, Bool, some, if◌then◌else◌}
use panicdump.Slot.{Slot, has_valid, set_user_tag}
use panicdump.Export.{Writer, codes, boot_check_and_export}
use panicdump.Tag.Hash.{c_string}
use panicdump.Port.{Port}
use panicdump.Trigger.{trigger}

abbrev pub tag_boot : ℕ
tag_boot = 0x01

abbrev pub tag_periph_init : ℕ
tag_periph_init = 0x10

abbrev pub tag_sensors_init : ℕ
tag_sensors_init = 0x20

abbrev pub tag_main_loop : ℕ
tag_main_loop = 0x30

abbrev pub tag_comms : ℕ
tag_comms = 0x40

module _ {S : Type 0} (your_uart_putchar : ℕ → S → S) (result : ℕ → S → Bool) where
  -- The function without a result, called as a callback that has one.
  abbrev pub as_callback : ℕ → Writer S
  as_callback c s = (result c s, your_uart_putchar c s)

  -- The `if` that looks for a dump.
  unfoldable pub check_dump : Slot → S → Slot × S
  check_dump slot s =
      if has_valid slot
      then (let (status, slot', s') = boot_check_and_export (some as_callback) slot s in
          (slot', s'))
      else (slot, s)

  -- `main` up to its loop.
  unfoldable pub start : Slot → S → Slot × S
  unfolding check_dump set_user_tag
  start slot s =
      let slot1 = set_user_tag slot tag_boot in
      let slot2 = set_user_tag slot1 tag_periph_init in
      let (slot3, s') = check_dump slot2 s in
      let slot4 = set_user_tag slot3 tag_sensors_init in (set_user_tag slot4 tag_main_loop, s')

-- `n` rounds of the loop.
unfoldable pub main_loop : ℕ → Slot → Slot
unfolding set_user_tag
main_loop zero slot = slot
main_loop (suc n) slot = main_loop n (set_user_tag (set_user_tag slot tag_comms) tag_main_loop)

abbrev pub assert_tag : List ℕ
assert_tag = codes "assert_failed"

-- `assert_failed`, which uses neither of its arguments.
unfoldable pub assert_failed : {M : Type 0} → Port M → M → Slot → Slot
unfolding trigger
assert_failed port m slot = trigger port m slot (some (c_string assert_tag))
