-- ===== src/Trigger/Recorded.antt =====
-- What the software trigger leaves to the next boot, for every port.
use panicdump.Base.{ℕ, ◌≡◌, ◌<◌, refl, ◌^◌, ap, arith, List, some, none, Option, true, take}
use panicdump.Dump.{Dump}
use panicdump.Fields.Decode.{stored}
use panicdump.Slot.{Slot, has_valid, get}
use panicdump.Slot.Typed.{IsSlot, IsSnapshot, IsAccepted}
use panicdump.Slot.Valid.{committed_dump, has_valid-commit_iff, get-commit}
use panicdump.Tag.Hash.{c_string, IsText, fnv1a, fnv1a-lt, hash_n-fnv1a}
use panicdump.Port.{Port}
use panicdump.Trigger.{sw_snapshot, trigger_reason, trigger}

module _ {M : Type 0} (port : Port M) (m : M) (sound : port.Sound m) where
  pub sw_snapshot-IsSnapshot : IsSnapshot (sw_snapshot port m)
  unfolding sw_snapshot
  sw_snapshot-IsSnapshot = record {
    arch_id = omega (arith, port.arch_known);
    regs = port.regs_typed m sound;
    stack = port.stack_typed m sound;
    fault_reason = omega arith;
    flags = omega arith;
    exc_return = omega arith;
  }

  pub sw_snapshot-IsAccepted : IsAccepted (sw_snapshot port m)
  unfolding sw_snapshot
  sw_snapshot-IsAccepted = record {
    flags = omega arith;
    arch_id = port.arch_known;
    fault_reason = omega arith;
    stack_bytes = port.slice_size m;
  }

-- After a trigger with a reason, on any port whose values are in range, the slot holds a valid dump, and `panicdump_get` returns
-- it: software trigger as the reason, no flags, a zero sequence, the given tag, and the registers
-- and the stack that the port captured.
pub get-trigger_reason :
    {M : Type 0} (port : Port M) (m : M) (slot : Slot) (tag : ℕ)
    → port.Sound m
    → IsSlot slot
    → tag < 2 ^ 32
    → let slot' = trigger_reason port m slot tag in
      let before = record slot { user_tag = tag } in
      (has_valid slot' ≡ true)
      × ((get slot').0 ≡ some (stored (committed_dump before (sw_snapshot port m))))
unfolding trigger_reason
get-trigger_reason port m slot tag sound typed fits =
    let before = record slot { user_tag = tag } in
    let ready : IsSlot before = record {
      wire_length = typed.wire_length;
      wire_bytes = typed.wire_bytes;
      user_tag = fits;
    } in
    let s = sw_snapshot port m in
    let snapshot = sw_snapshot-IsSnapshot port m sound in
    let accepted = sw_snapshot-IsAccepted port m sound in
    (
      (has_valid-commit_iff before s ready snapshot).1 accepted,
      ap (λ r. r.0) (get-commit before s ready snapshot accepted),
    )

-- The pointer to a string, and the tag that it stands for: without a string, the one in the slot.
abbrev pub text_pointer : Option (List ℕ) → Option (ℕ → ℕ)
text_pointer none = none
text_pointer (some text) = some (c_string text)

abbrev pub IsTextOption : Option (List ℕ) → Type 0
IsTextOption none = Unit
IsTextOption (some text) = IsText text

abbrev pub tag_of : Slot → Option (List ℕ) → ℕ
tag_of slot none = slot.user_tag
tag_of slot (some text) = fnv1a 2166136261 (take 32 text)

pub tag_of-lt : (slot : Slot) (text : Option (List ℕ)) → IsSlot slot → tag_of slot text < 2 ^ 32
tag_of-lt slot none typed = typed.user_tag
tag_of-lt slot (some text) typed = fnv1a-lt 2166136261 (take 32 text) (omega arith)

pub trigger-tag_of :
    {M : Type 0} (port : Port M) (m : M) (slot : Slot) (text : Option (List ℕ))
    → IsTextOption text
    → trigger port m slot (text_pointer text) ≡ trigger_reason port m slot (tag_of slot text)
unfolding trigger
trigger-tag_of port m slot none h = refl
trigger-tag_of port m slot (some text) h = ap (trigger_reason port m slot) (hash_n-fnv1a text 32 h)

-- The next boot finds the dump of `panicdump_trigger` with the tag's FNV-1a hash, over 32 characters at
-- most, as its user tag; without a string, with the user tag that was set before.
pub trigger-user_tag :
    {M : Type 0} (port : Port M) (m : M) (slot : Slot) (text : Option (List ℕ))
    → port.Sound m
    → IsSlot slot
    → IsTextOption text
    → (dump : Dump) × ((get (trigger port m slot (text_pointer text))).0 ≡ some dump)
      × (dump.user_tag ≡ tag_of slot text)
      × (dump.fault_reason ≡ 5)
trigger-user_tag port m slot text sound typed h =
    let before = record slot { user_tag = tag_of slot text } in
    let found =
      get-trigger_reason port m slot (tag_of slot text) sound typed (tag_of-lt slot text typed) in
    (
      stored (committed_dump before (sw_snapshot port m)),
      rw (trigger-tag_of port m slot text h) found.1,
      refl,
      unfold sw_snapshot in refl,
    )
