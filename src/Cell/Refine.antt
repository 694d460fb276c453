-- ===== src/Cell/Refine.antt =====
-- The library answers every sequence of calls as the cell does.
use mathlib.Core.Path.{subst}
use panicdump.Base.{
  ℕ, ◌<◌, ◌^◌, ◌≡◌, inl, inr, refl, sym, ap, ap₂, ◌∙◌, arith, List, [], ◌∷◌, Option, none, some,
  if◌then◌else◌, Bool-cases, replicate, length,
}
use panicdump.Dump.{Dump, IsBytes}
use panicdump.Fields.Image.{image}
use panicdump.Slot.{Slot, get, set_user_tag, get_user_tag}
use panicdump.Slot.Typed.{IsSnapshot}
use panicdump.Slot.Valid.{clear_lem}
use panicdump.Export.{ExportStatus, ok, short_write, Writer, boot_check_and_export}
use panicdump.Export.Text.{dump_text}
use panicdump.Export.Feed.{feed}
use panicdump.Export.Spec.{boot_check_and_export_lem}
use panicdump.Port.{Port}
use panicdump.Trigger.{trigger, trigger_reason, sw_snapshot}
use panicdump.Trigger.Recorded.{
  text_pointer, IsTextOption, tag_of, tag_of-lt, trigger-tag_of, sw_snapshot-IsSnapshot,
}
use panicdump.Cell.{
  Call, set_tag, get_tag, check, read, erase, crash, torn, torn_erase, trip, restart, boot, Answer,
  tag, valid, found, Cell, publish, text_tag, call, step, answers, cell_answers,
}
use panicdump.Cell.Holds.{
  Shows, same-Holds, has_valid-Holds, get-Holds, commit-Shows, cleared-Shows, torn-Shows,
  torn_erase-Shows,
}

same_tag :
    (slot : Slot) (cell : Cell) (text : Option (List ℕ))
    → Shows slot cell
    → tag_of slot text ≡ text_tag cell.tag text
same_tag slot cell none h = h.tag
same_tag slot cell (some text) h = refl

module _ {M S : Type 0} (port : Port M) (write : ℕ → Writer S) where
  -- The ranges of the arguments.
  abbrev pub IsCall : Call M S → Type 0
  IsCall (set_tag t) = t < 2 ^ 32
  IsCall get_tag = Unit
  IsCall check = Unit
  IsCall read = Unit
  IsCall erase = Unit
  IsCall (crash s) = IsSnapshot s
  IsCall (torn s missing) = IsSnapshot s
  IsCall (torn_erase more) = Unit
  IsCall (trip m text) = port.Sound m × IsTextOption text
  IsCall (restart start_up) = Unit
  IsCall (boot s) = Unit

  abbrev pub AreCalls : List (Call M S) → Type 0
  AreCalls [] = Unit
  AreCalls (c ∷ calls) = IsCall c × AreCalls calls

  -- An answer of both, and states after it that agree.
  abbrev Agrees : Answer S × Slot → Answer S × Cell → Type 0
  Agrees (a, slot) (b, cell) = (a ≡ b) × Shows slot cell

  -- A call that leaves the image.
  retagged-Shows :
      (slot slot' : Slot) (cell : Cell) (t : ℕ)
      → slot'.dump_wire ≡ slot.dump_wire
      → slot'.user_tag ≡ t
      → t < 2 ^ 32
      → Shows slot cell
      → Shows slot' (record cell { tag = t })
  retagged-Shows slot slot' cell t wire same fits h = record {
    typed = record {
      wire_length = ap length wire ∙ h.typed.wire_length;
      wire_bytes = subst IsBytes (sym wire) h.typed.wire_bytes;
      user_tag = omega (arith, same);
    };
    tag = same;
    holds = same-Holds slot slot' cell.dump wire h.holds;
  }

  same-Shows :
      (slot slot' : Slot) (cell : Cell)
      → slot'.dump_wire ≡ slot.dump_wire
      → slot'.user_tag ≡ slot.user_tag
      → Shows slot cell
      → Shows slot' cell
  same-Shows slot slot' cell wire same h =
      retagged-Shows slot slot' cell cell.tag wire (same ∙ h.tag)
        (omega (arith, h.tag, h.typed.user_tag)) h

  boot-Agrees :
      (slot : Slot) (t : ℕ) (dump : Option Dump) (s : S)
      → let cell : Cell = record { tag = t; dump = dump } in
        Shows slot cell → Agrees (call port write (boot s) slot) (step port write (boot s) cell)
  unfolding call step
  boot-Agrees slot t none s h =
      rw (boot_check_and_export_lem write slot s h.typed.wire_length h.typed.wire_bytes, h.holds)
        (refl, h)
  boot-Agrees slot t (some dump) s h =
      let text = λ (w : List ℕ). feed write (dump_text w) s in
      let outcome : List ℕ → ExportStatus × Slot × S = λ w.
        if (text w).0
        then (ok, record slot { dump_wire = replicate 192 0 }, (text w).1)
        else (short_write, slot, (text w).1) in
      let exports : boot_check_and_export (some write) slot s ≡ outcome (image dump) =
        boot_check_and_export_lem write slot s h.typed.wire_length h.typed.wire_bytes
        ∙ rw h.holds.0 (ap outcome h.holds.1) in
      elim (Bool-cases (text (image dump)).0) [
        | inl all ↦
            rw (exports, all) (refl, cleared-Shows slot (record { tag = t; dump = some dump }) h)
        | inr short ↦ rw (exports, short) (refl, h)
      ]

  trip-Shows :
      (slot : Slot) (cell : Cell) (m : M) (text : Option (List ℕ))
      → port.Sound m
      → IsTextOption text
      → Shows slot cell
      → Shows
          (trigger port m slot (text_pointer text))
          (publish (record cell { tag = text_tag cell.tag text }) (sw_snapshot port m))
  unfolding trigger_reason
  trip-Shows slot cell m text sound plain h =
      let fits = tag_of-lt slot text h.typed in
      let ready =
        retagged-Shows slot (record slot { user_tag = tag_of slot text }) cell
          (text_tag cell.tag text) refl (same_tag slot cell text h)
          (omega (arith, fits, same_tag slot cell text h)) h in
      rw (trigger-tag_of port m slot text plain) (
        commit-Shows (record slot { user_tag = tag_of slot text })
          (record cell { tag = text_tag cell.tag text }) (sw_snapshot port m) ready
          (sw_snapshot-IsSnapshot port m sound))

  call-Agrees :
      (c : Call M S) (slot : Slot) (cell : Cell)
      → IsCall c
      → Shows slot cell
      → Agrees (call port write c slot) (step port write c cell)
  unfolding call step set_user_tag get_user_tag
  call-Agrees (set_tag t) slot cell fits h =
      (refl, retagged-Shows slot (record slot { user_tag = t }) cell t refl refl fits h)
  call-Agrees get_tag slot cell fits h = (ap tag h.tag, h)
  call-Agrees check slot cell fits h = (ap valid (has_valid-Holds slot cell.dump h.holds), h)
  call-Agrees read slot cell fits h =
      let (same, wire, user_tag) = get-Holds slot cell.dump h.holds in
      (ap found same, same-Shows slot (get slot).1 cell wire user_tag h)
  call-Agrees erase slot cell fits h =
      (refl, rw (clear_lem slot h.typed.wire_length).0 (cleared-Shows slot cell h))
  call-Agrees (crash s) slot cell fits h = (refl, commit-Shows slot cell s h fits)
  call-Agrees (torn s missing) slot cell fits h = (refl, torn-Shows slot cell s missing h fits)
  call-Agrees (torn_erase more) slot cell fits h = (refl, torn_erase-Shows slot cell more h)
  call-Agrees (trip m text) slot cell (sound, plain) h =
      (refl, trip-Shows slot cell m text sound plain h)
  call-Agrees (restart start_up) slot cell fits h = (refl, same-Shows slot _ cell refl refl h)
  call-Agrees (boot s) slot cell fits h = boot-Agrees slot cell.tag cell.dump s h

  -- With a slot that shows a cell: calls, faults, triggers, resets, boots with the callback `write`, and
  -- commits and clears of which some of the stores are made but not all, in any order, get the answers
  -- that the cell gives, if the arguments are in the ranges of their C types and a trigger's string
  -- is one. For the cell, a commit or a clear that is cut short leaves no dump.
  pub answers-cell_answers :
      (calls : List (Call M S)) (slot : Slot) (cell : Cell)
      → AreCalls calls
      → Shows slot cell
      → answers port write calls slot ≡ cell_answers port write calls cell
  unfolding answers cell_answers
  answers-cell_answers [] slot cell typed h = refl
  answers-cell_answers (c ∷ calls) slot cell typed h =
      let (same, after) = call-Agrees c slot cell typed.0 h in
      ap₂ ◌∷◌ same (
        answers-cell_answers calls (call port write c slot).1 (step port write c cell).1 typed.1
          after)
