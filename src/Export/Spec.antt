-- ===== src/Export/Spec.antt =====
-- The export for any callback: its characters, in order, until the first that is refused.
use panicdump.Base.{replicate, ℕ, ◌≡◌, refl, ap, Bool, true, false, some, if◌then◌else◌, length}
use panicdump.Dump.{IsBytes}
use panicdump.Slot.Valid.{clear_lem}
use panicdump.Slot.{Slot, has_valid}
use panicdump.Export.{
  boot_check_and_export, clear_on, ExportStatus, ok, no_dump, short_write, Writer, export_hex,
}
use panicdump.Export.Text.{dump_text}
use panicdump.Export.Feed.{feed, write_dump-feed}

module _ {S : Type 0} where
  -- For every callback, `panicdump_export_hex` of a valid dump passes it the characters of the framed
  -- text in order until it refuses one, and reports a short write exactly if it did. Without a valid
  -- dump nothing is written.
  pub export_hex_lem :
      (write : ℕ → Writer S) (slot : Slot) (s : S)
      → IsBytes slot.dump_wire
      → export_hex (some write) slot s ≡ (
          if has_valid slot
          then (let (all, s') = feed write (dump_text slot.dump_wire) s in
              (if all then ok else short_write, s'))
          else (no_dump, s))
  unfolding export_hex
  export_hex_lem write slot s h =
      ap
        (λ (w : Writer S).
          if has_valid slot
          then (let (all, s') = w s in (if all then ok else short_write, s'))
          else (no_dump, s))
        (write_dump-feed write slot.dump_wire h)

  -- `panicdump_boot_check_and_export` with any callback: the slot is cleared exactly if a valid dump
  -- was there and the callback took all of the text. If it refused a character, or there was no valid
  -- dump, the slot is untouched.
  pub boot_check_and_export_lem :
      (write : ℕ → Writer S) (slot : Slot) (s : S)
      → length slot.dump_wire ≡ 192
      → IsBytes slot.dump_wire
      → boot_check_and_export (some write) slot s ≡ (
          if has_valid slot
          then (let (all, s') = feed write (dump_text slot.dump_wire) s in
              (if all
                then (ok, record slot { dump_wire = replicate 192 0 }, s')
                else (short_write, slot, s')))
          else (no_dump, slot, s))
  unfolding boot_check_and_export clear_on
  boot_check_and_export_lem write slot s full h =
      rw (export_hex_lem write slot s h)
        (branch (has_valid slot) (feed write (dump_text slot.dump_wire) s).0)
    where
      branch :
          (valid all : Bool)
          → let s' = (feed write (dump_text slot.dump_wire) s).1 in
            let out : ExportStatus × S =
              if valid then (if all then ok else short_write, s') else (no_dump, s) in
            let (status, s'') = out in
            ◌≡◌ {A = ExportStatus × Slot × S}
              (status, clear_on status slot, s'')
              (if valid
                then (if all
                    then (ok, record slot { dump_wire = replicate 192 0 }, s')
                    else (short_write, slot, s'))
                else (no_dump, slot, s))
      branch true true =
          ap (λ c. (ok, c, (feed write (dump_text slot.dump_wire) s).1)) (clear_lem slot full).0
      branch true false = refl
      branch false all = refl
