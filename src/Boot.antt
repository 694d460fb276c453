-- ===== src/Boot.antt =====
-- From a crash to the next boot: `panicdump_commit_snapshot`, or a fault handler that calls it, and
-- then `panicdump_boot_check_and_export` of src/panicdump.c.
use panicdump.Base.{ℕ, refl, ◌≡◌, ◌≤◌, ◌<◌, ◌∙◌, ◌^◌, ap, some, true, replicate, if◌then◌else◌}
use panicdump.Dump.{Dump}
use panicdump.Fields.Image.{image, image-IsBytes, length-image}
use panicdump.Codec.RoundTrip.{with_checksum-IsDump}
use panicdump.Slot.{Slot, Snapshot, has_valid, commit_snapshot}
use panicdump.Slot.Typed.{IsSlot, IsSnapshot, IsAccepted, recorded-IsDump, stack-HasSlice}
use panicdump.Slot.Commit.{commit_snapshot_lem}
use panicdump.Slot.Valid.{committed_dump, has_valid-commit_iff}
use panicdump.Export.{ExportStatus, ok, short_write, Writer, boot_check_and_export}
use panicdump.Export.Text.{dump_text}
use panicdump.Export.Feed.{feed}
use panicdump.Export.Spec.{boot_check_and_export_lem}
use panicdump.Port.CortexM.{Build, Machine, exc_frame_safe, fault_handler_c}
use panicdump.Port.CortexM.Typed.{IsMachine, IsBuild}
use panicdump.Port.CortexM.Fault.{
  expected_snapshot, fault_snapshot_lem, expected-IsSnapshot, expected-IsAccepted,
}

module _ {S : Type 0} (write : ℕ → Writer S) (s : S) where
  -- What a boot does with the slot whose image is that of a dump: the export, and the slot after it.
  abbrev pub exported : Slot → Dump → ExportStatus × Slot × S
  exported slot dump =
      let (all, s') = feed write (dump_text (image dump)) s in
      if all
      then (ok, record slot { dump_wire = replicate 192 0 }, s')
      else (short_write, record slot { dump_wire = image dump }, s')

  -- After a commit with accepted arguments.
  pub boot-commit :
      (slot : Slot) (c : Snapshot)
      → IsSlot slot
      → IsSnapshot c
      → IsAccepted c
      → boot_check_and_export (some write) (commit_snapshot slot c) s
        ≡ exported slot (committed_dump slot c)
  boot-commit slot c p h accepted =
      let dump = committed_dump slot c in
      let typed = with_checksum-IsDump _ (recorded-IsDump slot c p h) in
      let committed = commit_snapshot_lem slot c p.wire_length (stack-HasSlice c.stack h.stack) in
      let valid = (has_valid-commit_iff slot c p h).1 accepted in
      let there : has_valid (record slot { dump_wire = image dump }) ≡ true =
        rw (← committed) valid in
      ap (λ t. boot_check_and_export (some write) t s) committed
      ∙ boot_check_and_export_lem write (record slot { dump_wire = image dump }) s
          (length-image dump typed.stack.slice_length) (image-IsBytes dump typed.stack.slice_bytes)
      ∙ rw there refl

  -- The next boot after the fault handler has run, with a reason that the format knows and any
  -- callback: `panicdump_boot_check_and_export` passes the callback the text of the dump of the
  -- fault. If the callback takes all of it, the slot is cleared, and otherwise the dump is still there,
  -- whole, for another boot.
  pub boot-fault_handler_c :
      (b : Build) (m : Machine) (slot : Slot) (frame reason use_psp exc_return : ℕ)
      → IsBuild b
      → IsMachine m
      → IsSlot slot
      → reason ≤ 5
      → exc_return < 2 ^ 32
      → let crashed = fault_handler_c b m frame reason use_psp exc_return slot in
        let c = expected_snapshot b m frame reason use_psp exc_return (exc_frame_safe b frame) in
        boot_check_and_export (some write) crashed s ≡ exported slot (committed_dump slot c)
  unfolding fault_handler_c
  boot-fault_handler_c b m slot frame reason use_psp exc_return built sound typed known ret =
      let safe = exc_frame_safe b frame in
      let c = expected_snapshot b m frame reason use_psp exc_return safe in
      rw (fault_snapshot_lem b m frame reason use_psp exc_return) (
        boot-commit slot c typed
          (expected-IsSnapshot b m frame reason use_psp exc_return built sound known ret safe)
          (expected-IsAccepted b m frame reason use_psp exc_return built sound known ret safe))
