-- ===== src/Tests/Commits.antt =====
-- The theorems on the slot and on commits, at concrete inputs.
use panicdump.Base.{◌∷◌, [], ◌≡◌, ◌↔◌, ◌<◌, refl, arith, some, true, false, take, length}
use panicdump.Fields.Decode.{stored}
use panicdump.Wire.{load_u32}
use panicdump.Codec.{validate_wire, image_valid}
use panicdump.Slot.{Slot, has_valid, get, set_user_tag, commit_snapshot}
use panicdump.Slot.Typed.{IsAccepted}
use panicdump.Slot.Valid.{committed_dump, has_valid-commit_iff, get-commit}
use panicdump.Slot.Stores.{
  run, commit_stores, payload_stores, header_stores, regs_stores, stack_stores, slice_stores,
  words_stores, copy_stores, checksum_stores,
}
use panicdump.Slot.Stores.Order.{interrupted_commit}
use panicdump.Slot.Life.{Reach, here, next, publish, tagged, restarted, IsWhole, Reach-IsWhole}
use panicdump.Tests.Samples.{
  sample_dump, used_slot, used_slot-IsSlot, sample_snapshot, sample_snapshot-IsSnapshot,
  sample_snapshot-IsAccepted,
}

stores_left : 100 < length (commit_stores used_slot sample_snapshot)
unfolding commit_stores payload_stores header_stores regs_stores stack_stores slice_stores
    words_stores copy_stores checksum_stores
stores_left = omega arith

interrupted_commit_example :
    has_valid (record used_slot {
      dump_wire = run used_slot.dump_wire (take 100 (commit_stores used_slot sample_snapshot));
    })
    ≡ false
interrupted_commit_example =
    interrupted_commit used_slot sample_snapshot 100 refl (omega arith) stores_left

has_valid-commit_iff_example :
    (has_valid (commit_snapshot used_slot sample_snapshot) ≡ true) ↔ IsAccepted sample_snapshot
has_valid-commit_iff_example =
    has_valid-commit_iff used_slot sample_snapshot used_slot-IsSlot sample_snapshot-IsSnapshot

get-commit_example :
    let slot' = commit_snapshot used_slot sample_snapshot in
    let dump = stored (committed_dump used_slot sample_snapshot) in
    get slot' ≡ (some dump, record slot' { cached_dump = dump })
get-commit_example =
    get-commit used_slot sample_snapshot used_slot-IsSlot sample_snapshot-IsSnapshot
      sample_snapshot-IsAccepted

pub no_dump_yet : has_valid used_slot ≡ false
unfolding has_valid validate_wire image_valid load_u32
no_dump_yet = refl

-- A commit, a reset, and the user tag of the next boot.
abbrev next_boot : Slot
next_boot =
    set_user_tag (record (commit_snapshot used_slot sample_snapshot) { cached_dump = sample_dump })
      7

committed_and_tagged : Reach used_slot ((0xABCD1234, sample_snapshot) ∷ []) next_boot
committed_and_tagged =
    next (next (publish here sample_snapshot refl) (restarted _ sample_dump)) (tagged _ 7)

Reach-IsWhole_example : IsWhole ((0xABCD1234, sample_snapshot) ∷ []) next_boot
Reach-IsWhole_example = Reach-IsWhole refl no_dump_yet committed_and_tagged
