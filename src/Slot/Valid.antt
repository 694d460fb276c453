-- ===== src/Slot/Valid.antt =====
-- Which commits leave a valid dump, and what reading it back gives.
use panicdump.Base.{
  tabulate, tabulate-get_or, get_or, replicate, ℕ, ◌≡◌, ◌↔◌, ◌∙◌, arith, true, false, none, some,
  length, refl, sym, ap,
}
use panicdump.Dump.{Dump, IsDump}
use panicdump.Fields.{crc32_with_zero_crc, decode_dump_fields}
use panicdump.Fields.Image.{image, image-IsBytes, length-image}
use panicdump.Fields.Decode.{stored, decode-image}
use panicdump.Fields.Checksum.{checksum-image}
use panicdump.Codec.{validate_wire, image_valid}
use panicdump.Wire.{load_u32, zero_bytes}
use panicdump.Codec.Valid.{validate_wire_iff}
use panicdump.Codec.Header.{image-IsValidImage_iff}
use panicdump.Codec.RoundTrip.{with_checksum, with_checksum-IsDump}
use panicdump.Slot.{Slot, Snapshot, has_valid, get, clear, commit_snapshot}
use panicdump.Slot.Commit.{recorded, commit_snapshot_lem}
use panicdump.Slot.Typed.{IsSlot, IsSnapshot, IsAccepted, recorded-IsDump, stack-HasSlice}

-- The dump that a commit publishes.
abbrev pub committed_dump : Slot → Snapshot → Dump
committed_dump slot s = with_checksum (recorded slot.user_tag s)

module _ (slot : Slot) (s : Snapshot) (p : IsSlot slot) (h : IsSnapshot s) where
  abbrev sealed : Dump
  sealed = committed_dump slot s

  sealed-IsDump : IsDump sealed
  sealed-IsDump = with_checksum-IsDump _ (recorded-IsDump slot s p h)

  committed : commit_snapshot slot s ≡ record slot { dump_wire = image sealed }
  committed = commit_snapshot_lem slot s p.wire_length (stack-HasSlice s.stack h.stack)

  same_checksum : sealed.crc32 ≡ crc32_with_zero_crc (image sealed)
  same_checksum = sym (checksum-image (recorded slot.user_tag s) _ sealed.crc32)

  -- With arguments in the ranges of their C types, a commit leaves a valid dump exactly if its flags,
  -- architecture, reason and slice length are among those that the format knows.
  pub has_valid-commit_iff : (has_valid (commit_snapshot slot s) ≡ true) ↔ IsAccepted s
  unfolding has_valid
  has_valid-commit_iff =
      let stack = sealed-IsDump.stack in
      let full = length-image sealed stack.slice_length in
      let checked =
        validate_wire_iff (image sealed) 192 full (image-IsBytes sealed stack.slice_bytes) in
      let fields = image-IsValidImage_iff sealed sealed-IsDump in
      rw committed (ground (arith, checked, fields, same_checksum))

  pub decode-commit :
      IsAccepted s
      → decode_dump_fields (commit_snapshot slot s).dump_wire ≡ stored (committed_dump slot s)
  decode-commit ok =
      ap (λ (t : Slot). decode_dump_fields t.dump_wire) committed
      ∙ decode-image sealed sealed-IsDump (omega (arith, ok.stack_bytes))

  -- After a commit with accepted arguments `panicdump_get` returns the recorded dump, and keeps it as
  -- the cached one: the registers, the reason, the flags, the exception return and the user tag that
  -- the slot held, with the checksum of the image. Only the array of a stack record of length 0 is
  -- zero instead.
  pub get-commit :
      IsAccepted s
      → let slot' = commit_snapshot slot s in
        let dump = stored (committed_dump slot s) in
        get slot' ≡ (some dump, record slot' { cached_dump = dump })
  unfolding get
  get-commit ok =
      rw (has_valid-commit_iff.1 ok)
        (ap (λ d. (some d, record (commit_snapshot slot s) { cached_dump = d })) (decode-commit ok))

  -- A commit leaves a slot in range.
  pub commit-IsSlot : IsSlot (commit_snapshot slot s)
  commit-IsSlot = rw committed record {
    wire_length = length-image sealed sealed-IsDump.stack.slice_length;
    wire_bytes = image-IsBytes sealed sealed-IsDump.stack.slice_bytes;
    user_tag = p.user_tag;
  }

clear-cells : (w : ℕ → ℕ) → zero_bytes (tabulate 192 0 w) 0 192 ≡ replicate 192 0
unfolding zero_bytes
clear-cells w = refl

-- `panicdump_clear` zeroes an image of 192 bytes: no dump is there any more, `panicdump_get` returns null and
-- changes nothing, and the user tag and the cached dump stay.
pub clear_lem :
    (slot : Slot)
    → length slot.dump_wire ≡ 192
    → (clear slot ≡ record slot { dump_wire = replicate 192 0 })
      × (has_valid (clear slot) ≡ false)
      × (get (clear slot) ≡ (none, clear slot))
clear_lem slot e = (zeroed, gone, unfold get in rw gone)
  where
    zeroed : clear slot ≡ record slot { dump_wire = replicate 192 0 }
    zeroed =
        unfold clear in
        let cells = tabulate-get_or 192 slot.dump_wire 0 e in
        ap (λ w. record slot { dump_wire = zero_bytes w 0 192 }) (sym cells)
        ∙ ap (λ w. record slot { dump_wire = w }) (clear-cells (λ i. get_or slot.dump_wire i 0))

    gone : has_valid (clear slot) ≡ false
    gone = rw zeroed (unfold has_valid validate_wire image_valid load_u32 in refl)
