-- ===== src/Cell/Holds.antt =====
-- When a slot holds what a cell does, and that commits and the calls keep it so.
use mathlib.Core.Path.{subst}
use panicdump.Base.{
  ℕ, ◌≤◌, ◌≡◌, ◌↔◌, inl, inr, refl, ap, ◌∙◌, arith, true, false, Option, none, some, Bool-cases,
  replicate, List, [], ◌∷◌, ◌++◌, ◌<◌, ◌-◌, suc, length, length-append, take,
}
use panicdump.Dump.{Dump, IsDump}
use panicdump.Fields.Image.{image}
use panicdump.Fields.Decode.{decode-image}
use panicdump.Fields.{decode_dump_fields}
use panicdump.Codec.RoundTrip.{with_checksum-IsDump}
use panicdump.Slot.{Slot, Snapshot, has_valid, get, commit_snapshot}
use panicdump.Slot.Commit.{commit_snapshot_lem}
use panicdump.Slot.Typed.{IsSlot, IsSnapshot, IsAccepted, recorded-IsDump, stack-HasSlice}
use panicdump.Slot.Valid.{clear_lem, has_valid-commit_iff, commit-IsSlot}
use panicdump.Slot.Stores.{
  Store, word, run, payload_stores, checksum_stores, commit_stores, clear_stores,
}
use panicdump.Slot.Stores.Order.{interrupted_commit}
use panicdump.Slot.Stores.Clear.{interrupted_clear}
use panicdump.Slot.Stores.Bytes.{
  AreBytes, AreBytes-take, run-IsBytes, commit_stores-AreBytes, zero_stores-AreBytes,
}
use panicdump.Slot.Life.{has_valid-image, length-run}
use panicdump.Cell.{Cell, torn_stores, is_accepted, publish, is_some, read_back}

abbrev pub Holds : Slot → Option Dump → Type 0
Holds slot none = has_valid slot ≡ false
Holds slot (some dump) =
    (has_valid slot ≡ true)
    × (slot.dump_wire ≡ image dump)
    × IsDump dump
    × (dump.stack.stack_bytes ≤ 64)

-- The slot shows the cell.
pub record Shows (slot : Slot) (cell : Cell) : Type 0 where
  pub typed : IsSlot slot
  pub tag : slot.user_tag ≡ cell.tag
  pub holds : Holds slot cell.dump

pub is_accepted_iff : (s : Snapshot) → (is_accepted s ≡ true) ↔ IsAccepted s
unfolding is_accepted
is_accepted_iff s = ground arith

-- The same image, and another cached dump or tag.
pub same-Holds :
    (slot slot' : Slot) (dump : Option Dump)
    → slot'.dump_wire ≡ slot.dump_wire
    → Holds slot dump
    → Holds slot' dump
same-Holds slot slot' none e h = has_valid-image slot' slot e ∙ h
same-Holds slot slot' (some dump) e h = (has_valid-image slot' slot e ∙ h.0, e ∙ h.1, h.2, h.3)

pub has_valid-Holds :
    (slot : Slot) (dump : Option Dump) → Holds slot dump → has_valid slot ≡ is_some dump
has_valid-Holds slot none h = h
has_valid-Holds slot (some dump) h = h.0

pub get-Holds :
    (slot : Slot) (dump : Option Dump)
    → Holds slot dump
    → ((get slot).0 ≡ read_back dump)
      × ((get slot).1.dump_wire ≡ slot.dump_wire)
      × ((get slot).1.user_tag ≡ slot.user_tag)
unfolding get
get-Holds slot none h = rw h (refl, refl, refl)
get-Holds slot (some dump) (valid, wire, typed, small) =
    rw valid (ap some (ap decode_dump_fields wire ∙ decode-image dump typed small), refl, refl)

commit-Holds :
    (slot : Slot) (s : Snapshot)
    → IsSlot slot
    → IsSnapshot s
    → Holds (commit_snapshot slot s) (publish (record { tag = slot.user_tag; dump = none }) s).dump
commit-Holds slot s p h =
    let valid = has_valid-commit_iff slot s p h in
    let known = is_accepted_iff s in
    elim (Bool-cases (is_accepted s)) [
      | inl fits ↦
          let accepted = known.0 fits in
          rw fits (
            valid.1 accepted,
            ap (λ (t : Slot). t.dump_wire)
                (commit_snapshot_lem slot s p.wire_length (stack-HasSlice s.stack h.stack)),
            with_checksum-IsDump _ (recorded-IsDump slot s p h),
            omega (arith, accepted.stack_bytes),
          )
      | inr unknown ↦ rw unknown (elim (Bool-cases (has_valid (commit_snapshot slot s))) [
        | inl there ↦ cc (known.1 (valid.0 there), unknown)
        | inr gone ↦ gone
      ])
    ]

pub commit-Shows :
    (slot : Slot) (cell : Cell) (s : Snapshot)
    → Shows slot cell
    → IsSnapshot s
    → Shows (commit_snapshot slot s) (publish cell s)
commit-Shows slot cell s h typed =
    let committed =
      commit_snapshot_lem slot s h.typed.wire_length (stack-HasSlice s.stack typed.stack) in
    let same = ap (λ (t : ℕ). (publish (record { tag = t; dump = none }) s).dump) h.tag in
    record {
      typed = commit-IsSlot slot s h.typed typed;
      tag = ap (λ (t : Slot). t.user_tag) committed ∙ h.tag;
      holds = subst (Holds (commit_snapshot slot s)) same (commit-Holds slot s h.typed typed);
    }

pub cleared-Shows :
    (slot : Slot) (cell : Cell)
    → Shows slot cell
    → Shows (record slot { dump_wire = replicate 192 0 }) (record cell { dump = none })
cleared-Shows slot cell h =
    let (zeroed, gone, nothing) = clear_lem slot h.typed.wire_length in
    record {
      typed = record { wire_length = refl; wire_bytes = omega arith; user_tag = h.typed.user_tag };
      tag = h.tag;
      holds = rw zeroed at gone;
    }

-- Stores after which no dump is valid.
gone-Shows :
    (slot : Slot) (cell : Cell) (stores : List Store)
    → Shows slot cell
    → AreBytes stores
    → has_valid (record slot { dump_wire = run slot.dump_wire stores }) ≡ false
    → Shows (record slot { dump_wire = run slot.dump_wire stores }) (record cell { dump = none })
gone-Shows slot cell stores h bytes gone = record {
  typed = record {
    wire_length = length-run slot.dump_wire stores ∙ h.typed.wire_length;
    wire_bytes = run-IsBytes slot.dump_wire stores h.typed.wire_bytes bytes;
    user_tag = h.typed.user_tag;
  };
  tag = h.tag;
  holds = gone;
}

two_stores : (slot : Slot) (s : Snapshot) → 2 ≤ length (commit_stores slot s)
unfolding commit_stores
two_stores slot s =
    let body = payload_stores slot.user_tag s ++ checksum_stores slot.dump_wire slot.user_tag s in
    let marker : List Store = word 0 0x50444331 ∷ [] in omega (arith, length-append body marker)

pub torn-Shows :
    (slot : Slot) (cell : Cell) (s : Snapshot) (missing : ℕ)
    → Shows slot cell
    → IsSnapshot s
    → Shows
        (record slot { dump_wire = run slot.dump_wire (torn_stores slot s missing) })
        (record cell { dump = none })
unfolding torn_stores
torn-Shows slot cell s missing h typed =
    let stores = commit_stores slot s in
    let made = suc (length stores - 2 - missing) in
    let some_left : made < length stores = omega (arith, two_stores slot s) in
    gone-Shows slot cell (take made stores) h
      (AreBytes-take made stores (commit_stores-AreBytes slot s typed))
      (interrupted_commit slot s made h.typed.wire_length (omega arith) some_left)

pub torn_erase-Shows :
    (slot : Slot) (cell : Cell) (more : ℕ)
    → Shows slot cell
    → Shows
        (record slot { dump_wire = run slot.dump_wire (take (suc more) clear_stores) })
        (record cell { dump = none })
torn_erase-Shows slot cell more h =
    gone-Shows slot cell (take (suc more) clear_stores) h
      (AreBytes-take (suc more) clear_stores (unfold clear_stores in zero_stores-AreBytes 0 192))
      (interrupted_clear slot more)
