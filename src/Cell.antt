-- ===== src/Cell.antt =====
-- What an application sees of include/panicdump.h: a cell with a user tag and at most one dump. The
-- calls of the library on its slot, and the same calls on a cell.
pub mod Holds
pub mod Refine
use panicdump.Base.{
  ℕ, List, [], ◌∷◌, Bool, true, false, Option, none, some, ◌&&◌, ◌||◌, ◌==◌, ltb, leb,
  if◌then◌else◌, take, length, suc, ◌-◌,
}
use panicdump.Dump.{Dump}
use panicdump.Fields.Image.{image}
use panicdump.Fields.Decode.{stored}
use panicdump.Codec.RoundTrip.{with_checksum}
use panicdump.Slot.{
  Slot, Snapshot, has_valid, get, clear, set_user_tag, get_user_tag, commit_snapshot,
}
use panicdump.Slot.Stores.{Store, run, commit_stores, clear_stores}
use panicdump.Slot.Commit.{recorded, stack_or_zero}
use panicdump.Export.{ExportStatus, ok, no_dump, short_write, Writer, boot_check_and_export}
use panicdump.Export.Text.{dump_text}
use panicdump.Export.Feed.{feed}
use panicdump.Port.{Port}
use panicdump.Tag.Hash.{fnv1a}
use panicdump.Trigger.{trigger, sw_snapshot}
use panicdump.Trigger.Recorded.{text_pointer}

-- The calls, a fault that commits a snapshot, and a reset after which the cached dump is any. `torn` is
-- a commit that a reset cuts short: its first store is made, its last is not, and of the others the
-- last ones are missing, as many as the number says. `torn_erase` is a clear that is cut short after
-- its first store and as many more.
pub data Call (M S : Type 0) : Type 0 where
  set_tag : ℕ → Call M S
  get_tag check read erase : Call M S
  crash : Snapshot → Call M S
  torn : Snapshot → ℕ → Call M S
  torn_erase : ℕ → Call M S
  trip : M → Option (List ℕ) → Call M S
  restart : Dump → Call M S
  boot : S → Call M S

pub data Answer (S : Type 0) : Type 0 where
  done : Answer S
  tag : ℕ → Answer S
  valid : Bool → Answer S
  found : Option Dump → Answer S
  exported : ExportStatus → S → Answer S

pub record Cell : Type 0 where
  pub tag : ℕ
  pub dump : Option Dump

-- The snapshots of which a valid dump can be made.
unfoldable pub is_accepted : Snapshot → Bool
is_accepted s =
    let bytes = (stack_or_zero s.stack).stack_bytes in
    ltb s.flags 16
    && ((s.arch_id == 3 || s.arch_id == 4) && (leb s.fault_reason 5 && (bytes == 0 || bytes == 64)))

-- The dump that was there is lost in any case.
abbrev pub publish : Cell → Snapshot → Cell
publish c s = record c {
  dump = if is_accepted s then some (with_checksum (recorded c.tag s)) else none;
}

-- A trigger without a string keeps the tag.
abbrev pub text_tag : ℕ → Option (List ℕ) → ℕ
text_tag old none = old
text_tag old (some text) = fnv1a 2166136261 (take 32 text)

abbrev pub is_some : Option Dump → Bool
is_some none = false
is_some (some dump) = true

-- A dump as it is read back.
abbrev pub read_back : Option Dump → Option Dump
read_back none = none
read_back (some dump) = some (stored dump)

-- The stores that a torn commit makes.
unfoldable pub torn_stores : Slot → Snapshot → ℕ → List Store
torn_stores slot s missing =
    let stores = commit_stores slot s in take (suc (length stores - 2 - missing)) stores

module _ {M S : Type 0} (port : Port M) (write : ℕ → Writer S) where
  -- The library, with the callback `write` at each boot.
  unfoldable pub call : Call M S → Slot → Answer S × Slot
  unfolding torn_stores
  call (set_tag t) slot = (done, set_user_tag slot t)
  call get_tag slot = (tag (get_user_tag slot), slot)
  call check slot = (valid (has_valid slot), slot)
  call read slot = let (dump, slot') = get slot in (found dump, slot')
  call erase slot = (done, clear slot)
  call (crash s) slot = (done, commit_snapshot slot s)
  call (torn s missing) slot =
      (done, record slot { dump_wire = run slot.dump_wire (torn_stores slot s missing) })
  call (torn_erase more) slot =
      (done, record slot { dump_wire = run slot.dump_wire (take (suc more) clear_stores) })
  call (trip m text) slot = (done, trigger port m slot (text_pointer text))
  call (restart start_up) slot = (done, record slot { cached_dump = start_up })
  call (boot s) slot =
      let (status, slot', s') = boot_check_and_export (some write) slot s in
      (exported status s', slot')

  unfoldable pub boot_cell : Option Dump → S → Answer S × Option Dump
  boot_cell none s = (exported no_dump s, none)
  boot_cell (some dump) s =
      let (all, s') = feed write (dump_text (image dump)) s in
      if all then (exported ok s', none) else (exported short_write s', some dump)

  -- The same on a cell.
  unfoldable pub step : Call M S → Cell → Answer S × Cell
  unfolding boot_cell
  step (set_tag t) c = (done, record c { tag = t })
  step get_tag c = (tag c.tag, c)
  step check c = (valid (is_some c.dump), c)
  step read c = (found (read_back c.dump), c)
  step erase c = (done, record c { dump = none })
  step (crash s) c = (done, publish c s)
  step (torn s missing) c = (done, record c { dump = none })
  step (torn_erase more) c = (done, record c { dump = none })
  step (trip m text) c =
      (done, publish (record c { tag = text_tag c.tag text }) (sw_snapshot port m))
  step (restart start_up) c = (done, c)
  step (boot s) c = let (answer, dump) = boot_cell c.dump s in (answer, record c { dump = dump })

  -- The answers to a sequence of calls.
  unfoldable pub answers : List (Call M S) → Slot → List (Answer S)
  answers [] slot = []
  answers (c ∷ calls) slot = let (answer, slot') = call c slot in answer ∷ answers calls slot'

  unfoldable pub cell_answers : List (Call M S) → Cell → List (Answer S)
  cell_answers [] cell = []
  cell_answers (c ∷ calls) cell =
      let (answer, cell') = step c cell in answer ∷ cell_answers calls cell'
