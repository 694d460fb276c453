-- ===== src/Slot/Events.antt =====
-- A commit on a machine that holds stores back: they land in memory later, and those that do not touch
-- the same bytes in any order, but a barrier waits until all have landed.
pub mod Apart
pub mod Order
pub mod Publish
pub mod Commit
use panicdump.Base.{ℕ, ◌+◌, ◌≤◌, ◌<◌, ◌≢◌, ◌⊎◌, List, [], ◌∷◌, ◌++◌}
use panicdump.Format
use panicdump.Slot.{Slot, Snapshot}
use panicdump.Slot.Stores.{Store, byte, word, apply, payload_stores, checksum_stores}

-- A store to the slot, a barrier, or a write of a device register.
pub data Event : Type 0 where
  stored : Store → Event
  barrier : Event
  wrote : ℕ → ℕ → Event

unfoldable pub issue : List Store → List Event
issue [] = []
issue (s ∷ stores) = stored s ∷ issue stores

-- The stores of a program.
unfoldable pub stores_of : List Event → List Store
stores_of [] = []
stores_of (stored s ∷ rest) = s ∷ stores_of rest
stores_of (barrier ∷ rest) = stores_of rest
stores_of (wrote a v ∷ rest) = stores_of rest

-- `panicdump_write_commit_marker`, given what `panicdump_port_publish_barrier` does.
unfoldable pub marker_events : List Event → List Event
marker_events publish_barrier =
    publish_barrier ++ stored (word Format.magic_offset Format.magic) ∷ []

-- `panicdump_commit_snapshot`
unfoldable pub commit_events : List Event → Slot → Snapshot → List Event
unfolding issue marker_events
commit_events publish_barrier slot s =
    let payload = payload_stores slot.user_tag s in
    let checksum = checksum_stores slot.dump_wire slot.user_tag s in
    issue (word Format.magic_offset 0 ∷ (payload ++ checksum)) ++ marker_events publish_barrier

-- Two stores that touch no byte in common.
abbrev pub Apart : Store → Store → Type 0
Apart (byte a v) (byte b w) = a ≢ b
Apart (byte a v) (word b w) = (a < b) ⊎ (b + 4 ≤ a)
Apart (word a v) (byte b w) = (b < a) ⊎ (a + 4 ≤ b)
Apart (word a v) (word b w) = (a + 4 ≤ b) ⊎ (b + 4 ≤ a)

abbrev pub AllApart : Store → List Store → Type 0
AllApart s [] = Unit
AllApart s (t ∷ stores) = Apart s t × AllApart s stores

-- How a program can go on from the image `start`: what is left of it, the image in memory, and the
-- stores that have been issued and have not landed.
pub data Runs (program : List Event) (start : List ℕ)
    : List Event → List ℕ → List Store → Type 0 where
  begin : Runs program start program start []
  store :
      {s : Store} {rest : List Event} {wire : List ℕ} {held : List Store}
      → Runs program start (stored s ∷ rest) wire held
      → Runs program start rest wire (held ++ s ∷ [])
  land :
      {rest : List Event} {wire : List ℕ}
      → (earlier : List Store) (s : Store) (later : List Store)
      → Runs program start rest wire (earlier ++ s ∷ later)
      → AllApart s earlier
      → Runs program start rest (apply wire s) (earlier ++ later)
  wait :
      {rest : List Event} {wire : List ℕ}
      → Runs program start (barrier ∷ rest) wire []
      → Runs program start rest wire []
  write :
      {a v : ℕ} {rest : List Event} {wire : List ℕ} {held : List Store}
      → Runs program start (wrote a v ∷ rest) wire held
      → Runs program start rest wire held
