-- ===== src/Slot/Life.antt =====
-- The life of the retained slot over any number of boots: commits and clears that complete or are cut
-- short, the calls of the application, and the export at boot. The image and the user tag are
-- retained over a reset, and the cached dump is not.
use panicdump.Base.{
  ℕ, zero, suc, ◌≡◌, ◌<◌, ◌+◌, ◌⊎◌, inl, inr, refl, ap, ◌∙◌, arith, List, [], ◌∷◌, Option, none,
  some, false, take, length, length-set, set, Bool-cases,
}
use panicdump.Wire.{store_u32}
use panicdump.Dump.{Stack, Dump}
use panicdump.Fields.Image.{image, length-image}
use panicdump.Codec.RoundTrip.{with_checksum}
use panicdump.Codec.{validate_wire}
use panicdump.Slot.{Slot, Snapshot, has_valid, get, clear, set_user_tag, commit_snapshot}
use panicdump.Slot.Commit.{recorded, HasSlice, stack_or_zero, commit_snapshot_lem}
use panicdump.Slot.Valid.{clear_lem}
use panicdump.Slot.Stores.{Store, byte, word, apply, run, commit_stores, clear_stores}
use panicdump.Slot.Stores.Order.{interrupted_commit}
use panicdump.Slot.Stores.Clear.{interrupted_clear}

-- What can happen to the slot besides a commit that completes. `restarted` is a reset, after which
-- the cached dump is whatever start-up code makes it, and `cut` is a commit of which the first
-- `k` stores are made; `clear_cut` is the same of a clear.
pub data Step : Slot → Slot → Type 0 where
  tagged : (slot : Slot) (tag : ℕ) → Step slot (set_user_tag slot tag)
  read : (slot : Slot) → Step slot (get slot).1
  cleared : (slot : Slot) → Step slot (clear slot)
  restarted : (slot : Slot) (start_up : Dump) → Step slot (record slot { cached_dump = start_up })
  cut :
      (slot : Slot) (s : Snapshot) (k : ℕ)
      → k < length (commit_stores slot s)
      → Step slot (record slot { dump_wire = run slot.dump_wire (take k (commit_stores slot s)) })
  clear_cut :
      (slot : Slot) (k : ℕ)
      → Step slot (record slot { dump_wire = run slot.dump_wire (take k clear_stores) })

-- The slots reached from the first one, with the commits that have completed, the last one first:
-- the user tag at the time and the snapshot.
pub data Reach (start : Slot) : List (ℕ × Snapshot) → Slot → Type 0 where
  here : Reach start [] start
  next :
      {history : List (ℕ × Snapshot)} {slot slot' : Slot}
      → Reach start history slot
      → Step slot slot'
      → Reach start history slot'
  publish :
      {history : List (ℕ × Snapshot)} {slot : Slot}
      → Reach start history slot
      → (s : Snapshot) → HasSlice s.stack
      → Reach start ((slot.user_tag, s) ∷ history) (commit_snapshot slot s)

-- The image of the last commit of a history.
abbrev pub IsLast : List (ℕ × Snapshot) → List ℕ → Type 0
IsLast [] wire = ⊥
IsLast ((tag, s) ∷ history) wire = wire ≡ image (with_checksum (recorded tag s))

-- 192 bytes, and no valid dump or the whole image of the last commit that completed.
pub record IsWhole (history : List (ℕ × Snapshot)) (slot : Slot) : Type 0 where
  pub full : length slot.dump_wire ≡ 192
  pub whole : (has_valid slot ≡ false) ⊎ IsLast history slot.dump_wire

pub length-store_u32 : (wire : List ℕ) (off v : ℕ) → length (store_u32 wire off v) ≡ length wire
unfolding store_u32
length-store_u32 wire off v =
    length-set (set (set (set wire off _) (off + 1) _) (off + 2) _) (off + 3) _
    ∙ length-set (set (set wire off _) (off + 1) _) (off + 2) _
    ∙ length-set (set wire off _) (off + 1) _
    ∙ length-set wire off _

pub length-run : (wire : List ℕ) (stores : List Store) → length (run wire stores) ≡ length wire
unfolding run apply
length-run wire [] = refl
length-run wire (byte off v ∷ stores) = length-run (set wire off v) stores ∙ length-set wire off v
length-run wire (word off v ∷ stores) =
    length-run (store_u32 wire off v) stores ∙ length-store_u32 wire off v

-- The validity of a slot is that of its image.
pub has_valid-image :
    (slot slot' : Slot) → slot.dump_wire ≡ slot'.dump_wire → has_valid slot ≡ has_valid slot'
unfolding has_valid
has_valid-image slot slot' e = ap (λ w. validate_wire (some w) 192) e

-- A step that leaves the image as it is.
IsWhole-image :
    (history : List (ℕ × Snapshot)) (slot slot' : Slot)
    → slot'.dump_wire ≡ slot.dump_wire
    → IsWhole history slot
    → IsWhole history slot'
IsWhole-image history slot slot' e p = record {
  full = ap length e ∙ p.full;
  whole = elim p.whole [
    | inl gone ↦ inl (has_valid-image slot' slot e ∙ gone)
    | inr last ↦ inr (rw e last)
  ];
}

get-image : (slot : Slot) → (get slot).1.dump_wire ≡ slot.dump_wire
unfolding get
get-image slot = elim (Bool-cases (has_valid slot)) [
  | inl valid ↦ rw valid refl
  | inr gone ↦ rw gone refl
]

Step-IsWhole :
    {history : List (ℕ × Snapshot)} {slot slot' : Slot}
    → Step slot slot'
    → IsWhole history slot
    → IsWhole history slot'
Step-IsWhole (tagged slot tag) p = IsWhole-image _ slot _ (unfold set_user_tag in refl) p
Step-IsWhole (read slot) p = IsWhole-image _ slot _ (get-image slot) p
Step-IsWhole (cleared slot) p = record {
  full = ap (λ t. length t.dump_wire) (clear_lem slot p.full).0;
  whole = inl (clear_lem slot p.full).1;
}
Step-IsWhole (restarted slot start_up) p = IsWhole-image _ slot _ refl p
Step-IsWhole (cut slot s zero h) p = IsWhole-image _ slot _ (unfold run in refl) p
Step-IsWhole (cut slot s (suc k) h) p = record {
  full = length-run slot.dump_wire (take (suc k) (commit_stores slot s)) ∙ p.full;
  whole = inl (interrupted_commit slot s (suc k) p.full (omega arith) h);
}
Step-IsWhole (clear_cut slot zero) p = IsWhole-image _ slot _ (unfold run in refl) p
Step-IsWhole (clear_cut slot (suc k)) p = record {
  full = length-run slot.dump_wire (take (suc k) clear_stores) ∙ p.full;
  whole = inl (interrupted_clear slot k);
}

length-slice : (stack : Option Stack) → HasSlice stack → length (stack_or_zero stack).slice ≡ 64
length-slice none h = refl
length-slice (some stack) h = h

commit-IsWhole :
    (history : List (ℕ × Snapshot)) (slot : Slot) (s : Snapshot)
    → length slot.dump_wire ≡ 192
    → HasSlice s.stack
    → IsWhole ((slot.user_tag, s) ∷ history) (commit_snapshot slot s)
commit-IsWhole history slot s e h =
    let last = ap (λ t. t.dump_wire) (commit_snapshot_lem slot s e h) in
    record { full = ap length last ∙ length-image _ (length-slice s.stack h); whole = inr last }

-- From a slot of 192 bytes with no valid dump on, after any sequence of resets, of calls that set the
-- tag, read or clear, of commits, and of commits and clears cut short at any store: a dump that the
-- slot holds as valid is, to the byte, the image of the last commit that completed, with the user
-- tag of that time.
pub Reach-IsWhole :
    {start slot : Slot} {history : List (ℕ × Snapshot)}
    → length start.dump_wire ≡ 192
    → has_valid start ≡ false
    → Reach start history slot
    → IsWhole history slot
Reach-IsWhole e none_yet here = record { full = e; whole = inl none_yet }
Reach-IsWhole e none_yet (next before step) = Step-IsWhole step (Reach-IsWhole e none_yet before)
Reach-IsWhole e none_yet (publish {slot = slot} before s h) =
    commit-IsWhole _ slot s (Reach-IsWhole e none_yet before).full h
