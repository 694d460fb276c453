-- ===== src/Slot/Events/Order.antt =====
-- What a program that guards its last store by a barrier can leave in memory at any time.
use mathlib.Core.List.{append_assoc}
use panicdump.Base.{
  ℕ, suc, ◌≤◌, ◌≡◌, ◌≢◌, refl, sym, ap, ap₂, ◌∙◌, arith, List, [], ◌∷◌, ◌++◌, length, length-set,
}
use panicdump.Wire.{load_u32, store_u32}
use panicdump.Slot.Stores.{Store, byte, word, apply, run}
use panicdump.Slot.Stores.Order.{magic-run, cleared_magic}
use panicdump.Slot.Life.{length-store_u32}
use panicdump.Slot.Events.{Event, stored, barrier, wrote, stores_of}

-- An image that has no magic.
pub record Absent (wire : List ℕ) : Type 0 where
  pub full : length wire ≡ 192
  pub magic : load_u32 wire 0 ≢ 0x50444331

-- A store that does not write the magic: past it, or the one that clears it.
abbrev pub Quiet : Store → Type 0
Quiet (byte off v) = 4 ≤ off
Quiet (word off v) = (off ≡ 0) × (v ≡ 0)

abbrev pub AllQuiet : List Store → Type 0
AllQuiet [] = Unit
AllQuiet (s ∷ stores) = Quiet s × AllQuiet stores

-- Up to the first barrier all stores are quiet, and behind it there is one store.
unfoldable pub Guarded : List Event → Type 0
Guarded [] = ⊥
Guarded (stored s ∷ rest) = Quiet s × Guarded rest
Guarded (wrote a v ∷ rest) = Guarded rest
Guarded (barrier ∷ rest) = length (stores_of rest) ≡ 1

abbrev pub NoWrite : List Event → Type 0
NoWrite (wrote a v ∷ rest) = ⊥
NoWrite other = Unit

-- No write of a device register comes right after a store, or before another store.
unfoldable pub Fenced : List Event → Type 0
Fenced [] = Unit
Fenced (stored s ∷ rest) = NoWrite rest × Fenced rest
Fenced (barrier ∷ rest) = Fenced rest
Fenced (wrote a v ∷ rest) = (length (stores_of rest) ≡ 0) × Fenced rest

abbrev pub AtWrite : List Event → List Store → Type 0
AtWrite (wrote a v ∷ rest) held = length held ≡ 0
AtWrite other held = Unit

pub data Phase (rest : List Event) (wire : List ℕ) (held : List Store) : Type 0 where
  gathering : Absent wire → AllQuiet held → Guarded rest → Phase rest wire held
  marking : Absent wire → length (held ++ stores_of rest) ≡ 1 → Phase rest wire held
  complete : length (held ++ stores_of rest) ≡ 0 → Phase rest wire held

apply-Absent : (wire : List ℕ) (s : Store) → Absent wire → Quiet s → Absent (apply wire s)
unfolding apply run
apply-Absent wire (byte off v) p h = record {
  full = length-set wire off v ∙ p.full;
  magic = λ e. p.magic (sym (magic-run wire (byte off v ∷ []) (h, tt)) ∙ e);
}
apply-Absent wire (word off v) p h =
    let same : store_u32 wire off v ≡ store_u32 wire 0 0 = ap₂ (store_u32 wire) h.0 h.1 in
    let zeroed = ap (λ w. load_u32 w 0) same ∙ cleared_magic wire p.full in
    record { full = length-store_u32 wire off v ∙ p.full; magic = λ e. omega (arith, zeroed, e) }

AllQuiet-append : (a b : List Store) → AllQuiet a → AllQuiet b → AllQuiet (a ++ b)
AllQuiet-append [] b p q = q
AllQuiet-append (s ∷ a) b p q = (p.0, AllQuiet-append a b p.1 q)

AllQuiet-split :
    (a : List Store) (s : Store) (b : List Store)
    → AllQuiet (a ++ s ∷ b)
    → Quiet s × AllQuiet (a ++ b)
AllQuiet-split [] s b p = p
AllQuiet-split (t ∷ a) s b p = let (q, r) = AllQuiet-split a s b p.1 in (q, (p.0, r))

-- The phases over each step.
pub store-Phase :
    (s : Store) (rest : List Event) (wire : List ℕ) (held : List Store)
    → Phase (stored s ∷ rest) wire held
    → Phase rest wire (held ++ s ∷ [])
unfolding Guarded stores_of
store-Phase s rest wire held (gathering p q g) =
    gathering p (AllQuiet-append held (s ∷ []) q (g.0, tt)) g.1
store-Phase s rest wire held (marking p e) =
    marking p (ap length (append_assoc held (s ∷ []) (stores_of rest)) ∙ e)
store-Phase s rest wire held (complete e) =
    complete (ap length (append_assoc held (s ∷ []) (stores_of rest)) ∙ e)

pub length-land :
    (earlier : List Store) (s : Store) (later b : List Store)
    → length ((earlier ++ s ∷ later) ++ b) ≡ suc (length ((earlier ++ later) ++ b))
length-land [] s later b = refl
length-land (t ∷ earlier) s later b = ap suc (length-land earlier s later b)

pub land-Phase :
    (rest : List Event) (wire : List ℕ) (earlier : List Store) (s : Store) (later : List Store)
    → Phase rest wire (earlier ++ s ∷ later)
    → Phase rest (apply wire s) (earlier ++ later)
land-Phase rest wire earlier s later (gathering p q g) =
    let (quiet, others) = AllQuiet-split earlier s later q in
    gathering (apply-Absent wire s p quiet) others g
land-Phase rest wire earlier s later (marking p e) =
    complete (omega (arith, e, length-land earlier s later (stores_of rest)))
land-Phase rest wire earlier s later (complete e) =
    absurd (omega (arith, e, length-land earlier s later (stores_of rest)))

pub wait-Phase :
    (rest : List Event) (wire : List ℕ) → Phase (barrier ∷ rest) wire [] → Phase rest wire []
unfolding Guarded stores_of
wait-Phase rest wire (gathering p q g) = marking p g
wait-Phase rest wire (marking p e) = marking p e
wait-Phase rest wire (complete e) = complete e

pub write-Phase :
    (a v : ℕ) (rest : List Event) (wire : List ℕ) (held : List Store)
    → Phase (wrote a v ∷ rest) wire held
    → Phase rest wire held
unfolding Guarded stores_of
write-Phase a v rest wire held (gathering p q g) = gathering p q g
write-Phase a v rest wire held (marking p e) = marking p e
write-Phase a v rest wire held (complete e) = complete e
