-- ===== src/Slot/Events/Publish.antt =====
-- Such a program shows its last store only over the image of all the others.
use mathlib.Core.List.{append_assoc}
use panicdump.Base.{ℕ, ◌≡◌, refl, sym, ap, ◌∙◌, arith, List, [], ◌∷◌, ◌++◌, length, length-append}
use panicdump.Wire.{load_u32}
use panicdump.Slot.Stores.{Store, apply, run}
use panicdump.Slot.Events.{
  Event, stored, barrier, wrote, stores_of, Runs, begin, store, land, wait, write,
}
use panicdump.Slot.Events.Apart.{run-land}
use panicdump.Slot.Events.Order.{
  Absent, Guarded, Fenced, NoWrite, AtWrite, Phase, gathering, marking, complete, store-Phase,
  land-Phase, wait-Phase, write-Phase,
}

record Inv (final : List ℕ) (rest : List Event) (wire : List ℕ) (held : List Store) : Type 0 where
  total : run wire (held ++ stores_of rest) ≡ final
  phase : Phase rest wire held
  fenced : Fenced rest
  at_write : AtWrite rest held

none_held : (rest : List Event) → AtWrite rest []
none_held [] = tt
none_held (stored s ∷ rest) = tt
none_held (barrier ∷ rest) = tt
none_held (wrote a v ∷ rest) = refl

no_write : (rest : List Event) (held : List Store) → NoWrite rest → AtWrite rest held
no_write [] held h = tt
no_write (stored s ∷ rest) held h = tt
no_write (barrier ∷ rest) held h = tt
no_write (wrote a v ∷ rest) held h = absurd h

fewer_held :
    (rest : List Event) (earlier : List Store) (s : Store) (later : List Store)
    → AtWrite rest (earlier ++ s ∷ later)
    → AtWrite rest (earlier ++ later)
fewer_held [] earlier s later h = tt
fewer_held (stored t ∷ rest) earlier s later h = tt
fewer_held (barrier ∷ rest) earlier s later h = tt
fewer_held (wrote a v ∷ rest) earlier s later h =
    omega (arith, h, length-append earlier (s ∷ later), length-append earlier later)

same_held : (rest : List Event) (held : List Store) → length held ≡ 0 → AtWrite rest held
same_held [] held h = tt
same_held (stored s ∷ rest) held h = tt
same_held (barrier ∷ rest) held h = tt
same_held (wrote a v ∷ rest) held h = h

empty : (l : List Store) → length l ≡ 0 → l ≡ []
empty [] h = refl
empty (s ∷ l) h = absurd (omega (arith, h))

module _ (program : List Event) (start : List ℕ) (guarded : Guarded program)
    (fenced : Fenced program) (absent : Absent start) where
  abbrev final : List ℕ
  final = run start (stores_of program)

  kept :
      {rest : List Event} {wire : List ℕ} {held : List Store}
      → Runs program start rest wire held
      → Inv final rest wire held
  unfolding stores_of Fenced
  kept begin = record {
    total = refl;
    phase = gathering absent tt guarded;
    fenced = fenced;
    at_write = none_held program;
  }
  kept (store {s} {rest} {wire} {held} before) =
      let i = kept before in
      record {
        total = ap (run wire) (append_assoc held (s ∷ []) (stores_of rest)) ∙ i.total;
        phase = store-Phase s rest wire held i.phase;
        fenced = i.fenced.1;
        at_write = no_write rest (held ++ s ∷ []) i.fenced.0;
      }
  kept (land {rest} {wire} earlier s later before apart) =
      let i = kept before in
      let b = stores_of rest in
      record {
        total =
            ap (run (apply wire s)) (append_assoc earlier later b)
            ∙ run-land wire earlier (later ++ b) s apart
            ∙ ap (run wire) (sym (append_assoc earlier (s ∷ later) b))
            ∙ i.total;
        phase = land-Phase rest wire earlier s later i.phase;
        fenced = i.fenced;
        at_write = fewer_held rest earlier s later i.at_write;
      }
  kept (wait {rest} {wire} before) =
      let i = kept before in
      record {
        total = i.total;
        phase = wait-Phase rest wire i.phase;
        fenced = i.fenced;
        at_write = none_held rest;
      }
  kept (write {a} {v} {rest} {wire} {held} before) =
      let i = kept before in
      record {
        total = i.total;
        phase = write-Phase a v rest wire held i.phase;
        fenced = i.fenced.1;
        at_write = same_held rest held i.at_write;
      }

  landed :
      {rest : List Event} {wire : List ℕ} {held : List Store}
      → Inv final rest wire held
      → length (held ++ stores_of rest) ≡ 0
      → wire ≡ final
  unfolding run
  landed {rest} {wire} {held} i e = sym (ap (run wire) (empty (held ++ stores_of rest) e)) ∙ i.total

  -- With the magic in memory all stores have landed.
  pub magic-final :
      {rest : List Event} {wire : List ℕ} {held : List Store}
      → Runs program start rest wire held
      → load_u32 wire 0 ≡ 0x50444331
      → wire ≡ final
  magic-final {rest} {wire} {held} runs magic =
      let i = kept runs in
      elim i.phase [
        | gathering p q g ↦ absurd (p.magic magic)
        | marking p e ↦ absurd (p.magic magic)
        | complete e ↦ landed i e
      ]

  -- So they have when a device register is about to be written.
  pub write-final :
      {a v : ℕ} {rest : List Event} {wire : List ℕ} {held : List Store}
      → Runs program start (wrote a v ∷ rest) wire held
      → wire ≡ final
  unfolding Fenced stores_of
  write-final {a} {v} {rest} {wire} {held} runs =
      let i = kept runs in
      landed i (omega (arith, length-append held (stores_of rest), i.at_write, i.fenced.0))

-- Every program goes on: here each store lands at once.
pub in_order :
    {program : List Event} {start : List ℕ} (done rest : List Event) (wire : List ℕ)
    → Runs program start (done ++ rest) wire []
    → Runs program start rest (run wire (stores_of done)) []
unfolding run stores_of
in_order [] rest wire runs = runs
in_order (stored s ∷ done) rest wire runs =
    in_order done rest (apply wire s) (land [] s [] (store runs) tt)
in_order (barrier ∷ done) rest wire runs = in_order done rest wire (wait runs)
in_order (wrote a v ∷ done) rest wire runs = in_order done rest wire (write runs)
