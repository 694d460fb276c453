-- ===== src/Tests/Cells.antt =====
-- A day of an application, on a slot that held no dump.
use panicdump.Base.{ℕ, ◌+◌, ◌≡◌, refl, arith, List, [], ◌∷◌, none, some, ltb}
use panicdump.Export.{Writer}
use panicdump.Port.Instances.{host}
use panicdump.Cell.{
  Call, set_tag, get_tag, check, read, erase, crash, torn, torn_erase, trip, restart, boot, Cell,
  answers, cell_answers,
}
use panicdump.Cell.Holds.{Shows}
use panicdump.Cell.Refine.{AreCalls, answers-cell_answers}
use panicdump.Tests.Samples.{
  sample_dump, used_slot, used_slot-IsSlot, sample_snapshot, sample_snapshot-IsSnapshot,
}
use panicdump.Tests.Commits.{no_dump_yet}

-- A callback that takes one character.
abbrev one_only : ℕ → Writer ℕ
one_only c n = (ltb n 1, n + 1)

abbrev calls : List (Call ℕ ℕ)
calls =
    check
    ∷ set_tag 7
    ∷ crash sample_snapshot
    ∷ restart sample_dump
    ∷ boot 0
    ∷ read
    ∷ get_tag
    ∷ erase
    ∷ read
    ∷ trip 0x7FFD1000 (some (104 ∷ 105 ∷ []))
    ∷ torn sample_snapshot 40
    ∷ read
    ∷ crash sample_snapshot
    ∷ torn_erase 3
    ∷ boot 5
    ∷ check
    ∷ []

abbrev blank : Cell
blank = record { tag = 0xABCD1234; dump = none }

calls-AreCalls : AreCalls host one_only calls
calls-AreCalls = (
  _,
  (
    omega arith,
    (
      sample_snapshot-IsSnapshot,
      (
        _,
        (
          _,
          (
            _,
            (
              _,
              (
                _,
                (
                  _,
                  (
                    (_, omega arith),
                    (sample_snapshot-IsSnapshot, (_, (sample_snapshot-IsSnapshot, _))),
                  ),
                ),
              ),
            ),
          ),
        ),
      ),
    ),
  ),
)

used_slot-Shows : Shows used_slot blank
used_slot-Shows = record { typed = used_slot-IsSlot; tag = refl; holds = no_dump_yet }

answers-cell_answers_example :
    answers host one_only calls used_slot ≡ cell_answers host one_only calls blank
answers-cell_answers_example =
    answers-cell_answers host one_only calls used_slot blank calls-AreCalls used_slot-Shows
