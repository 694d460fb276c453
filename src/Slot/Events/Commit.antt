-- ===== src/Slot/Events/Commit.antt =====
-- The events of a commit are guarded by its barrier, and make its image.
use mathlib.Core.List.{append_assoc}
use panicdump.Base.{◌≡◌, refl, ap, ◌∙◌, List, [], ◌∷◌, ◌++◌, length}
use panicdump.Slot.{Slot, Snapshot, commit_snapshot}
use panicdump.Slot.Stores.{Store, byte, word, run, payload_stores, checksum_stores, commit_stores}
use panicdump.Slot.Stores.Order.{SparesMagic, body-SparesMagic, run-commit_stores}
use panicdump.Slot.Events.{Event, stored, barrier, issue, stores_of, commit_events, marker_events}
use panicdump.Slot.Events.Order.{AllQuiet, Guarded, Fenced, NoWrite}

quiet : (stores : List Store) → SparesMagic stores → AllQuiet stores
quiet [] p = tt
quiet (byte off v ∷ stores) p = (p.0, quiet stores p.1)
quiet (word off v ∷ stores) p = absurd p

issue-Guarded :
    (stores : List Store) (rest : List Event)
    → AllQuiet stores
    → Guarded rest
    → Guarded (issue stores ++ rest)
unfolding issue Guarded
issue-Guarded [] rest p g = g
issue-Guarded (s ∷ stores) rest p g = (p.0, issue-Guarded stores rest p.1 g)

issue-NoWrite :
    (stores : List Store) (rest : List Event) → NoWrite rest → NoWrite (issue stores ++ rest)
unfolding issue
issue-NoWrite [] rest h = h
issue-NoWrite (s ∷ stores) rest h = tt

issue-Fenced :
    (stores : List Store) (rest : List Event)
    → NoWrite rest
    → Fenced rest
    → Fenced (issue stores ++ rest)
unfolding issue Fenced
issue-Fenced [] rest h f = f
issue-Fenced (s ∷ stores) rest h f = (issue-NoWrite stores rest h, issue-Fenced stores rest h f)

pub stores_of-issue :
    (stores : List Store) (rest : List Event)
    → stores_of (issue stores ++ rest) ≡ stores ++ stores_of rest
unfolding issue stores_of
stores_of-issue [] rest = refl
stores_of-issue (s ∷ stores) rest = ap (λ l. s ∷ l) (stores_of-issue stores rest)

module _ (slot : Slot) (s : Snapshot) (after : List Event) (no_stores : stores_of after ≡ []) where
  abbrev body : List Store
  body = payload_stores slot.user_tag s ++ checksum_stores slot.dump_wire slot.user_tag s

  abbrev marked : List Event
  marked = barrier ∷ stored (word 0 0x50444331) ∷ after

  program : commit_events (barrier ∷ []) slot s ++ after ≡ issue (word 0 0 ∷ body) ++ marked
  unfolding commit_events marker_events
  program = append_assoc (issue (word 0 0 ∷ body)) (barrier ∷ stored (word 0 0x50444331) ∷ []) after

  pub commit-Guarded : Guarded (commit_events (barrier ∷ []) slot s ++ after)
  unfolding Guarded stores_of
  commit-Guarded =
      let one : length (stores_of marked) ≡ 1 =
        ap (λ l. length (word 0 0x50444331 ∷ l)) no_stores in
      let calm = quiet body (body-SparesMagic slot.dump_wire slot.user_tag s) in
      rw program (issue-Guarded (word 0 0 ∷ body) marked ((refl, refl), calm) one)

  pub commit-Fenced :
      NoWrite after → Fenced after → Fenced (commit_events (barrier ∷ []) slot s ++ after)
  unfolding Fenced
  commit-Fenced next fenced = rw program (issue-Fenced (word 0 0 ∷ body) marked tt (next, fenced))

  pub run-commit_events :
      run slot.dump_wire (stores_of (commit_events (barrier ∷ []) slot s ++ after))
      ≡ (commit_snapshot slot s).dump_wire
  unfolding stores_of commit_stores
  run-commit_events =
      ap (λ p. run slot.dump_wire (stores_of p)) program
      ∙ ap (run slot.dump_wire) (
          stores_of-issue (word 0 0 ∷ body) marked
          ∙ ap (λ l. word 0 0 ∷ (body ++ word 0 0x50444331 ∷ l)) no_stores)
      ∙ run-commit_stores slot s
