-- ===== src/Demo/Startup/Retain.antt =====
-- The start-up code initialises .data and .bss and leaves .noinit, where the dump is, as it was.
use panicdump.Base.{
  ℕ, ◌+◌, ◌-◌, ◌*◌, ◌/◌, ◌%◌, ◌^◌, ◌≤◌, ◌<◌, ◌≡◌, ◌⊎◌, refl, ap, ap₂, ◌∙◌, arith, some, List,
  tabulate, tabulate_ext,
}
use panicdump.Dump.{Dump}
use panicdump.Slot.{Slot}
use panicdump.Port.CortexM.{word_at}
use panicdump.Demo.Startup.{Memory, Symbols, reset_handler}
use panicdump.Demo.Startup.Loops.{AllBytes, copy_loop_lem, bss_loop_lem}

-- The order and the alignment of the sections, of which .noinit starts at `noinit`. The load address
-- of .data lies below RAM.
pub record IsLaidOut (sym : Symbols) (noinit : ℕ) : Type 0 where
  pub data_order : sym.sdata ≤ sym.edata
  pub data_bss : sym.edata ≤ sym.sbss
  pub bss_order : sym.sbss ≤ sym.ebss
  pub bss_noinit : sym.ebss ≤ noinit
  pub data_aligned : sym.sdata % 4 ≡ 0
  pub bss_aligned : sym.sbss % 4 ≡ 0
  pub noinit_aligned : noinit % 4 ≡ 0
  pub load_below : sym.sidata + (sym.edata - sym.sdata) + 4 ≤ sym.sdata
  pub fits : noinit < 2 ^ 32

-- The library's variables, of which two are at offsets in .noinit.
abbrev pub slot_at : Memory → ℕ → ℕ → Dump → Slot
slot_at memory dump_wire user_tag cached_dump = record {
  dump_wire = tabulate 192 dump_wire memory;
  user_tag = word_at memory user_tag;
  cached_dump = cached_dump;
}

pub record IsStarted (sym : Symbols) (noinit : ℕ) (before after : Memory) : Type 0 where
  pub initialised :
      (i : ℕ) → (sym.edata ≤ sym.sdata + i) ⊎ (after (sym.sdata + i) ≡ before (sym.sidata + i))
  pub zeroed : (i : ℕ) → (sym.ebss ≤ sym.sbss + i) ⊎ (after (sym.sbss + i) ≡ 0)
  pub retained : (i : ℕ) → after (noinit + i) ≡ before (noinit + i)
  pub slot :
      (w t : ℕ) (d : Dump)
      → slot_at after (noinit + w) (noinit + t) d ≡ slot_at before (noinit + w) (noinit + t) d

same_slot :
    (noinit : ℕ) (before after : Memory)
    → ((i : ℕ) → after (noinit + i) ≡ before (noinit + i))
    → (w t : ℕ) (d : Dump)
    → slot_at after (noinit + w) (noinit + t) d ≡ slot_at before (noinit + w) (noinit + t) d
same_slot noinit before after same w t d =
    let at = λ (a : ℕ) (h : noinit ≤ a).
      let e : a ≡ noinit + (a - noinit) = omega arith in
      ap after e
      ∙ same (a - noinit)
      ∙ ap before (let e' : noinit + (a - noinit) ≡ a = omega arith in e') in
    let wire = tabulate_ext 192 (noinit + w) after before (λ j lo hi. at j (omega arith)) in
    let tag : word_at after (noinit + t) ≡ word_at before (noinit + t) = omega (
      arith,
      at (noinit + t) (omega arith),
      at (noinit + t + 1) (omega arith),
      at (noinit + t + 2) (omega arith),
      at (noinit + t + 3) (omega arith),
    ) in
    ap₂ (λ (l : List ℕ) (n : ℕ). record { dump_wire = l; user_tag = n; cached_dump = d }) wire tag

-- With the sections of the linker script in order and aligned, the start-up code gets to `main`, with
-- .data copied and .bss zeroed, and .noinit as the reset found it: the slot that lies there holds
-- the same image and user tag.
pub reset_handler-IsStarted :
    (fuel : ℕ) (sym : Symbols) (noinit : ℕ) (memory : Memory)
    → IsLaidOut sym noinit
    → AllBytes memory
    → noinit < sym.sdata + fuel * 4
    → (memory' : Memory) × (reset_handler fuel sym memory ≡ some memory')
      × IsStarted sym noinit memory memory'
unfolding reset_handler
reset_handler-IsStarted fuel sym noinit memory p bytes enough =
    let k1 = (sym.edata + 3 - sym.sdata) / 4 in
    let k2 = (sym.ebss + 3 - sym.sbss) / 4 in
    let (copied, done1, c) =
      copy_loop_lem fuel memory sym.sidata sym.sdata sym.edata (sym.sdata + k1 * 4) k1 bytes refl
        (omega arith) (omega arith) (omega arith) (omega arith) (omega arith) in
    let (zeroed, done2, z) =
      bss_loop_lem fuel copied sym.sbss sym.ebss (sym.sbss + k2 * 4) k2 refl (omega arith)
        (omega arith) (omega arith) (omega arith) in
    let kept : (i : ℕ) → zeroed (noinit + i) ≡ memory (noinit + i) =
      λ i. ground (arith, z.other (noinit + i), c.other (noinit + i)) in
    (
      zeroed,
      rw (done1, done2, reset_handler) refl,
      record {
        initialised = λ i. ground (arith, z.other (sym.sdata + i), c.copied i);
        zeroed = z.zeroed;
        retained = kept;
        slot = same_slot noinit memory zeroed kept;
      },
    )
