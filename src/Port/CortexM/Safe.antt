-- ===== src/Port/CortexM/Safe.antt =====
-- The frame test, and frames in memories that agree on the configured RAM.
use panicdump.Base.{ℕ, ◌+◌, ◌%◌, ◌≤◌, ◌<◌, ◌≡◌, ◌↔◌, ◌^◌, arith, true}
use panicdump.Bits.Fields.{and-mask}
use panicdump.Dump.{Regs}
use panicdump.Port.CortexM.{Build, Machine, word_at, frame_within_ram, frame_regs}

-- With an end of RAM of at least 64 and below 2 ^ 32, a frame pointer passes the test exactly if it
-- is aligned and 64 bytes of RAM lie from it on.
pub frame_within_ram_iff :
    (b : Build) (addr : ℕ)
    → 64 ≤ b.ram_end
    → b.ram_end < 2 ^ 32
    → (frame_within_ram b addr ≡ true)
      ↔ ((b.ram_base ≤ addr) × (addr + 64 ≤ b.ram_end) × (addr % 4 ≡ 0))
unfolding frame_within_ram
frame_within_ram_iff b addr room fits = ground (arith, and-mask 2 addr)

-- A machine with another memory.
abbrev pub with_memory : Machine → (ℕ → ℕ) → Machine
with_memory m memory = record m { memory = memory }

pub word_same :
    (f g : ℕ → ℕ) (lo hi a : ℕ)
    → ((i : ℕ) → lo ≤ i → i < hi → f i ≡ g i)
    → lo ≤ a
    → a + 4 ≤ hi
    → word_at f a ≡ word_at g a
word_same f g lo hi a same above below = omega (
  arith,
  same a above (omega arith),
  same (a + 1) (omega arith) (omega arith),
  same (a + 2) (omega arith) (omega arith),
  same (a + 3) (omega arith) (omega arith),
)

module _ (b : Build) (m : Machine) (other : ℕ → ℕ)
    (same : (a : ℕ) → b.ram_base ≤ a → a < b.ram_end → m.memory a ≡ other a) where
  pub frame_regs_same :
      (frame : ℕ) (regs : Regs)
      → b.ram_base ≤ frame
      → frame + 64 ≤ b.ram_end
      → frame_regs m frame regs ≡ frame_regs (with_memory m other) frame regs
  unfolding frame_regs
  frame_regs_same frame regs lo hi =
      let word = λ (k : ℕ) (p : k ≤ 60).
        word_same m.memory other b.ram_base b.ram_end (frame + k) same (omega arith)
          (omega arith) in
      let first = word_same m.memory other b.ram_base b.ram_end frame same lo (omega arith) in
      λ i. record regs {
        r0 = first i;
        r1 = word 4 (omega arith) i;
        r2 = word 8 (omega arith) i;
        r3 = word 12 (omega arith) i;
        r12 = word 16 (omega arith) i;
        lr = word 20 (omega arith) i;
        pc = word 24 (omega arith) i;
        xpsr = word 28 (omega arith) i;
      }
