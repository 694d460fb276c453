-- ===== src/Demo/Startup/Loops.antt =====
-- The two loops of the start-up code: what they write, and that they end.
use panicdump.Base.{
  ℕ, zero, suc, ◌+◌, ◌-◌, ◌*◌, ◌%◌, ◌^◌, ◌≤◌, ◌<◌, ◌≡◌, ◌⊎◌, inl, inr, refl, ap, ap₂, ◌∙◌, arith,
  some, false, true, ltb, ℕ_discrete, dec_lt,
}
use panicdump.Port.CortexM.{word_at}
use panicdump.Demo.Startup.{Memory, store_word, copy_loop, bss_loop}

-- Every cell holds a byte.
abbrev pub AllBytes : Memory → Type 0
AllBytes memory = (a : ℕ) → memory a < 256

store_word-lt :
    (memory : Memory) (addr value : ℕ) → AllBytes memory → AllBytes (store_word memory addr value)
unfolding store_word
store_word-lt memory addr value h a = ground (arith, h a)

store_word-other :
    (memory : Memory) (addr value a : ℕ)
    → (a < addr) ⊎ (addr + 4 ≤ a)
    → store_word memory addr value a ≡ memory a
unfolding store_word
store_word-other memory addr value a h = ground arith

store_word-copy :
    (memory : Memory) (addr from i : ℕ)
    → AllBytes memory
    → i < 4
    → store_word memory addr (word_at memory from) (addr + i) ≡ memory (from + i)
unfolding store_word
store_word-copy memory addr from i h lt =
    let b0 = h from in
    let b1 = h (from + 1) in
    let b2 = h (from + 2) in
    let b3 = h (from + 3) in
    elim (ℕ_discrete i 0) [
      | yes e ↦
          let at : from + i ≡ from = omega arith in ground (arith, b0, b1, b2, b3, ap memory at)
      | no not0 ↦ elim (ℕ_discrete i 1) [
        | yes e ↦
            let at : from + i ≡ from + 1 = omega arith in
            ground (arith, b0, b1, b2, b3, ap memory at)
        | no not1 ↦ elim (ℕ_discrete i 2) [
          | yes e ↦
              let at : from + i ≡ from + 2 = omega arith in
              ground (arith, b0, b1, b2, b3, ap memory at)
          | no not2 ↦
              let at : from + i ≡ from + 3 = omega arith in
              ground (arith, b0, b1, b2, b3, ap memory at)
        ]
      ]
    ]

store_word-zero : (memory : Memory) (addr i : ℕ) → i < 4 → store_word memory addr 0 (addr + i) ≡ 0
unfolding store_word
store_word-zero memory addr i lt = ground arith

unchanged :
    (m' m : Memory) (lo hi a : ℕ)
    → (a < lo) ⊎ (hi ≤ a)
    → ((lo ≤ a) × (a < hi)) ⊎ (m' a ≡ m a)
    → m' a ≡ m a
unchanged m' m lo hi a out same = ground arith

-- What one round and the rest of them leave alone.
round-other :
    (memory : Memory) (addr value top a after : ℕ)
    → addr + 4 ≤ top
    → ((addr + 4 ≤ a) × (a < top)) ⊎ (after ≡ store_word memory addr value a)
    → ((addr ≤ a) × (a < top)) ⊎ (after ≡ memory a)
round-other memory addr value top a after fits rest = elim (dec_lt a addr) [
  | yes below ↦ ground (arith, store_word-other memory addr value a (inl below))
  | no above ↦ elim (dec_lt a (addr + 4)) [
    | yes here ↦ inl (omega arith)
    | no behind ↦ ground (arith, store_word-other memory addr value a (inr (omega arith)))
  ]
]

-- The data of the copy: the words from `r0` go to `r1`, up to `top`, where the loop ends.
pub record Copied (memory memory' : Memory) (r0 r1 r2 top : ℕ) : Type 0 where
  pub bytes : AllBytes memory'
  pub other : (a : ℕ) → ((r1 ≤ a) × (a < top)) ⊎ (memory' a ≡ memory a)
  pub copied : (i : ℕ) → (r2 ≤ r1 + i) ⊎ (memory' (r1 + i) ≡ memory (r0 + i))

pub copy_loop_lem :
    (fuel : ℕ) (memory : Memory) (r0 r1 r2 top k : ℕ)
    → AllBytes memory
    → top ≡ r1 + k * 4
    → r2 ≤ top
    → top < r2 + 4
    → top < 2 ^ 32
    → r0 + k * 4 ≤ r1
    → k < fuel
    → (memory' : Memory) × (copy_loop fuel memory r0 r1 r2 ≡ some memory')
      × Copied memory memory' r0 r1 r2 top
unfolding copy_loop
copy_loop_lem zero memory r0 r1 r2 top k h e lo hi fits apart enough = absurd (omega arith)
copy_loop_lem (suc fuel) memory r0 r1 r2 top zero h e lo hi fits apart enough =
    let stop : ltb r1 r2 ≡ false = ground arith in
    (
      memory,
      rw stop refl,
      record { bytes = h; other = λ a. inr refl; copied = λ i. inl (omega arith) },
    )
copy_loop_lem (suc fuel) memory r0 r1 r2 top (suc k) h e lo hi fits apart enough =
    let go : ltb r1 r2 ≡ true = ground arith in
    let next0 : (r0 + 4) % 2 ^ 32 ≡ r0 + 4 = omega arith in
    let next1 : (r1 + 4) % 2 ^ 32 ≡ r1 + 4 = omega arith in
    let once = store_word memory r1 (word_at memory r0) in
    let (end, done, rest) =
      copy_loop_lem fuel once (r0 + 4) (r1 + 4) r2 top k
        (store_word-lt memory r1 (word_at memory r0) h) (omega arith) lo hi fits (omega arith)
        (omega arith) in
    (
      end,
      rw go (ap₂ (λ x y. copy_loop fuel once x y r2) next0 next1 ∙ done),
      record {
        bytes = rest.bytes;
        other = λ a.
            round-other memory r1 (word_at memory r0) top a (end a) (omega arith) (rest.other a);
        copied = λ i. elim (dec_lt (r1 + i) r2) [
          | no past ↦ inl (omega arith)
          | yes inside ↦ inr (elim (dec_lt i 4) [
            | yes first ↦
                unchanged end once (r1 + 4) top (r1 + i) (inl (omega arith)) (rest.other (r1 + i))
                ∙ store_word-copy memory r1 r0 i h first
            | no later ↦
                let at1 : r1 + i ≡ r1 + 4 + (i - 4) = omega arith in
                let at0 : r0 + 4 + (i - 4) ≡ r0 + i = omega arith in
                ap end at1
                ∙ ground (arith, rest.copied (i - 4))
                ∙ ap once at0
                ∙ store_word-other memory r1 (word_at memory r0) (r0 + i) (inl (omega arith))
          ])
        ];
      },
    )

-- The data of the clearing: the words from `r0` up to `top` are zero.
pub record Cleared (memory memory' : Memory) (r0 r1 top : ℕ) : Type 0 where
  pub other : (a : ℕ) → ((r0 ≤ a) × (a < top)) ⊎ (memory' a ≡ memory a)
  pub zeroed : (i : ℕ) → (r1 ≤ r0 + i) ⊎ (memory' (r0 + i) ≡ 0)

pub bss_loop_lem :
    (fuel : ℕ) (memory : Memory) (r0 r1 top k : ℕ)
    → top ≡ r0 + k * 4
    → r1 ≤ top
    → top < r1 + 4
    → top < 2 ^ 32
    → k < fuel
    → (memory' : Memory) × (bss_loop fuel memory r0 r1 0 ≡ some memory')
      × Cleared memory memory' r0 r1 top
unfolding bss_loop
bss_loop_lem zero memory r0 r1 top k e lo hi fits enough = absurd (omega arith)
bss_loop_lem (suc fuel) memory r0 r1 top zero e lo hi fits enough =
    let stop : ltb r0 r1 ≡ false = ground arith in
    (memory, rw stop refl, record { other = λ a. inr refl; zeroed = λ i. inl (omega arith) })
bss_loop_lem (suc fuel) memory r0 r1 top (suc k) e lo hi fits enough =
    let go : ltb r0 r1 ≡ true = ground arith in
    let next : (r0 + 4) % 2 ^ 32 ≡ r0 + 4 = omega arith in
    let once = store_word memory r0 0 in
    let (end, done, rest) =
      bss_loop_lem fuel once (r0 + 4) r1 top k (omega arith) lo hi fits (omega arith) in
    (
      end,
      rw go (ap (λ x. bss_loop fuel once x r1 0) next ∙ done),
      record {
        other = λ a. round-other memory r0 0 top a (end a) (omega arith) (rest.other a);
        zeroed = λ i. elim (dec_lt i 4) [
          | yes first ↦ inr (
              unchanged end once (r0 + 4) top (r0 + i) (inl (omega arith)) (rest.other (r0 + i))
              ∙ store_word-zero memory r0 i first)
          | no later ↦
              let at : r0 + i ≡ r0 + 4 + (i - 4) = omega arith in
              ground (arith, ap end at, rest.zeroed (i - 4))
        ];
      },
    )
