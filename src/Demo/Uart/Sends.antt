-- ===== src/Demo/Uart/Sends.antt =====
-- A device whose transmit register gets empty takes every text, in order.
use panicdump.Base.{
  ℕ, zero, suc, ◌+◌, ◌<◌, ◌≡◌, ◌≢◌, ◌∙◌, refl, sym, ap, arith, List, [], ◌∷◌, ◌++◌, Option, some,
  ◌!=◌, bit_and, u8, Bool-cases, inl, inr, true,
}
use mathlib.Core.List.{append-nil, append_assoc}
use panicdump.Dump.{IsBytes}
use panicdump.Demo.Uart.{Uart, sr_txe, wait_ready, uart2_putchar, uart2_puts}

-- Among any `fuel` reads of the status register in a row one has the flag.
abbrev pub IsLive : (ℕ → ℕ) → ℕ → Type 0
IsLive status fuel = (n : ℕ) → (k : ℕ) × (k < fuel) × (bit_and (status (n + k)) sr_txe ≢ 0)

-- The outcome of sending a text: it has been sent, and the registers are as they were.
abbrev pub Sends : Option Uart → Uart → List ℕ → Type 0
Sends r u text =
    (u' : Uart) × (r ≡ some u') × (u'.sent ≡ u.sent ++ text) × (u'.registers ≡ u.registers)

module _ (status : ℕ → ℕ) where
  wait_ready_lem :
      (fuel n k : ℕ)
      → k < fuel
      → bit_and (status (n + k)) sr_txe ≢ 0
      → (m : ℕ) × (wait_ready status fuel n ≡ some m)
  unfolding wait_ready
  wait_ready_lem zero n k h flag = absurd (omega arith)
  wait_ready_lem (suc fuel) n zero h flag =
      let e : n + 0 ≡ n = omega arith in
      let now : bit_and (status n) sr_txe != 0 ≡ true = ground (arith, ap status e) in
      (n + 1, rw now refl)
  wait_ready_lem (suc fuel) n (suc k) h flag =
      let e : n + suc k ≡ n + 1 + k = omega arith in
      let rest = wait_ready_lem fuel (n + 1) k (omega arith) (rw e at flag) in
      elim (Bool-cases (bit_and (status n) sr_txe != 0)) [
        | inl now ↦ (n + 1, rw now refl)
        | inr later ↦ (rest.0, rw later rest.1)
      ]

  pub uart2_putchar-Sends :
      (fuel c : ℕ) (u : Uart)
      → IsLive status fuel
      → c < 256
      → Sends (uart2_putchar status fuel c u) u (c ∷ [])
  unfolding uart2_putchar
  uart2_putchar-Sends fuel c u live small =
      let (k, h, flag) = live u.reads in
      let (m, ready) = wait_ready_lem fuel u.reads k h flag in
      let byte : u8 c ≡ c = omega arith in
      (
        record u { reads = m; sent = u.sent ++ u8 c ∷ [] },
        rw (ready, uart2_putchar) refl,
        ap (λ b. u.sent ++ b ∷ []) byte,
        refl,
      )

  -- On a device that is ready at least once in every `fuel` reads, `uart2_puts` returns, with no more
  -- than `fuel` reads for each character, and has sent the text, in order and once.
  pub uart2_puts-Sends :
      (fuel : ℕ) (text : List ℕ) (u : Uart)
      → IsLive status fuel
      → IsBytes text
      → Sends (uart2_puts status fuel text u) u text
  unfolding uart2_puts
  uart2_puts-Sends fuel [] u live bytes = (u, refl, sym (append-nil u.sent), refl)
  uart2_puts-Sends fuel (c ∷ text) u live bytes =
      let (u1, one, sent1, regs1) = uart2_putchar-Sends fuel c u live bytes.0 in
      let (u2, rest, sent2, regs2) = uart2_puts-Sends fuel text u1 live bytes.1 in
      (
        u2,
        rw (one, uart2_puts) rest,
        sent2 ∙ ap (λ l. l ++ text) sent1 ∙ append_assoc u.sent (c ∷ []) text,
        regs2 ∙ regs1,
      )
