-- ===== src/Demo/Stm32/Puts.antt =====
-- The parts of the demo on a device that takes every text.
use panicdump.Base.{ℕ, ◌≡◌, ap, ◌∙◌, arith, List, ◌++◌, Option, some, ◌>>=◌}
use mathlib.Core.List.{append_assoc}
use panicdump.Dump.{IsBytes}
use panicdump.Export.{new_line}
use panicdump.Demo.Uart.{Uart}
use panicdump.Demo.Uart.Sends.{IsLive, uart2_puts-Sends}
use panicdump.Demo.Stm32.{Board, puts, rule_text, title_text, greet}

-- The board after a text that has been sent.
abbrev pub Shows : Option Board → Board → List ℕ → Type 0
Shows r board text =
    (u : Uart) × (r ≡ some (record board { uart = u })) × (u.sent ≡ board.uart.sent ++ text)

pub bind-Shows :
    (r : Option Board) (f : Board → Option Board) (board : Board) (a b : List ℕ)
    → Shows r board a
    → ((board' : Board) → Shows (f board') board' b)
    → Shows (r >>= f) board (a ++ b)
bind-Shows r f board a b (u, done, sent) next =
    let (u', done', sent') = next (record board { uart = u }) in
    (
      u',
      ap (λ x. x >>= f) done ∙ done',
      sent' ∙ ap (λ l. l ++ b) sent ∙ append_assoc board.uart.sent a b,
    )

module _ (status : ℕ → ℕ) (fuel : ℕ) (live : IsLive status fuel) where
  pub puts-Shows :
      (text : List ℕ) (board : Board)
      → IsBytes text
      → Shows (puts status fuel text board) board text
  unfolding puts
  puts-Shows text board bytes =
      let (u, done, sent, same) = uart2_puts-Sends status fuel text board.uart live bytes in
      (u, ap (λ (x : Option Uart). x >>= λ uart. some (record board { uart = uart })) done, sent)

  rule_text-IsBytes : IsBytes rule_text
  unfolding rule_text
  rule_text-IsBytes = omega arith

  title_text-IsBytes : IsBytes title_text
  unfolding title_text
  title_text-IsBytes = omega arith

  pub greet-Shows :
      (board : Board)
      → Shows (greet status fuel board) board (new_line ++ (rule_text ++ (title_text ++ rule_text)))
  unfolding greet
  greet-Shows board = bind-Shows _ _ board _ _ (puts-Shows new_line board (omega arith)) λ board1.
      bind-Shows _ _ board1 _ _ (puts-Shows rule_text board1 rule_text-IsBytes) λ board2.
        bind-Shows _ _ board2 _ _ (puts-Shows title_text board2 title_text-IsBytes)
          λ board3. puts-Shows rule_text board3 rule_text-IsBytes
