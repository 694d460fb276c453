-- ===== src/Demo/Stm32/Idle.antt =====
-- The demo when it does not fault: a text, and a dot every half second for as long as it runs.
use panicdump.Base.{ℕ, zero, suc, ◌<◌, refl, sym, arith, List, [], ◌++◌}
use mathlib.Core.List.{append-nil}
use panicdump.Dump.{IsBytes}
use panicdump.Demo.Uart.Sends.{IsLive}
use panicdump.Demo.Delay.{delay_ms_lem}
use panicdump.Demo.Stm32.{Board, normal_text, dot_text, idle_loop, idle}
use panicdump.Demo.Stm32.Puts.{Shows, bind-Shows, puts-Shows}

normal_text-IsBytes : IsBytes normal_text
unfolding normal_text
normal_text-IsBytes = omega arith

dot_text-IsBytes : IsBytes dot_text
unfolding dot_text
dot_text-IsBytes = omega arith

abbrev pub dots : ℕ → List ℕ
dots zero = []
dots (suc n) = dot_text ++ dots n

module _ (status : ℕ → ℕ) (fuel rounds : ℕ) (live : IsLive status fuel)
    (enough : 2000000 < rounds) where
  idle_loop-Shows :
      (n : ℕ) (board : Board) → Shows (idle_loop status fuel rounds n board) board (dots n)
  unfolding idle_loop
  idle_loop-Shows zero board = (board.uart, refl, sym (append-nil board.uart.sent))
  idle_loop-Shows (suc n) board =
      let waited = delay_ms_lem rounds 500 (omega arith) (omega arith) in
      let rest =
        bind-Shows _ (idle_loop status fuel rounds n) board dot_text (dots n)
          (puts-Shows status fuel live dot_text board dot_text-IsBytes) (idle_loop-Shows n) in
      rw waited rest

  -- On a serial port that is ready again and again, every round of the idle loop comes to its end: after
  -- `n` rounds the port has sent the text and `n` dots, and the slot is as it was.
  pub idle-Shows :
      (n : ℕ) (board : Board)
      → Shows (idle status fuel rounds n board) board (normal_text ++ dots n)
  unfolding idle
  idle-Shows n board =
      bind-Shows _ _ board normal_text (dots n)
        (puts-Shows status fuel live normal_text board normal_text-IsBytes) (idle_loop-Shows n)
