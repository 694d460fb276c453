-- ===== src/Demo/Stm32.antt =====
-- examples/stm32f4_demo/main.c. `none` is a call that has not returned within the given reads of the
-- status register and rounds of a delay.
pub mod Puts
pub mod Export
pub mod Boot
pub mod Crash
pub mod Idle
use panicdump.Base.{
  ℕ, zero, suc, ◌+◌, List, ◌++◌, Bool, false, Option, none, some, ◌>>=◌, if◌then◌else◌,
}
use panicdump.Slot.{Slot, has_valid, clear, set_user_tag}
use panicdump.Export.{Writer, codes, new_line, export_hex}
use panicdump.Port.CortexM.{Build, Machine, Prologue, fault_entry}
use panicdump.Demo.Uart.{Uart, uart2_init, uart2_putchar, uart2_puts}
use panicdump.Demo.Delay.{delay_ms}

abbrev pub apb1_hz : ℕ
apb1_hz = 16000000

abbrev pub app_tag_hw_init : ℕ
app_tag_hw_init = 0x10

abbrev pub app_tag_dump_check : ℕ
app_tag_dump_check = 0x20

abbrev pub app_tag_running : ℕ
app_tag_running = 0x30

abbrev pub app_tag_wait_fault : ℕ
app_tag_wait_fault = 0x40

-- The library's variables and the serial port.
pub record Board : Type 0 where
  pub slot : Slot
  pub uart : Uart

unfoldable pub rule_text : List ℕ
rule_text = codes "========================================" ++ new_line

unfoldable pub title_text : List ℕ
title_text = codes "  panicdump STM32F4 demo" ++ new_line

unfoldable pub found_text : List ℕ
found_text = new_line ++ (codes "[panicdump] Previous crash dump found!" ++ new_line)

unfoldable pub exporting_text : List ℕ
exporting_text = codes "[panicdump] Exporting..." ++ (new_line ++ new_line)

unfoldable pub exported_text : List ℕ
exported_text = new_line ++ (codes "[panicdump] Dump exported. Clearing." ++ (new_line ++ new_line))

unfoldable pub no_dump_text : List ℕ
no_dump_text = codes "[panicdump] No previous crash dump." ++ new_line

unfoldable pub running_text : List ℕ
running_text = codes "[app] Running. Tag=0x30" ++ new_line

unfoldable pub normal_text : List ℕ
normal_text =
    codes "[app] Running normally (no demo fault). Set PANICDUMP_DEMO_TRIGGER_FAULT to test."
    ++ new_line

unfoldable pub dot_text : List ℕ
dot_text = codes "." ++ new_line

unfoldable pub trigger_text : List ℕ
trigger_text =
    new_line ++ (codes "[demo] Triggering deliberate BusFault in 1 second..." ++ new_line)

-- `status` is what the device answers, as in Demo/Uart.
module _ (status : ℕ → ℕ) (fuel : ℕ) where
  unfoldable pub puts : List ℕ → Board → Option Board
  unfolding uart2_puts
  puts text board = do
    uart ← uart2_puts status fuel text board.uart
    some (record board { uart = uart })

  -- Stage 1 of `main`.
  unfoldable pub greet : Board → Option Board
  unfolding puts
  greet board = do
    board1 ← puts new_line board
    board2 ← puts rule_text board1
    board3 ← puts title_text board2
    puts rule_text board3

  -- The callback that the export is given. It returns no value: `result` is what its caller finds in
  -- the register of the result. After a call that does not return there is no other.
  unfoldable pub uart_write : (ℕ → Uart → Bool) → ℕ → Writer (Option Uart)
  unfolding uart2_putchar
  uart_write result c none = (false, none)
  uart_write result c (some u) = (result c u, uart2_putchar status fuel c u)

  -- Stage 2, the branch with a dump.
  unfoldable pub export_and_clear : (ℕ → Uart → Bool) → Board → Option Board
  unfolding puts uart_write
  export_and_clear result board = do
    board1 ← puts found_text board
    board2 ← puts exporting_text board1
    uart ← (export_hex (some (uart_write result)) board2.slot (some board2.uart)).1
    board3 ← puts exported_text (record board2 { uart = uart })
    some (record board3 { slot = clear board3.slot })

  unfoldable pub dump_check : (ℕ → Uart → Bool) → Board → Option Board
  unfolding export_and_clear
  dump_check result board =
      if has_valid board.slot then export_and_clear result board else puts no_dump_text board

abbrev pub tag : ℕ → Board → Board
tag t board = record board { slot = set_user_tag board.slot t }

module _ (status : ℕ → ℕ) (fuel rounds : ℕ) where
  -- `main` up to stage 4.
  unfoldable pub start : (ℕ → Uart → Bool) → Board → Option Board
  unfolding dump_check greet delay_ms
  start result board = do
    let board1 = tag app_tag_hw_init board
    board2 ← greet status fuel (record board1 { uart = uart2_init board1.uart apb1_hz 115200 })
    board3 ← dump_check status fuel result (tag app_tag_dump_check board2)
    board4 ← puts status fuel running_text (tag app_tag_running board3)
    waited ← delay_ms rounds 1000
    some (tag app_tag_wait_fault board4)

  -- `demo_trigger_fault`, up to the store that faults, and the stub that the vector table then gives,
  -- with `lr` and `r3` as the exception finds them. It does not return.
  unfoldable pub demo_trigger_fault : Build → Machine → Prologue → ℕ → ℕ → ℕ → Board → Option Board
  unfolding puts delay_ms
  demo_trigger_fault build m pro reason lr r3 board = do
    board1 ← puts status fuel trigger_text board
    waited ← delay_ms rounds 1000
    some (record board1 { slot = fault_entry build reason m pro lr r3 board1.slot })

  -- The other end of `main`, for `n` rounds of its loop.
  unfoldable pub idle_loop : ℕ → Board → Option Board
  unfolding puts delay_ms
  idle_loop zero board = some board
  idle_loop (suc n) board = do
    waited ← delay_ms rounds 500
    board1 ← puts status fuel dot_text board
    idle_loop n board1

  unfoldable pub idle : ℕ → Board → Option Board
  unfolding puts idle_loop
  idle n board = do board1 ← puts status fuel normal_text board; idle_loop n board1
