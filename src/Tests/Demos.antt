-- ===== src/Tests/Demos.antt =====
-- The theorems on the demos, on a serial port that is always ready.
use panicdump.Base.{
  ℕ, ◌+◌, ◌*◌, ◌%◌, ◌≡◌, refl, arith, [], ◌++◌, Bool, some, true, replicate, if◌then◌else◌, ltb,
}
use panicdump.Dump.{Dump}
use panicdump.Slot.{Slot, has_valid, get}
use panicdump.Export.Text.{dump_text}
use panicdump.Demo.Uart.{Uart}
use panicdump.Demo.Uart.Sends.{IsLive}
use panicdump.Demo.Delay.{delay_ms, delay_ms_lem}
use panicdump.Demo.Stm32.{Board, start, demo_trigger_fault}
use panicdump.Demo.Stm32.Boot.{Started, start-Started}
use panicdump.Demo.Stm32.Crash.{crash-Started}
use panicdump.Demo.Stm32.{idle, normal_text}
use panicdump.Demo.Stm32.Puts.{Shows}
use panicdump.Demo.Stm32.Idle.{dots, idle-Shows}
use panicdump.Demo.Startup.{Memory, Symbols, reset_handler}
use panicdump.Demo.Startup.Retain.{IsLaidOut, IsStarted, reset_handler-IsStarted}
use panicdump.Demo.Startup.Loops.{AllBytes}
use panicdump.Demo.Generic
use panicdump.Demo.Generic.{main_loop, tag_main_loop}
use panicdump.Demo.Generic.Spec.{put_all, start-main_loop}
use panicdump.Tests.Samples.{
  used_slot, valid_hardfault, valid_hardfault-IsBytes, board, board-IsBuild, stopped, pushed,
  pushed-IsMachine,
}
use panicdump.Tests.Runs.{vector_is_valid}

abbrev ready : ℕ → ℕ
ready n = 0xC0

ready-IsLive : IsLive ready 1
ready-IsLive n = (0, omega arith, ground arith)

abbrev reset_uart : Uart
reset_uart = record { registers = λ a. 0xA8000000; reads = 0; sent = [] }

abbrev held : Slot
held = record used_slot { dump_wire = valid_hardfault }

held_valid : has_valid held ≡ true
unfolding has_valid
held_valid = vector_is_valid

abbrev powered : Board
powered = record { slot = held; uart = reset_uart }

abbrev taken : ℕ → Uart → Bool
taken c uart = true

delay_ms_lem_example : delay_ms 4000001 1000 ≡ some (1000 * 4000)
delay_ms_lem_example = delay_ms_lem 4000001 1000 (omega arith) (omega arith)

start-Started_example :
    (board' : Board) × (start ready 1 4000001 taken powered ≡ some board')
    × Started ready 1 taken powered board'
start-Started_example =
    start-Started ready 1 4000001 taken ready-IsLive (omega arith) powered refl
      valid_hardfault-IsBytes held_valid

crash-Started_example :
    (crashed : Board) × (demo_trigger_fault ready 1 4000001 board stopped pushed 1 0xFFFFFFF9 7
        powered
      ≡ some crashed)
    × ((dump : Dump) × ((get crashed.slot).0 ≡ some dump)
        × (dump.fault_reason ≡ 1)
        × (dump.user_tag ≡ powered.slot.user_tag))
    × ((board' : Board) × (start ready 1 4000001 taken (record crashed { uart = reset_uart })
          ≡ some board')
        × Started ready 1 taken (record crashed { uart = reset_uart }) board')
crash-Started_example =
    crash-Started ready 1 4000001 taken board stopped pushed powered 1 0xFFFFFFF9 7 reset_uart
      ready-IsLive (omega arith) board-IsBuild pushed-IsMachine (omega arith) (omega arith)
      (omega arith)

-- A function that counts, and leaves true for its first 100 calls.
abbrev count : ℕ → ℕ → ℕ
count c n = n + 1

abbrev first_100 : ℕ → ℕ → Bool
first_100 c n = ltb n 100

start-main_loop_example :
    let (slot', n) = Generic.start count first_100 held 0 in
    ◌≡◌ {A = Slot × ℕ}
      (main_loop 5 slot', n)
      (let kept = record held { user_tag = tag_main_loop } in
        if has_valid held
        then (let (all, n') = put_all count first_100 (dump_text valid_hardfault) 0 in
            (if all then record kept { dump_wire = replicate 192 0 } else kept, n'))
        else (kept, 0))
start-main_loop_example = start-main_loop count first_100 held 0 5 refl valid_hardfault-IsBytes

idle-Shows_example : Shows (idle ready 1 2000001 20 powered) powered (normal_text ++ dots 20)
idle-Shows_example = idle-Shows ready 1 2000001 ready-IsLive (omega arith) 20 powered

-- Seven bytes of .data and 249 of .bss.
abbrev pub sections : Symbols
sections = record {
  sidata = 0x08004000;
  sdata = 0x20000000;
  edata = 0x20000007;
  sbss = 0x20000008;
  ebss = 0x20000101;
}

pub sections-IsLaidOut : IsLaidOut sections 0x20000104
sections-IsLaidOut = omega arith

abbrev at_reset : Memory
at_reset a = a % 251

at_reset-AllBytes : AllBytes at_reset
at_reset-AllBytes a = omega arith

reset_handler-IsStarted_example :
    (memory' : Memory) × (reset_handler 100 sections at_reset ≡ some memory')
    × IsStarted sections 0x20000104 at_reset memory'
reset_handler-IsStarted_example =
    reset_handler-IsStarted 100 sections 0x20000104 at_reset sections-IsLaidOut at_reset-AllBytes
      (omega arith)
