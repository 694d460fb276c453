-- ===== src/Demo/Stm32/Boot.antt =====
-- A boot of the demo up to its stage 4, with a dump and without one, and a crash after it.
use panicdump.Base.{
  ℕ, ◌≤◌, ◌<◌, ◌≡◌, ◌⊎◌, refl, ap, ◌∙◌, arith, List, [], ◌++◌, Bool, true, false, some, length,
  replicate,
}
use mathlib.Core.List.{append_assoc}
use panicdump.Dump.{IsBytes}
use panicdump.Slot.{Slot, has_valid, set_user_tag}
use panicdump.Slot.Life.{has_valid-image}
use panicdump.Export.{new_line}
use panicdump.Export.Text.{dump_text}
use panicdump.Demo.Uart.{Uart, uart2_init}
use panicdump.Demo.Uart.Sends.{IsLive}
use panicdump.Demo.Delay.{delay_ms, delay_ms_lem}
use panicdump.Demo.Stm32.{
  Board, tag, dump_check, start, rule_text, title_text, found_text, exporting_text, exported_text,
  no_dump_text, running_text, apb1_hz, app_tag_hw_init, app_tag_dump_check, app_tag_running,
  app_tag_wait_fault,
}
use panicdump.Demo.Stm32.Puts.{puts-Shows, greet-Shows}
use panicdump.Demo.Stm32.Export.{Takes, export_and_clear-Exported}

abbrev pub greeting : List ℕ
greeting = new_line ++ (rule_text ++ (title_text ++ rule_text))

no_dump_text-IsBytes : IsBytes no_dump_text
unfolding no_dump_text
no_dump_text-IsBytes = omega arith

running_text-IsBytes : IsBytes running_text
unfolding running_text
running_text-IsBytes = omega arith

-- The board at stage 4 of a boot that found a dump. `shown` is what the export has sent of it, with
-- the calls of the callback from the state `before` of the port to the state `after`.
pub record Started (status : ℕ → ℕ) (fuel : ℕ) (result : ℕ → Uart → Bool) (board board' : Board)
    : Type 0 where
  pub slot :
      board'.slot ≡ record board.slot { dump_wire = replicate 192 0; user_tag = app_tag_wait_fault }
  pub shown : List ℕ
  pub left : List ℕ
  pub split : dump_text board.slot.dump_wire ≡ shown ++ left
  pub sent :
      board'.uart.sent
      ≡ board.uart.sent
        ++ (greeting
            ++ (found_text ++ (exporting_text ++ (shown ++ (exported_text ++ running_text)))))
  pub before : Uart
  pub after : Uart
  pub before_sent : before.sent ≡ board.uart.sent ++ (greeting ++ (found_text ++ exporting_text))
  pub taken : Takes status fuel result (dump_text board.slot.dump_wire) before shown after
  pub whole : (left ≡ []) ⊎ ((c : ℕ) × (v : Uart) × (result c v ≡ false))
  pub cut : (length shown ≤ 1) ⊎ ((c : ℕ) × (v : Uart) × (result c v ≡ true))

module _ (status : ℕ → ℕ) (fuel rounds : ℕ) (result : ℕ → Uart → Bool) (live : IsLive status fuel)
    (enough : 4000000 < rounds) where
  waited : delay_ms rounds 1000 ≡ some 4000000
  waited = delay_ms_lem rounds 1000 (omega arith) (omega arith)

  -- A boot that finds a dump, on a serial port that is ready again and again, gets to stage 4 with the
  -- slot cleared and its own tag, whatever the callback's results. It has sent the greeting and the
  -- dump's text from its start on, exactly the characters up to the first after which the result found
  -- is false: all of it unless some result is false, and at most one character unless some result is
  -- true.
  pub start-Started :
      (board : Board)
      → length board.slot.dump_wire ≡ 192
      → IsBytes board.slot.dump_wire
      → has_valid board.slot ≡ true
      → (board' : Board) × (start status fuel rounds result board ≡ some board')
        × Started status fuel result board board'
  unfolding start dump_check set_user_tag uart2_init
  start-Started board full bytes valid =
      let board1 = record (tag app_tag_hw_init board) {
        uart = uart2_init board.uart apb1_hz 115200;
      } in
      let (u2, done2, sent2) = greet-Shows status fuel live board1 in
      let board2 = tag app_tag_dump_check (record board1 { uart = u2 }) in
      let there : has_valid board2.slot ≡ true =
        has_valid-image board2.slot board.slot refl ∙ valid in
      let (board3, done3, dump) =
        export_and_clear-Exported status fuel result live board2 full bytes there in
      let board4 = tag app_tag_running board3 in
      let (u5, done5, sent5) =
        puts-Shows status fuel live running_text board4 running_text-IsBytes in
      (
        tag app_tag_wait_fault (record board4 { uart = u5 }),
        rw (done2, there, done3, done5, waited, start) refl,
        record {
          slot = ap (λ (t : Slot). record t { user_tag = app_tag_wait_fault }) dump.slot;
          shown = dump.shown;
          left = dump.left;
          split = dump.split;
          sent =
              sent5
              ∙ ap (λ l. l ++ running_text)
                  (dump.sent
                    ∙ ap
                        (λ l.
                          l ++ (found_text ++ (exporting_text ++ (dump.shown ++ exported_text))))
                        sent2)
              ∙ simp append_assoc;
          before = dump.before;
          after = dump.after;
          before_sent =
              dump.before_sent
              ∙ ap (λ l. l ++ (found_text ++ exporting_text)) sent2
              ∙ simp append_assoc;
          taken = dump.taken;
          whole = dump.whole;
          cut = dump.cut;
        },
      )

  -- A boot that finds no dump, on such a port, gets to stage 4 with the image as it was and its own
  -- tag, and has sent the greeting.
  pub start-no_dump :
      (board : Board)
      → has_valid board.slot ≡ false
      → (u : Uart) × (start status fuel rounds result board
          ≡ some (record { slot = record board.slot { user_tag = app_tag_wait_fault }; uart = u }))
        × (u.sent ≡ board.uart.sent ++ (greeting ++ (no_dump_text ++ running_text)))
  unfolding start dump_check set_user_tag uart2_init
  start-no_dump board gone =
      let board1 = record (tag app_tag_hw_init board) {
        uart = uart2_init board.uart apb1_hz 115200;
      } in
      let (u2, done2, sent2) = greet-Shows status fuel live board1 in
      let board2 = tag app_tag_dump_check (record board1 { uart = u2 }) in
      let none_there : has_valid board2.slot ≡ false =
        has_valid-image board2.slot board.slot refl ∙ gone in
      let (u3, done3, sent3) =
        puts-Shows status fuel live no_dump_text board2 no_dump_text-IsBytes in
      let board4 = tag app_tag_running (record board2 { uart = u3 }) in
      let (u5, done5, sent5) =
        puts-Shows status fuel live running_text board4 running_text-IsBytes in
      (
        u5,
        rw (done2, none_there, done3, done5, waited, start) refl,
        sent5
            ∙ ap (λ l. l ++ running_text) (sent3 ∙ ap (λ l. l ++ no_dump_text) sent2)
            ∙ simp append_assoc,
      )
