-- ===== src/Demo/Stm32/Export.antt =====
-- The export through the demo's callback.
use panicdump.Base.{
  ℕ, ◌≤◌, ◌≡◌, ◌⊎◌, refl, sym, ap, ◌∙◌, arith, List, [], ◌∷◌, ◌++◌, Bool, true, false, Option, some,
  length, Bool-cases, inl, inr, replicate,
}
use mathlib.Core.List.{append-nil, append_assoc}
use panicdump.Dump.{IsBytes}
use panicdump.Slot.{Slot, has_valid, clear}
use panicdump.Slot.Valid.{clear_lem}
use panicdump.Export.{export_hex}
use panicdump.Export.Text.{dump_text}
use panicdump.Export.Feed.{feed}
use panicdump.Export.Spec.{export_hex_lem}
use panicdump.Export.Ascii.{dump_text-IsBytes}
use panicdump.Demo.Stm32.Puts.{puts-Shows}
use panicdump.Demo.Uart.{Uart, uart2_putchar}
use panicdump.Demo.Uart.Sends.{IsLive, uart2_putchar-Sends}
use panicdump.Demo.Stm32.{
  Board, uart_write, export_and_clear, found_text, exporting_text, exported_text,
}

-- The calls of the demo's callback for a text, from a state of the port to one: each sends its character,
-- and the next one is made if the result found after it is true. `shown` is what has been sent.
pub data Takes (status : ℕ → ℕ) (fuel : ℕ) (result : ℕ → Uart → Bool)
    : List ℕ → Uart → List ℕ → Uart → Type 0 where
  all_taken : {u : Uart} → Takes status fuel result [] u [] u
  more :
      {c : ℕ} {text shown : List ℕ} {u u1 u' : Uart}
      → uart2_putchar status fuel c u ≡ some u1
      → result c u ≡ true
      → Takes status fuel result text u1 shown u'
      → Takes status fuel result (c ∷ text) u (c ∷ shown) u'
  stopped :
      {c : ℕ} {text : List ℕ} {u u1 : Uart}
      → uart2_putchar status fuel c u ≡ some u1
      → result c u ≡ false
      → Takes status fuel result (c ∷ text) u (c ∷ []) u1

-- How much of a text has been sent when the export stops.
pub record Fed (status : ℕ → ℕ) (fuel : ℕ) (result : ℕ → Uart → Bool) (text : List ℕ)
    (r : Option Uart) (u : Uart) : Type 0 where
  pub after : Uart
  pub returned : r ≡ some after
  pub shown : List ℕ
  pub left : List ℕ
  pub split : text ≡ shown ++ left
  pub sent : after.sent ≡ u.sent ++ shown
  pub taken : Takes status fuel result text u shown after
  pub whole : (left ≡ []) ⊎ ((c : ℕ) × (v : Uart) × (result c v ≡ false))
  pub cut : (length shown ≤ 1) ⊎ ((c : ℕ) × (v : Uart) × (result c v ≡ true))

found_text-IsBytes : IsBytes found_text
unfolding found_text
found_text-IsBytes = omega arith

exporting_text-IsBytes : IsBytes exporting_text
unfolding exporting_text
exporting_text-IsBytes = omega arith

exported_text-IsBytes : IsBytes exported_text
unfolding exported_text
exported_text-IsBytes = omega arith

module _ (status : ℕ → ℕ) (fuel : ℕ) (result : ℕ → Uart → Bool) (live : IsLive status fuel) where
  feed-Fed :
      (text : List ℕ) (u : Uart)
      → IsBytes text
      → Fed status fuel result text (feed (uart_write status fuel result) text (some u)).1 u
  unfolding feed uart_write
  feed-Fed [] u bytes = record {
    after = u;
    returned = refl;
    shown = [];
    left = [];
    split = refl;
    sent = sym (append-nil u.sent);
    taken = all_taken;
    whole = inl refl;
    cut = inl (omega arith);
  }
  feed-Fed (c ∷ text) u bytes =
      let (u1, done, sent, same) = uart2_putchar-Sends status fuel c u live bytes.0 in
      let rest = feed-Fed text u1 bytes.1 in
      elim (Bool-cases (result c u)) [
        | inl go_on ↦ record {
          after = rest.after;
          returned = rw (go_on, done) rest.returned;
          shown = c ∷ rest.shown;
          left = rest.left;
          split = ap (λ l. c ∷ l) rest.split;
          sent =
              rest.sent ∙ ap (λ l. l ++ rest.shown) sent ∙ append_assoc u.sent (c ∷ []) rest.shown;
          taken = more done go_on rest.taken;
          whole = rest.whole;
          cut = inr (c, u, go_on);
        }
        | inr stop ↦ record {
          after = u1;
          returned = rw stop done;
          shown = c ∷ [];
          left = text;
          split = refl;
          sent = sent;
          taken = stopped done stop;
          whole = inr (c, u, stop);
          cut = inl (omega arith);
        }
      ]

  -- The export of a valid dump over the serial port.
  export_hex-Fed :
      (slot : Slot) (u : Uart)
      → IsBytes slot.dump_wire
      → has_valid slot ≡ true
      → Fed status fuel result
          (dump_text slot.dump_wire)
          (export_hex (some (uart_write status fuel result)) slot (some u)).1
          u
  export_hex-Fed slot u bytes valid =
      rw (export_hex_lem (uart_write status fuel result) slot (some u) bytes, valid)
        (feed-Fed (dump_text slot.dump_wire) u (dump_text-IsBytes slot.dump_wire bytes))

-- The outcome of the branch with a dump.
pub record Exported (status : ℕ → ℕ) (fuel : ℕ) (result : ℕ → Uart → Bool) (board board' : Board)
    : Type 0 where
  pub slot : board'.slot ≡ record board.slot { dump_wire = replicate 192 0 }
  pub shown : List ℕ
  pub left : List ℕ
  pub split : dump_text board.slot.dump_wire ≡ shown ++ left
  pub sent :
      board'.uart.sent
      ≡ board.uart.sent ++ (found_text ++ (exporting_text ++ (shown ++ exported_text)))
  pub before : Uart
  pub after : Uart
  pub before_sent : before.sent ≡ board.uart.sent ++ (found_text ++ exporting_text)
  pub taken : Takes status fuel result (dump_text board.slot.dump_wire) before shown after
  pub whole : (left ≡ []) ⊎ ((c : ℕ) × (v : Uart) × (result c v ≡ false))
  pub cut : (length shown ≤ 1) ⊎ ((c : ℕ) × (v : Uart) × (result c v ≡ true))

module _ (status : ℕ → ℕ) (fuel : ℕ) (result : ℕ → Uart → Bool) (live : IsLive status fuel) where
  pub export_and_clear-Exported :
      (board : Board)
      → length board.slot.dump_wire ≡ 192
      → IsBytes board.slot.dump_wire
      → has_valid board.slot ≡ true
      → (board' : Board) × (export_and_clear status fuel result board ≡ some board')
        × Exported status fuel result board board'
  unfolding export_and_clear
  export_and_clear-Exported board full bytes valid =
      let (u1, done1, sent1) = puts-Shows status fuel live found_text board found_text-IsBytes in
      let board1 = record board { uart = u1 } in
      let (u2, done2, sent2) =
        puts-Shows status fuel live exporting_text board1 exporting_text-IsBytes in
      let fed = export_hex-Fed status fuel result live board.slot u2 bytes valid in
      let board3 = record board { uart = fed.after } in
      let (u4, done4, sent4) =
        puts-Shows status fuel live exported_text board3 exported_text-IsBytes in
      (
        record board { slot = clear board.slot; uart = u4 },
        rw (done1, done2, fed.returned, done4, export_and_clear) refl,
        record {
          slot = (clear_lem board.slot full).0;
          shown = fed.shown;
          left = fed.left;
          split = fed.split;
          sent =
              sent4
              ∙ ap (λ l. l ++ exported_text)
                  (fed.sent
                    ∙ ap (λ l. l ++ fed.shown) (sent2 ∙ ap (λ l. l ++ exporting_text) sent1))
              ∙ simp (append_assoc);
          before = u2;
          after = fed.after;
          before_sent =
              sent2
              ∙ ap (λ l. l ++ exporting_text) sent1
              ∙ append_assoc board.uart.sent found_text exporting_text;
          taken = fed.taken;
          whole = fed.whole;
          cut = fed.cut;
        },
      )
