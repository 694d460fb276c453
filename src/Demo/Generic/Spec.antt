-- ===== src/Demo/Generic/Spec.antt =====
-- What the boot and the assertion of the generic demo leave.
use panicdump.Base.{
  List, [], ◌∷◌, Bool, true, false, ℕ, zero, suc, ◌≡◌, refl, ap, ◌∙◌, arith, some, if◌then◌else◌,
  length, replicate, Bool-cases, inl, inr,
}
use panicdump.Dump.{Dump, IsBytes}
use panicdump.Slot.{Slot, has_valid, get, set_user_tag}
use panicdump.Slot.Life.{has_valid-image}
use panicdump.Slot.Typed.{IsSlot}
use panicdump.Export.Text.{dump_text}
use panicdump.Export.Feed.{feed}
use panicdump.Export.Spec.{boot_check_and_export_lem}
use panicdump.Port.{Port}
use panicdump.Tag.Hash.{fnv1a}
use panicdump.Trigger.Recorded.{trigger-user_tag}
use panicdump.Demo.Generic.{
  as_callback, start, main_loop, assert_failed, assert_tag, check_dump, tag_periph_init,
  tag_main_loop,
}

main_loop_lem :
    (n : ℕ) (slot : Slot)
    → main_loop n (record slot { user_tag = tag_main_loop })
      ≡ record slot { user_tag = tag_main_loop }
unfolding main_loop
main_loop_lem zero slot = refl
main_loop_lem (suc n) slot = main_loop_lem n slot

-- Calls with the characters of a text, and whether every result was true.
abbrev pub put_all : {S : Type 0} → (ℕ → S → S) → (ℕ → S → Bool) → List ℕ → S → Bool × S
put_all putchar result [] s = (true, s)
put_all putchar result (c ∷ text) s =
    let rest = put_all putchar result text (putchar c s) in
    if result c s then rest else (false, putchar c s)

feed-put_all :
    {S : Type 0} (putchar : ℕ → S → S) (result : ℕ → S → Bool) (text : List ℕ) (s : S)
    → feed (as_callback putchar result) text s ≡ put_all putchar result text s
unfolding feed
feed-put_all putchar result [] s = refl
feed-put_all putchar result (c ∷ text) s = elim (Bool-cases (result c s)) [
  | inl more ↦ rw more (feed-put_all putchar result text (putchar c s))
  | inr stop ↦ rw stop refl
]

module _ {S : Type 0} where
  start-feed :
      (your_uart_putchar : ℕ → S → S) (result : ℕ → S → Bool) (slot : Slot) (s : S) (n : ℕ)
      → length slot.dump_wire ≡ 192
      → IsBytes slot.dump_wire
      → let (slot', s') = start your_uart_putchar result slot s in
        ◌≡◌ {A = Slot × S}
          (main_loop n slot', s')
          (let kept = record slot { user_tag = tag_main_loop } in
            if has_valid slot
            then (let (all, s'') =
                  feed (as_callback your_uart_putchar result) (dump_text slot.dump_wire) s in
                (if all then record kept { dump_wire = replicate 192 0 } else kept, s''))
            else (kept, s))
  unfolding start check_dump set_user_tag
  start-feed your_uart_putchar result slot s n full bytes =
      let write = as_callback your_uart_putchar result in
      let slot2 = record slot { user_tag = tag_periph_init } in
      let same : has_valid slot2 ≡ has_valid slot = has_valid-image slot2 slot refl in
      let exported = boot_check_and_export_lem write slot2 s full bytes in
      elim (Bool-cases (has_valid slot)) [
        | inl valid ↦
            let there = same ∙ valid in
            elim (Bool-cases (feed write (dump_text slot.dump_wire) s).0) [
              | inl all ↦
                  rw (exported, there, valid, all)
                    (ap (λ t. (t, (feed write (dump_text slot.dump_wire) s).1))
                      (main_loop_lem n (record slot { dump_wire = replicate 192 0 })))
              | inr short ↦
                  rw (exported, there, valid, short)
                    (ap (λ t. (t, (feed write (dump_text slot.dump_wire) s).1))
                      (main_loop_lem n slot))
            ]
        | inr gone ↦ rw (same, gone) (ap (λ t. (t, s)) (main_loop_lem n slot))
      ]

  -- Let the image of the slot have 192 bytes.
  -- A boot that finds a dump calls `your_uart_putchar`, which returns nothing, with the characters of
  -- its text, from the first one on up to the first after which the export finds false for a result.
  -- The slot is cleared if there is no such character, and else keeps the dump for another boot. With a
  -- dump or without, the loop is entered with its tag, and any number of rounds later the slot is the
  -- same.
  pub start-main_loop :
      (your_uart_putchar : ℕ → S → S) (result : ℕ → S → Bool) (slot : Slot) (s : S) (n : ℕ)
      → length slot.dump_wire ≡ 192
      → IsBytes slot.dump_wire
      → let (slot', s') = start your_uart_putchar result slot s in
        ◌≡◌ {A = Slot × S}
          (main_loop n slot', s')
          (let kept = record slot { user_tag = tag_main_loop } in
            if has_valid slot
            then (let (all, s'') = put_all your_uart_putchar result (dump_text slot.dump_wire) s in
                (if all then record kept { dump_wire = replicate 192 0 } else kept, s''))
            else (kept, s))
  start-main_loop your_uart_putchar result slot s n full bytes =
      let kept = record slot { user_tag = tag_main_loop } in
      let after : Bool × S → Slot × S = λ r.
        if has_valid slot
        then (if r.0 then record kept { dump_wire = replicate 192 0 } else kept, r.1)
        else (kept, s) in
      start-feed your_uart_putchar result slot s n full bytes
      ∙ ap after (feed-put_all your_uart_putchar result (dump_text slot.dump_wire) s)

-- After `assert_failed`, on any port whose values are in range, the next boot finds a dump of a software
-- trigger, whose user tag is the FNV-1a hash of "assert_failed", whatever tag was set before.
pub get-assert_failed :
    {M : Type 0} (port : Port M) (m : M) (slot : Slot)
    → port.Sound m
    → IsSlot slot
    → (dump : Dump) × ((get (assert_failed port m slot)).0 ≡ some dump)
      × (dump.user_tag ≡ fnv1a 2166136261 assert_tag)
      × (dump.fault_reason ≡ 5)
unfolding assert_failed
get-assert_failed port m slot sound typed =
    trigger-user_tag port m slot (some assert_tag) sound typed (omega arith)
