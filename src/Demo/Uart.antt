-- ===== src/Demo/Uart.antt =====
-- examples/stm32f4_demo/stm32f4_uart.c. The registers are a memory by address, but for the two that the
-- hardware drives: what the status register reads is given, and a write of the data register sends.
pub mod Init
pub mod Sends
use panicdump.Base.{
  ℕ, zero, suc, ◌+◌, ◌-◌, ◌/◌, List, [], ◌∷◌, ◌++◌, Option, none, some, ◌==◌, ◌!=◌, if◌then◌else◌,
  bit_and, bit_or, u8,
}

-- `reads` counts the reads of the status register so far.
pub record Uart : Type 0 where
  pub registers : ℕ → ℕ
  pub reads : ℕ
  pub sent : List ℕ

abbrev pub rcc_ahb1enr : ℕ
rcc_ahb1enr = 0x40023830

abbrev pub rcc_apb1enr : ℕ
rcc_apb1enr = 0x40023840

abbrev pub gpioa_moder : ℕ
gpioa_moder = 0x40020000

abbrev pub gpioa_afrl : ℕ
gpioa_afrl = 0x40020020

abbrev pub usart2_brr : ℕ
usart2_brr = 0x40004408

abbrev pub usart2_cr1 : ℕ
usart2_cr1 = 0x4000440C

abbrev rcc_ahb1enr_gpioaen : ℕ
rcc_ahb1enr_gpioaen = 0x1

abbrev rcc_apb1enr_usart2en : ℕ
rcc_apb1enr_usart2en = 0x20000

abbrev cr1_ue : ℕ
cr1_ue = 0x2000

abbrev cr1_te : ℕ
cr1_te = 0x8

-- USART_SR_TXE
abbrev pub sr_txe : ℕ
sr_txe = 0x80

abbrev pub write_register : Uart → ℕ → ℕ → Uart
write_register u address value = record u {
  registers = λ a. if a == address then value else u.registers a;
}

abbrev pub or_register : Uart → ℕ → ℕ → Uart
or_register u address bits = write_register u address (bit_or (u.registers address) bits)

abbrev pub and_register : Uart → ℕ → ℕ → Uart
and_register u address mask = write_register u address (bit_and (u.registers address) mask)

-- The masks are `~(3u << 4)` and `~(0xFu << 8)`.
unfoldable pub uart2_init : Uart → ℕ → ℕ → Uart
uart2_init u sysclk_hz baud =
    let u1 = or_register u rcc_ahb1enr rcc_ahb1enr_gpioaen in
    let u2 = or_register u1 rcc_apb1enr rcc_apb1enr_usart2en in
    let u3 = and_register u2 gpioa_moder 0xFFFFFFCF in
    let u4 = or_register u3 gpioa_moder 0x20 in
    let u5 = and_register u4 gpioa_afrl 0xFFFFF0FF in
    let u6 = or_register u5 gpioa_afrl 0x700 in
    let u7 = write_register u6 usart2_brr (sysclk_hz / baud) in
    write_register u7 usart2_cr1 (bit_or cr1_ue cr1_te)

-- `status n` is what the read number `n` of the status register gives.
module _ (status : ℕ → ℕ) where
  -- The loop that waits, for at most `fuel` reads: the count of reads when it ends.
  unfoldable pub wait_ready : ℕ → ℕ → Option ℕ
  wait_ready zero n = none
  wait_ready (suc fuel) n =
      let rest = wait_ready fuel (n + 1) in
      if bit_and (status n) sr_txe != 0 then some (n + 1) else rest

  -- None if the wait takes more than `fuel` reads.
  unfoldable pub uart2_putchar : ℕ → ℕ → Uart → Option Uart
  unfolding wait_ready
  uart2_putchar fuel c u = elim (wait_ready fuel u.reads) [
    | none ↦ none
    | some n ↦ some (record u { reads = n; sent = u.sent ++ u8 c ∷ [] })
  ]

  -- The loop over the characters that are left before the NUL.
  unfoldable pub uart2_puts : ℕ → List ℕ → Uart → Option Uart
  unfolding uart2_putchar
  uart2_puts fuel [] u = some u
  uart2_puts fuel (c ∷ text) u = elim (uart2_putchar fuel c u) [
    | none ↦ none
    | some u' ↦ uart2_puts fuel text u'
  ]
