-- ===== src/Demo/Uart/Init.antt =====
-- What `uart2_init` leaves in the registers.
use panicdump.Base.{ℕ, ◌+◌, ◌*◌, ◌/◌, ◌%◌, ◌^◌, ◌<◌, ◌≡◌, ◌⊎◌, Bool, true, ◌==◌, ◌||◌, refl, arith}
use panicdump.Bits.Split.{set_field, set_bit}
use panicdump.Demo.Uart.{
  Uart, uart2_init, rcc_ahb1enr, rcc_apb1enr, gpioa_moder, gpioa_afrl, usart2_brr, usart2_cr1,
}

-- The registers that `uart2_init` sets.
abbrev pub is_set : ℕ → Bool
is_set a =
    a == rcc_ahb1enr
    || a == rcc_apb1enr
    || a == gpioa_moder
    || a == gpioa_afrl
    || a == usart2_brr
    || a == usart2_cr1

pub record IsInit (r r' : ℕ → ℕ) (sysclk_hz baud : ℕ) : Type 0 where
  pub gpioa_clock : r' rcc_ahb1enr ≡ r rcc_ahb1enr / 2 * 2 + 1
  pub usart2_clock :
      r' rcc_apb1enr ≡ (r rcc_apb1enr / 2 ^ 18 * 2 + 1) * 2 ^ 17 + r rcc_apb1enr % 2 ^ 17
  pub pa2_alternate :
      r' gpioa_moder ≡ (r gpioa_moder / 2 ^ 6 * 2 ^ 2 + 2) * 2 ^ 4 + r gpioa_moder % 2 ^ 4
  pub pa2_usart : r' gpioa_afrl ≡ (r gpioa_afrl / 2 ^ 12 * 2 ^ 4 + 7) * 2 ^ 8 + r gpioa_afrl % 2 ^ 8
  pub divider : r' usart2_brr ≡ sysclk_hz / baud
  pub enabled : r' usart2_cr1 ≡ 2 ^ 13 + 2 ^ 3
  pub others : (a : ℕ) → (is_set a ≡ true) ⊎ (r' a ≡ r a)

-- On words in the registers of the port, `uart2_init` switches the two clocks on, gives PA2 its
-- alternate function 7, sets the divider and enables the transmitter, and leaves every other bit and
-- every other register as it was.
pub uart2_init_lem :
    (u : Uart) (sysclk_hz baud : ℕ)
    → u.registers gpioa_moder < 2 ^ 32
    → u.registers gpioa_afrl < 2 ^ 32
    → IsInit u.registers (uart2_init u sysclk_hz baud).registers sysclk_hz baud
unfolding uart2_init
uart2_init_lem u sysclk_hz baud moder afrl =
    let r = u.registers in
    record {
      gpioa_clock = omega (arith, set_bit 0 (r rcc_ahb1enr));
      usart2_clock = omega (arith, set_bit 17 (r rcc_apb1enr));
      pa2_alternate = omega (arith, set_field 4 2 26 (r gpioa_moder) 2 (omega arith) (omega arith));
      pa2_usart = omega (arith, set_field 8 4 20 (r gpioa_afrl) 7 (omega arith) (omega arith));
      divider = refl;
      enabled = refl;
      others = λ a. ground arith;
    }
