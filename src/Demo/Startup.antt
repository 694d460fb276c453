-- ===== src/Demo/Startup.antt =====
-- `Reset_Handler` of examples/stm32f4_demo/startup_stm32f4.S, up to its call of `main`, over a memory of
-- bytes. `none` is a loop that has not ended in the given number of tests.
pub mod Loops
pub mod Retain
use panicdump.Base.{
  ℕ, zero, suc, ◌+◌, ◌/◌, ◌%◌, ◌^◌, Option, none, some, ◌>>=◌, ◌==◌, ltb, if◌then◌else◌,
}
use panicdump.Port.CortexM.{word_at}

abbrev pub Memory : Type 0
Memory = ℕ → ℕ

-- `str`
unfoldable pub store_word : Memory → ℕ → ℕ → Memory
store_word memory addr value a =
    if a == addr
    then value % 2 ^ 8
    else if a == addr + 1
    then value / 2 ^ 8 % 2 ^ 8
    else if a == addr + 2
    then value / 2 ^ 16 % 2 ^ 8
    else if a == addr + 3
    then value / 2 ^ 24 % 2 ^ 8
    else memory a

-- The symbols of the linker script.
pub record Symbols : Type 0 where
  pub sidata : ℕ
  pub sdata : ℕ
  pub edata : ℕ
  pub sbss : ℕ
  pub ebss : ℕ

-- From `.copy_check` on, with the registers r0, r1 and r2.
unfoldable pub copy_loop : ℕ → Memory → ℕ → ℕ → ℕ → Option Memory
copy_loop zero memory r0 r1 r2 = none
copy_loop (suc fuel) memory r0 r1 r2 =
    let rest =
      copy_loop fuel (store_word memory r1 (word_at memory r0)) ((r0 + 4) % 2 ^ 32)
        ((r1 + 4) % 2 ^ 32) r2 in
    if ltb r1 r2 then rest else some memory

-- From `.bss_check` on, with the registers r0, r1 and r2.
unfoldable pub bss_loop : ℕ → Memory → ℕ → ℕ → ℕ → Option Memory
bss_loop zero memory r0 r1 r2 = none
bss_loop (suc fuel) memory r0 r1 r2 =
    let rest = bss_loop fuel (store_word memory r0 r2) ((r0 + 4) % 2 ^ 32) r1 r2 in
    if ltb r0 r1 then rest else some memory

-- The weak one.
abbrev pub system_init : Memory → Memory
system_init memory = memory

-- The memory when `main` is called.
unfoldable pub reset_handler : ℕ → Symbols → Memory → Option Memory
unfolding copy_loop bss_loop
reset_handler fuel sym memory = do
  copied ← copy_loop fuel memory sym.sidata sym.sdata sym.edata
  zeroed ← bss_loop fuel copied sym.sbss sym.ebss 0
  some (system_init zeroed)
