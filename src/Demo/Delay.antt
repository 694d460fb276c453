-- ===== src/Demo/Delay.antt =====
-- `delay_ms` of examples/stm32f4_demo/main.c.
use panicdump.Base.{
  ℕ, zero, suc, ◌+◌, ◌-◌, ◌*◌, ◌/◌, ◌%◌, ◌^◌, ◌<◌, ◌≡◌, ap, ◌∙◌, arith, Option, none, some, ◌!=◌,
  if◌then◌else◌, u32,
}

abbrev pub sysclk_hz : ℕ
sysclk_hz = 16000000

-- `while (count--) {}` for at most `fuel` tests: the rounds of its body, added to `rounds`.
unfoldable pub count_down : ℕ → ℕ → ℕ → Option ℕ
count_down zero count rounds = none
count_down (suc fuel) count rounds =
    let rest = count_down fuel ((count + 2 ^ 32 - 1) % 2 ^ 32) (rounds + 1) in
    if count != 0 then rest else some rounds

unfoldable pub delay_ms : ℕ → ℕ → Option ℕ
unfolding count_down
delay_ms fuel ms = count_down fuel (u32 (ms * (sysclk_hz / 4000))) 0

count_down_lem :
    (fuel count rounds : ℕ)
    → count < 2 ^ 32
    → count < fuel
    → count_down fuel count rounds ≡ some (rounds + count)
unfolding count_down
count_down_lem zero count rounds h enough = absurd (omega arith)
count_down_lem (suc fuel) zero rounds h enough = ap some (omega arith)
count_down_lem (suc fuel) (suc count) rounds h enough =
    let next : (suc count + 2 ^ 32 - 1) % 2 ^ 32 ≡ count = omega arith in
    ground (
      arith,
      ap (λ n. count_down fuel n (rounds + 1)) next,
      count_down_lem fuel count (rounds + 1) (omega arith) (omega arith),
    )

-- The delay ends, after 4000 rounds for each millisecond, up to 1073741 milliseconds.
pub delay_ms_lem :
    (fuel ms : ℕ) → ms * 4000 < 2 ^ 32 → ms * 4000 < fuel → delay_ms fuel ms ≡ some (ms * 4000)
unfolding delay_ms
delay_ms_lem fuel ms h enough =
    let count : ms * (sysclk_hz / 4000) % 2 ^ 32 ≡ ms * 4000 = omega arith in
    ap (λ n. count_down fuel n 0) count
    ∙ count_down_lem fuel (ms * 4000) 0 h enough
    ∙ ap some (omega arith)
