-- ===== src/Drivers/Pit.antt =====
-- Kernel/src/drivers/pit.cpp: the timer. Its frequency is at least 19 and the divisor fits an
-- `int`; while a thread sleeps, each `hlt` waits for one interrupt of the timer.
pub mod Ticks
mod Examples
use husky_os.Base.{
  ℕ, zero, suc, ◌+◌, ◌/◌, ◌%◌, ◌^◌, ◌-◌, Option, some, none, ltb, ◌==◌, if◌then◌else◌, u8, u32, u64,
  bit_and,
}
use husky_os.Cpu.Port.{Ports}
use husky_os.Cpu.Pic.{outportb, pic_clear_mask}
use husky_os.Cpu.Isr.{Handler, Tables, register_interrupt_handler}

pub record Timer : Type 0 where
  pub timer_ticks : ℕ
  pub timer_subticks : ℕ

abbrev pub subticks_per_tick : ℕ
subticks_per_tick = 100

-- `timer_handler`; the sub-ticks are an `unsigned char`, the ticks an `unsigned long`.
unfoldable pub timer_handler : Timer → Timer
timer_handler t =
    if u8 (t.timer_subticks + 1) == subticks_per_tick
    then record { timer_ticks = u64 (t.timer_ticks + 1); timer_subticks = 0 }
    else record t { timer_subticks = u8 (t.timer_subticks + 1) }

-- The loop of `Sleep_pit`.
unfoldable pub wait_until : (fuel goal : ℕ) → Timer → Option Timer
wait_until zero goal t = none
wait_until (suc fuel) goal t =
    let on = wait_until fuel goal (timer_handler t) in if ltb t.timer_ticks goal then on else some t

-- `Sleep_pit`: the start and the sum with `s` are `uint32_t`.
unfoldable pub sleep_pit : (fuel s : ℕ) → Timer → Option Timer
sleep_pit fuel s t = wait_until fuel (u32 (u32 t.timer_ticks + s)) t

unfoldable pub get_uptime : Timer → ℕ
get_uptime t = u32 t.timer_ticks

unfoldable pub get_up_subtime : Timer → ℕ
get_up_subtime t = t.timer_subticks

module _ {S : Type 0} (ports : Ports S) where
  unfoldable pub timer_phase : (hz : ℕ) → S → S
  timer_phase hz s =
      let divisor = 1193180 / hz in
      outportb ports 0x40 (bit_and (divisor / 2 ^ 8) 0xff)
        (outportb ports 0x40 (bit_and divisor 0xff) (outportb ports 0x43 0x36 s))

  unfoldable pub timer_install : Handler S → Tables S × S → Tables S × S
  timer_install handler (t, s) =
      (register_interrupt_handler 0 handler t, timer_phase 100 (pic_clear_mask ports 0 s))
