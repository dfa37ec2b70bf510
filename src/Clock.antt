-- ===== src/Clock.antt =====
-- Kernel/src/time/time.cpp: the real time clock. `rtc` is what `RtcRead` reads from a register,
-- first when the update flag is read and then when the time is; in between `GetTime` may sleep.
pub mod Digits
mod Examples
use husky_os.Cpu.Port.{Ports}
use husky_os.Cpu.Pic.{outportb}
use husky_os.Base.{
  ℕ, ◌+◌, ◌-◌, ◌*◌, ◌/◌, ◌%◌, ◌^◌, Bool, not, ◌==◌, if◌then◌else◌, u8, u16, bit_and,
}

unfoldable pub bcd_to_bin : ℕ → ℕ
bcd_to_bin val = u8 (bit_and val 0xf + val / 2 ^ 4 * 10)

unfoldable pub bin_to_bcd : ℕ → ℕ
bin_to_bcd val = u8 (val / 10 * 2 ^ 4 + val % 10)

pub record DateTime : Type 0 where
  pub second : ℕ
  pub minute : ℕ
  pub hour : ℕ
  pub day : ℕ
  pub month : ℕ
  pub year : ℕ
  pub day_of_week : ℕ
  pub time_zone_offset : ℕ

-- `~regb & REGB_DM`: the clock counts in BCD.
unfoldable pub counts_in_bcd : ℕ → Bool
counts_in_bcd regb = bit_and regb 4 == 0

-- The value of a register, by the clock's mode.
unfoldable pub register : (rtc : ℕ → ℕ) → (bcd : Bool) → ℕ → ℕ
register rtc bcd r = if bcd then bcd_to_bin (u8 (rtc r)) else u8 (rtc r)

-- Whether `GetTime` sleeps for three ticks first.
unfoldable pub sleeps_first : (rtc : ℕ → ℕ) → Bool
sleeps_first rtc = not (bit_and (u8 (rtc 0x0a)) 0x80 == 0)

unfoldable pub get_time : (rtc : ℕ → ℕ) → DateTime
get_time rtc =
    let bcd = counts_in_bcd (u8 (rtc 0x0b)) in
    record {
      second = register rtc bcd 0x00;
      minute = register rtc bcd 0x02;
      hour = register rtc bcd 0x04;
      day = register rtc bcd 0x07;
      month = register rtc bcd 0x08;
      year = u16 (register rtc bcd 0x09 + 2000);
      day_of_week = (u8 (rtc 0x06) + 255) % 2 ^ 8;
      time_zone_offset = 1;
    }

unfoldable pub rtc_write : {S : Type 0} → Ports S → (addr val : ℕ) → S → S
rtc_write ports addr val s = outportb ports 0x71 val (outportb ports 0x70 addr s)
