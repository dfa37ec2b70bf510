-- ===== src/Clock/Examples.antt =====
-- A clock in BCD that shows Saturday, 14 August 2021, 23:59:07.
use husky_os.Base.{ℕ, refl, true, ◌==◌, if◌then◌else◌, arith}
use husky_os.Clock.{DateTime, counts_in_bcd, bin_to_bcd}
use husky_os.Clock.Digits.{Shows, InRange}

abbrev evening : DateTime
evening = record {
  second = 7;
  minute = 59;
  hour = 23;
  day = 14;
  month = 8;
  year = 2021;
  day_of_week = 6;
  time_zone_offset = 1;
}

abbrev rtc : ℕ → ℕ
rtc r =
    if r == 0x00
    then 0x07
    else if r == 0x02
    then 0x59
    else if r == 0x04
    then 0x23
    else if r == 0x06
    then 7
    else if r == 0x07
    then 0x14
    else if r == 0x08
    then 0x08
    else if r == 0x09
    then 0x21
    else 0x02

rtc-Shows : Shows rtc evening true
unfolding counts_in_bcd bin_to_bcd
rtc-Shows = record {
  mode = refl;
  second = refl;
  minute = refl;
  hour = refl;
  day = refl;
  month = refl;
  year = refl;
  day_of_week = refl;
  time_zone_offset = refl;
}

evening-InRange : InRange evening
evening-InRange = record {
  second = omega arith;
  minute = omega arith;
  hour = omega arith;
  day = omega arith;
  month = omega arith;
  from = omega arith;
  to = omega arith;
  day_of_week = omega arith;
}
