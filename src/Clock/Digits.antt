-- ===== src/Clock/Digits.antt =====
-- Binary coded decimals, and the time of a clock that holds it in them.
use husky_os.Base.{
  ℕ, ◌+◌, ◌-◌, ◌*◌, ◌/◌, ◌%◌, ◌<◌, ◌≤◌, ◌≡◌, Bool, true, false, if◌then◌else◌, u8, arith,
}
use husky_os.Base.Bits.{bit_and_mask}
use husky_os.Clock.{bcd_to_bin, bin_to_bcd, DateTime, counts_in_bcd, register, get_time}

-- `BcdToBin` undoes `BinToBcd` on two decimal digits, and the other way round on two BCD digits.
pub bcd_to_bin-bin_to_bcd :
    (n : ℕ)
    → (n < 100 → bcd_to_bin (bin_to_bcd n) ≡ n)
      × (n / 16 < 10 → n % 16 < 10 → bin_to_bcd (bcd_to_bin n) ≡ n)
unfolding bcd_to_bin bin_to_bcd
bcd_to_bin-bin_to_bcd n = (
  λ h. ground (arith, bit_and_mask 4 (n / 10 * 16 + n % 10)),
  λ h k. ground (arith, bit_and_mask 4 n),
)

-- What the clock's registers hold for a time, in BCD or in binary.
pub record Shows (rtc : ℕ → ℕ) (t : DateTime) (bcd : Bool) : Type 0 where
  pub mode : counts_in_bcd (u8 (rtc 0x0b)) ≡ bcd
  pub second : rtc 0x00 ≡ (if bcd then bin_to_bcd t.second else t.second)
  pub minute : rtc 0x02 ≡ (if bcd then bin_to_bcd t.minute else t.minute)
  pub hour : rtc 0x04 ≡ (if bcd then bin_to_bcd t.hour else t.hour)
  pub day : rtc 0x07 ≡ (if bcd then bin_to_bcd t.day else t.day)
  pub month : rtc 0x08 ≡ (if bcd then bin_to_bcd t.month else t.month)
  pub year : rtc 0x09 ≡ (if bcd then bin_to_bcd (t.year - 2000) else t.year - 2000)
  pub day_of_week : rtc 0x06 ≡ t.day_of_week + 1
  pub time_zone_offset : t.time_zone_offset ≡ 1

pub record InRange (t : DateTime) : Type 0 where
  pub second : t.second < 60
  pub minute : t.minute < 60
  pub hour : t.hour < 24
  pub day : t.day < 32
  pub month : t.month < 13
  pub from : 2000 ≤ t.year
  pub to : t.year < 2100
  pub day_of_week : t.day_of_week < 7

register_lem :
    (rtc : ℕ → ℕ) (bcd : Bool) (r v : ℕ)
    → rtc r ≡ (if bcd then bin_to_bcd v else v)
    → v < 100
    → register rtc bcd r ≡ v
unfolding register
register_lem rtc true r v e h =
    let small : u8 (rtc r) ≡ rtc r = unfold bin_to_bcd in ground arith in
    rw (small, e) ((bcd_to_bin-bin_to_bcd v).0 h)
register_lem rtc false r v e h = ground arith

-- `GetTime` answers the time that a clock in 24-hour mode shows, from 2000 to 2099, whether the
-- clock counts in BCD or in binary.
pub get_time_lem :
    (rtc : ℕ → ℕ) (t : DateTime) (bcd : Bool) → Shows rtc t bcd → InRange t → get_time rtc ≡ t
unfolding get_time
get_time_lem rtc t bcd s r =
    let e0 = s.mode in
    ground (
      arith,
      register_lem rtc bcd 0x00 t.second s.second (omega (arith, r.second)),
      register_lem rtc bcd 0x02 t.minute s.minute (omega (arith, r.minute)),
      register_lem rtc bcd 0x04 t.hour s.hour (omega (arith, r.hour)),
      register_lem rtc bcd 0x07 t.day s.day (omega (arith, r.day)),
      register_lem rtc bcd 0x08 t.month s.month (omega (arith, r.month)),
      register_lem rtc bcd 0x09 (t.year - 2000) s.year (omega (arith, r.to)),
    )
