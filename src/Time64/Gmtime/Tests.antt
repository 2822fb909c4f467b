-- ===== src/Time64/Gmtime/Tests.antt =====
-- `gmtime64_r` at times whose dates are known, and at its limits.
use xylitol.Common.{◌≡◌, refl}
use xylitol.Common.Int.{pos, negsuc, ◌+ℤ◌, ◌-ℤ◌, ◌*ℤ◌, tdiv, tmod, to_int}
use xylitol.Time64.{ok, overflow, int_value, is_leap}
use xylitol.Time64.Gmtime.{
  check_tm, wrap, split_time, week_day, drop_cycles, years_up, years_down, months_up, months_down,
  forward, backward, locate, fill, gmtime64_r,
}

-- 2000-02-29T23:59:59
gmtime64_r_leap_day :
    gmtime64_r (pos 951868799)
    ≡ ok (record {
      sec = pos 59;
      min = pos 59;
      hour = pos 23;
      mday = pos 29;
      mon = pos 1;
      year = pos 100;
      wday = pos 2;
      yday = pos 59;
      isdst = pos 0;
    })
unfolding gmtime64_r fill locate forward backward months_up months_down years_up years_down
    drop_cycles week_day split_time wrap check_tm is_leap int_value to_int tdiv tmod ◌+ℤ◌ ◌-ℤ◌ ◌*ℤ◌
gmtime64_r_leap_day = refl

-- 1969-12-31T23:59:59
gmtime64_r_before_epoch :
    gmtime64_r (negsuc 0)
    ≡ ok (record {
      sec = pos 59;
      min = pos 59;
      hour = pos 23;
      mday = pos 31;
      mon = pos 11;
      year = pos 69;
      wday = pos 3;
      yday = pos 364;
      isdst = pos 0;
    })
unfolding gmtime64_r fill locate forward backward months_up months_down years_up years_down
    drop_cycles week_day split_time wrap check_tm is_leap int_value to_int tdiv tmod ◌+ℤ◌ ◌-ℤ◌ ◌*ℤ◌
gmtime64_r_before_epoch = refl

pub gmtime64_r_overflow : gmtime64_r (pos 9223372036854775807) ≡ overflow
unfolding gmtime64_r fill locate forward backward months_up months_down years_up years_down
    drop_cycles week_day split_time wrap check_tm is_leap int_value to_int tdiv tmod ◌+ℤ◌ ◌-ℤ◌ ◌*ℤ◌
gmtime64_r_overflow = refl
