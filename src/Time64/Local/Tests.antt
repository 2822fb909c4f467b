-- ===== src/Time64/Local/Tests.antt =====
-- The local times of time64.c over a C library whose local time is UTC.
use xylitol.Common.{◌≡◌, refl, none}
use xylitol.Common.Int.{pos, ◌+ℤ◌, ◌-ℤ◌}
use xylitol.Time64.{ok, null, Tm, int_value}
use xylitol.Time64.Local.{mktime64, timelocal64, local_year, fake_localtime_r}

local_year_new_year : local_year (pos 11) (pos 100) ≡ ok (pos 99)
unfolding local_year int_value ◌+ℤ◌ ◌-ℤ◌
local_year_new_year = refl

fake_localtime_r_null : fake_localtime_r (λ _. none) (pos 0) ≡ null
unfolding fake_localtime_r
fake_localtime_r_null = refl

-- The C library's date of the time 0.
abbrev epoch : Tm
epoch = record {
  sec = pos 0;
  min = pos 0;
  hour = pos 0;
  mday = pos 1;
  mon = pos 0;
  year = pos 70;
  wday = pos 4;
  yday = pos 0;
  isdst = pos 0;
}

timelocal64_1970 : timelocal64 (λ tm. (pos 0, tm)) epoch ≡ mktime64 (λ tm. (pos 0, tm)) epoch
unfolding timelocal64
timelocal64_1970 = refl
