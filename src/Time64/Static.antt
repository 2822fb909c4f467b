-- ===== src/Time64/Static.antt =====
-- time64.c: `gmtime64` and `localtime64` fill in one static `struct tm` and return its address. The
-- state is that struct; a result that is a value stands for its address.
use xylitol.Common.{◌≡◌, ap, Option}
use xylitol.Common.Int.{ℤ, pos, to_int}
use xylitol.Time64.{Result, ok, overflow, null, aborted, undefined, Tm}
use xylitol.Time64.Gmtime.{split_time, locate, gmtime64_r}
use xylitol.Time64.Local.{localtime64_r}

-- What `gmtime64_r` has written to the struct before it finds that the year does not fit.
abbrev pub written_year : Result (ℤ × ℤ × ℤ) → Tm → Tm
written_year (ok (year, mon, m)) date = record date { isdst = pos 0; year = to_int year }
written_year overflow date = date
written_year null date = date
written_year aborted date = date
written_year undefined date = date

-- The result and the struct behind it, from what the call with the struct's address gives and from
-- what it leaves there when it returns NULL. An assertion that fails ends the program.
abbrev pub static_result : Result Tm → Tm → Result Tm × Tm
static_result (ok date) left = (ok date, date)
static_result overflow left = (overflow, left)
static_result null left = (null, left)
static_result aborted left = (aborted, left)
static_result undefined left = (undefined, left)

unfoldable pub gmtime64 : ℤ → Tm → Result Tm × Tm
gmtime64 time static_date =
    let clock = split_time time in
    static_result (gmtime64_r time) (written_year (locate clock.3) static_date)

-- The struct stays as it is where `gmtime64_r` or the C library finds no date.
unfoldable pub localtime64 : (ℤ → Option Tm) → ℤ → Tm → Result Tm × Tm
localtime64 localtime time static_date = static_result (localtime64_r localtime time) static_date

static_result_lem :
    (r : Result Tm) (left date : Tm) → r ≡ ok date → static_result r left ≡ (ok date, date)
static_result_lem r left date e = ap (λ s. static_result s left) e

-- A date that localtime64 returns replaces the one that gmtime64 returned before, at the same
-- address, and the other way round.
localtime64-gmtime64 :
    (localtime : ℤ → Option Tm) (time other : ℤ) (date first second : Tm)
    → gmtime64_r time ≡ ok first
    → localtime64_r localtime other ≡ ok second
    → (gmtime64 time date ≡ (ok first, first))
      × (localtime64 localtime other (gmtime64 time date).1 ≡ (ok second, second))
      × (gmtime64 time (localtime64 localtime other date).1 ≡ (ok first, first))
unfolding gmtime64 localtime64
localtime64-gmtime64 localtime time other date first second e f = (
  static_result_lem (gmtime64_r time) _ first e,
  static_result_lem (localtime64_r localtime other) _ second f,
  static_result_lem (gmtime64_r time) _ first e,
)
