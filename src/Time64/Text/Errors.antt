-- ===== src/Time64/Text/Errors.antt =====
-- What `ctime64` does with a date that there is none of.
use xylitol.Common.{ℕ, ◌≡◌, Option}
use xylitol.Common.Int.{ℤ}
use xylitol.Time64.{overflow, undefined, Tm}
use xylitol.Time64.Gmtime.{gmtime64_r}
use xylitol.Time64.Local.{localtime64_r}
use xylitol.Time64.Local.Errors.{localtime64_r-overflow}
use xylitol.Time64.Text.{filled_in, ctime64_r, ctime64}

-- Where `gmtime64_r` of a time sets EOVERFLOW and returns NULL, `localtime64_r` does so too, but
-- `ctime64_r` and `ctime64` do not look at that result: they read a date that nothing has written,
-- whatever the room for the text.
ctime64-overflow :
    (localtime : ℤ → Option Tm) (time : ℤ) (room : ℕ)
    → gmtime64_r time ≡ overflow
    → (localtime64_r localtime time ≡ overflow)
      × (ctime64 localtime time ≡ undefined)
      × (ctime64_r localtime time room ≡ undefined)
unfolding ctime64 ctime64_r filled_in
ctime64-overflow localtime time room e =
    let none_filled = localtime64_r-overflow localtime time e in
    (none_filled, rw none_filled, rw none_filled)
