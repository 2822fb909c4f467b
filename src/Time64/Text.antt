-- ===== src/Time64/Text.antt =====
-- The texts of legacy/old-shashlik/src/deps/stripped_bionic/time64.c: `valid_tm_wday`,
-- `valid_tm_mon`, `asctime64_r`, `asctime64`, `ctime64_r` and `ctime64`. A text is the list of its
-- bytes, without the final NUL. `sprintf` is the C library's: `%.3s`, `%3d`, `%.2d` and `%d`.
pub mod Length
pub mod Errors
use Prim.Native.Nat.{max}
use xylitol.Common.{
  ℕ, zero, suc, ◌+◌, ◌-◌, ◌/◌, ◌%◌, ◌≤◌, Bool, not, ◌&&◌, ◌||◌, Option, none, some, List, [], ◌∷◌,
  ◌++◌, if◌then◌else◌, ltb, leb, length, get_or, Bytes,
}
use xylitol.Common.Int.{ℤ, pos, negsuc, pos_part, neg_part, ◌+ℤ◌, ltb_ℤ, leb_ℤ}
use xylitol.Time64.{Result, ok, overflow, null, aborted, undefined, ◌>>=◌, Tm, int_value}
use xylitol.Time64.Local.{localtime64_r}

-- The digits of a number; `fuel` is at least their count.
pub digits : ℕ → ℕ → Bytes
digits zero n = []
digits (suc fuel) n =
    let rest = digits fuel (n / 10) in
    if ltb n 10 then (b'0' + n) ∷ [] else rest ++ ((b'0' + n % 10) ∷ [])

-- `n` copies of a byte.
pub fill_with : ℕ → ℕ → Bytes
fill_with zero c = []
fill_with (suc n) c = c ∷ fill_with n c

-- The digits of an `int`, at least `precision` of them: ten are enough.
pub int_digits : ℕ → ℕ → Bytes
int_digits precision n = let ds = digits 10 n in fill_with (precision - length ds) b'0' ++ ds

-- `%.<precision>d`
pub print_int : ℕ → ℤ → Bytes
print_int precision (pos n) = int_digits precision n
print_int precision (negsuc n) = b'-' ∷ int_digits precision (suc n)

-- `%<width>d`
pub pad_int : ℕ → ℤ → Bytes
pad_int width z = let t = print_int 1 z in fill_with (width - length t) b' ' ++ t

abbrev pub wday_name : List Bytes
wday_name =
    (b'S' ∷ b'u' ∷ b'n' ∷ [])
    ∷ (b'M' ∷ b'o' ∷ b'n' ∷ [])
    ∷ (b'T' ∷ b'u' ∷ b'e' ∷ [])
    ∷ (b'W' ∷ b'e' ∷ b'd' ∷ [])
    ∷ (b'T' ∷ b'h' ∷ b'u' ∷ [])
    ∷ (b'F' ∷ b'r' ∷ b'i' ∷ [])
    ∷ (b'S' ∷ b'a' ∷ b't' ∷ [])
    ∷ []

abbrev pub mon_name : List Bytes
mon_name =
    (b'J' ∷ b'a' ∷ b'n' ∷ [])
    ∷ (b'F' ∷ b'e' ∷ b'b' ∷ [])
    ∷ (b'M' ∷ b'a' ∷ b'r' ∷ [])
    ∷ (b'A' ∷ b'p' ∷ b'r' ∷ [])
    ∷ (b'M' ∷ b'a' ∷ b'y' ∷ [])
    ∷ (b'J' ∷ b'u' ∷ b'n' ∷ [])
    ∷ (b'J' ∷ b'u' ∷ b'l' ∷ [])
    ∷ (b'A' ∷ b'u' ∷ b'g' ∷ [])
    ∷ (b'S' ∷ b'e' ∷ b'p' ∷ [])
    ∷ (b'O' ∷ b'c' ∷ b't' ∷ [])
    ∷ (b'N' ∷ b'o' ∷ b'v' ∷ [])
    ∷ (b'D' ∷ b'e' ∷ b'c' ∷ [])
    ∷ []

pub valid_tm_wday : Tm → Bool
valid_tm_wday date = leb_ℤ (pos 0) date.wday && leb_ℤ date.wday (pos 6)

pub valid_tm_mon : Tm → Bool
valid_tm_mon date = leb_ℤ (pos 0) date.mon && leb_ℤ date.mon (pos 11)

-- "%.3s %.3s%3d %.2d:%.2d:%.2d %d\n"
pub date_text : Tm → ℤ → Bytes
date_text date year =
    get_or wday_name (pos_part date.wday) []
    ++ (b' '
        ∷ (get_or mon_name (pos_part date.mon) []
            ++ (pad_int 3 date.mday
                ++ (b' '
                    ∷ (print_int 2 date.hour
                        ++ (b':'
                            ∷ (print_int 2 date.min
                                ++ (b':'
                                    ∷ (print_int 2 date.sec
                                        ++ (b' ' ∷ (print_int 1 year ++ (10 ∷ []))))))))))))

-- The text that is written to `result`, which must have room for it and its NUL. The sum
-- `1900 + date->tm_year` is computed as an `int`.
pub asctime64_r : Tm → ℕ → Result Bytes
asctime64_r date room =
    if not (valid_tm_wday date) || not (valid_tm_mon date)
    then null
    else (int_value (pos 1900 +ℤ date.year) >>= λ year.
        let text = date_text date year in if ltb (length text) room then ok text else undefined)

-- The size of `Static_Return_String`.
abbrev pub static_room : ℕ
static_room = 35

pub asctime64 : Tm → Result Bytes
asctime64 date = asctime64_r date static_room

-- A `struct tm` that no call has filled in, or a null one, is not to be read.
pub filled_in : Result Tm → Result Tm
filled_in overflow = undefined
filled_in null = undefined
filled_in r = r

module _ (localtime : ℤ → Option Tm) where
  pub ctime64_r : ℤ → ℕ → Result Bytes
  ctime64_r time room = do date ← filled_in (localtime64_r localtime time); asctime64_r date room

  pub ctime64 : ℤ → Result Bytes
  ctime64 time = do date ← filled_in (localtime64_r localtime time); asctime64 date
