-- ===== src/Kernel/Mktime.antt =====
-- kernel/mktime.c: from a broken-down time to seconds since 1970.
pub mod Calendar
mod Tests
use linux.Base.{
  ℕ, ◌+◌, ◌-◌, ◌*◌, ◌/◌, ◌%◌, List, [], ◌∷◌, ltb, leb, ◌==◌, not, ◌&&◌, if◌then◌else◌, get_or,
}
use linux.Base.Int.{ℤ, pos, ◌+ℤ◌, ◌-ℤ◌, bits_of, long_of}

-- The fields of `struct tm` that the kernel reads; the caller reads them off the clock chip.
pub record Tm : Type 0 where
  pub tm_sec : ℕ
  pub tm_min : ℕ
  pub tm_hour : ℕ
  pub tm_mday : ℕ
  pub tm_mon : ℕ
  pub tm_year : ℕ

abbrev pub minute : ℕ
minute = 60

abbrev pub hour : ℕ
hour = 60 * minute

abbrev pub day : ℕ
day = 24 * hour

abbrev pub year_seconds : ℕ
year_seconds = 365 * day

-- `month`: seconds from the start of a leap year to that of the month.
abbrev pub month : List ℕ
month =
    0
    ∷ (day * 31)
    ∷ (day * (31 + 29))
    ∷ (day * (31 + 29 + 31))
    ∷ (day * (31 + 29 + 31 + 30))
    ∷ (day * (31 + 29 + 31 + 30 + 31))
    ∷ (day * (31 + 29 + 31 + 30 + 31 + 30))
    ∷ (day * (31 + 29 + 31 + 30 + 31 + 30 + 31))
    ∷ (day * (31 + 29 + 31 + 30 + 31 + 30 + 31 + 31))
    ∷ (day * (31 + 29 + 31 + 30 + 31 + 30 + 31 + 31 + 30))
    ∷ (day * (31 + 29 + 31 + 30 + 31 + 30 + 31 + 31 + 30 + 31))
    ∷ (day * (31 + 29 + 31 + 30 + 31 + 30 + 31 + 31 + 30 + 31 + 30))
    ∷ []

-- Years since 1970; a two-digit year below 70 is of the next century.
abbrev pub year_of : Tm → ℕ
year_of tm = if leb 70 tm.tm_year then tm.tm_year - 70 else tm.tm_year + 100 - 70

-- The sum that `kernel_mktime` computes, before it is cut to a `long`. A read of `month` out of range
-- is outside the calendar; it is 0 here.
unfoldable pub sum_of : Tm → ℤ
sum_of tm =
    let year = year_of tm in
    let res = pos (year_seconds * year + day * ((year + 1) / 4) + get_or month tm.tm_mon 0) in
    let res' = if ltb 1 tm.tm_mon && not ((year + 2) % 4 == 0) then res -ℤ pos day else res in
    res'
    +ℤ (pos (day * tm.tm_mday) -ℤ pos day)
    +ℤ pos (hour * tm.tm_hour)
    +ℤ pos (minute * tm.tm_min)
    +ℤ pos tm.tm_sec

-- Each sum and product of the source wraps to a `long` of 32 bits; the last of these cuts gives what
-- all of them give.
unfoldable pub kernel_mktime : Tm → ℤ
unfolding sum_of
kernel_mktime tm = long_of (bits_of (sum_of tm))
