-- ===== src/Kernel/Mktime/Calendar.antt =====
-- The Gregorian calendar, written on its own, and `kernel_mktime` against it.
use linux.Base.{
  ℕ, zero, suc, ◌+◌, ◌-◌, ◌*◌, ◌/◌, ◌%◌, ◌≤◌, ◌<◌, ◌≡◌, refl, ap, ◌∙◌, ◌^◌, Bool, true, false, [],
  ◌∷◌, arith, ltb, ◌==◌, ==_iff, not, ◌&&◌, ◌||◌, if◌then◌else◌, get_or,
}
use linux.Base.Loops.{holds_below, holds_below_at}
use linux.Base.Int.{pos, bits_of, long_of, ◌+ℤ◌, ◌-ℤ◌, int_laws}
use linux.Kernel.Mktime.{Tm, month, day, hour, minute, year_seconds, year_of, sum_of, kernel_mktime}

-- Every fourth year, but of the centuries only every fourth.
abbrev pub is_leap : ℕ → Bool
is_leap y = y % 4 == 0 && (not (y % 100 == 0) || y % 400 == 0)

-- Days of the `n` years from 1970 on.
abbrev pub days_of_years : ℕ → ℕ
days_of_years zero = 0
days_of_years (suc n) = days_of_years n + (if is_leap (1970 + n) then 366 else 365)

-- Days of a month, counted from 0 for January.
abbrev pub days_of_month : Bool → ℕ → ℕ
days_of_month leap m =
    get_or (31 ∷ (if leap then 29 else 28) ∷ 31 ∷ 30 ∷ 31 ∷ 30 ∷ 31 ∷ 31 ∷ 30 ∷ 31 ∷ 30 ∷ 31 ∷ []) m
      0

-- Days of the `m` months from January on.
abbrev pub days_of_months : Bool → ℕ → ℕ
days_of_months leap zero = 0
days_of_months leap (suc m) = days_of_months leap m + days_of_month leap m

-- Seconds from 1 January 1970, 00:00:00, to a date of the year `1970 + year`.
abbrev pub epoch_seconds : ℕ → Tm → ℕ
epoch_seconds year tm =
    86400
      * (days_of_years year + days_of_months (is_leap (1970 + year)) tm.tm_mon + (tm.tm_mday - 1))
    + 3600 * tm.tm_hour
    + 60 * tm.tm_min
    + tm.tm_sec

-- Up to 2099 the century rule never takes a leap year away.
is_leap-fourth : (n : ℕ) → n < 130 → is_leap (1970 + n) ≡ ((n + 2) % 4 == 0)
is_leap-fourth n h = ground arith

days_of_years-closed : (n : ℕ) → n ≤ 130 → days_of_years n ≡ 365 * n + (n + 1) / 4
days_of_years-closed zero h = refl
days_of_years-closed (suc n) h =
    ground (arith, days_of_years-closed n (omega arith), is_leap-fourth n (omega arith))

month_agrees : Bool → ℕ → Bool
month_agrees leap m =
    get_or month m 0 == day * days_of_months leap m + (if ltb 1 m && not leap then day else 0)

month_table : (leap : Bool) → holds_below (month_agrees leap) 12 ≡ true
unfolding month_agrees
month_table true = refl
month_table false = refl

month-days_of_months :
    (leap : Bool) (m : ℕ)
    → m < 12
    → get_or month m 0 ≡ day * days_of_months leap m + (if ltb 1 m && not leap then day else 0)
unfolding month_agrees
month-days_of_months leap m h =
    (==_iff _ _).0 (holds_below_at (month_agrees leap) 12 m h (month_table leap))

-- `late` says that the date is after February of a common year: the table counted a day too many.
sum_of_parts :
    (late : Bool) (year mo dm mday h m s : ℕ)
    → 1 ≤ mday
    → mo ≡ day * dm + (if late then day else 0)
    → let res = pos (year_seconds * year + day * ((year + 1) / 4) + mo) in
      let res' = if late then res -ℤ pos day else res in
      res' +ℤ (pos (day * mday) -ℤ pos day) +ℤ pos (hour * h) +ℤ pos (minute * m) +ℤ pos s
      ≡ pos (86400 * (365 * year + (year + 1) / 4 + dm + (mday - 1)) + 3600 * h + 60 * m + s)
sum_of_parts true year mo dm mday h m s hd e = omega int_laws
sum_of_parts false year mo dm mday h m s hd e = omega int_laws

sum_of-epoch_seconds :
    (tm : Tm)
    → year_of tm < 130
    → tm.tm_mon < 12
    → 1 ≤ tm.tm_mday
    → sum_of tm ≡ pos (epoch_seconds (year_of tm) tm)
unfolding sum_of
sum_of-epoch_seconds tm hy hm hd =
    rw (days_of_years-closed (year_of tm) (omega arith), ← is_leap-fourth (year_of tm) hy)
      (sum_of_parts (ltb 1 tm.tm_mon && not (is_leap (1970 + year_of tm))) (year_of tm) _ _ _ _ _ _
        hd (month-days_of_months (is_leap (1970 + year_of tm)) tm.tm_mon hm))

-- A number that fits a `long` is kept.
long_of-small : (n : ℕ) → n < 2 ^ 31 → long_of (n % 2 ^ 32) ≡ pos n
long_of-small n h = ground (arith, h)

-- For every date of the years 1970 to 2099, a year below 70 counted from 2000, the result is the
-- number of seconds from the epoch by the Gregorian calendar, cut to a `long`: it is that number
-- itself as long as this is below 2^31, to 19 January 2038, 03:14:07.
pub kernel_mktime-epoch_seconds :
    (tm : Tm)
    → year_of tm < 130
    → tm.tm_mon < 12
    → 1 ≤ tm.tm_mday
    → (kernel_mktime tm ≡ long_of (epoch_seconds (year_of tm) tm % 2 ^ 32))
      × (epoch_seconds (year_of tm) tm < 2 ^ 31
          → kernel_mktime tm ≡ pos (epoch_seconds (year_of tm) tm))
unfolding kernel_mktime
kernel_mktime-epoch_seconds tm hy hm hd =
    let cut : kernel_mktime tm ≡ long_of (epoch_seconds (year_of tm) tm % 2 ^ 32) =
      ap (λ z. long_of (bits_of z)) (sum_of-epoch_seconds tm hy hm hd) in
    (cut, λ small. cut ∙ long_of-small (epoch_seconds (year_of tm) tm) small)
