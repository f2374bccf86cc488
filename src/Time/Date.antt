-- ===== src/Time/Date.antt =====
-- include/hohnor/time/Date.h and src/time/Date.cpp. An `int` of the source is a number here, and a
-- result that it does not hold is `none`. For days from March 1st of year 0 on, and months up to 12, no difference
-- in these functions is below 0.
pub mod Calendar
pub mod Split
pub mod Days
mod Examples
use hohnor.Prelude.{
  ℕ, ◌+◌, ◌-◌, ◌*◌, ◌/◌, ◌%◌, ◌^◌, Bool, ◌&&◌, Option, none, some, if◌then◌else◌, ltb, ◌==◌, ◌>>=◌,
}

pub record Date : Type 0 where
  pub julian_day_number : ℕ

pub record YearMonthDay : Type 0 where
  pub year : ℕ
  pub month : ℕ
  pub day : ℕ

-- The fields of a `struct tm` that a date is made of.
pub record Tm : Type 0 where
  pub tm_year : ℕ
  pub tm_mon : ℕ
  pub tm_mday : ℕ

-- Whether a number is in the range of an `int`.
abbrev pub fits : ℕ → Bool
fits n = ltb n (2 ^ 31)

-- The arithmetic of the two functions, on numbers without a bound.
unfoldable pub day_number_in : ℕ → ℕ → ℕ → ℕ
day_number_in year month day =
    let a = (14 - month) / 12 in
    let y = year + 4800 - a in
    let m = month + 12 * a - 3 in
    day + (153 * m + 2) / 5 + y * 365 + y / 4 - y / 100 + y / 400 - 32045

unfoldable pub date_in : ℕ → YearMonthDay
date_in julian_day_number =
    let a = julian_day_number + 32044 in
    let b = (4 * a + 3) / 146097 in
    let c = a - b * 146097 / 4 in
    let d = (4 * c + 3) / 1461 in
    let e = c - 1461 * d / 4 in
    let m = (5 * e + 2) / 153 in
    record {
      year = b * 100 + d - 4800 + m / 10;
      month = m + 3 - 12 * (m / 10);
      day = e - (153 * m + 2) / 5 + 1;
    }

-- The largest of the numbers on the way are a year counted from -4800, a multiple of a month, and the sum before
-- the leap days of the centuries are taken off.
unfoldable pub get_julian_day_number : ℕ → ℕ → ℕ → Option ℕ
get_julian_day_number year month day =
    let a = (14 - month) / 12 in
    let y = year + 4800 - a in
    let m = month + 12 * a - 3 in
    if fits (year + 4800)
      && (fits (153 * m + 2) && fits (day + (153 * m + 2) / 5 + y * 365 + y / 4))
    then some (day_number_in year month day)
    else none

-- And here it is four times a day number and 3.
unfoldable pub get_year_month_day : ℕ → Option YearMonthDay
get_year_month_day julian_day_number =
    if fits (4 * (julian_day_number + 32044) + 3) then some (date_in julian_day_number) else none

-- The constructors.
unfoldable pub invalid : Date
invalid = record { julian_day_number = 0 }

unfoldable pub of_year_month_day : ℕ → ℕ → ℕ → Option Date
of_year_month_day y m d = do
  n ← get_julian_day_number y m d
  some (record { julian_day_number = n })

unfoldable pub of_tm : Tm → Option Date
unfolding of_year_month_day
of_tm t = of_year_month_day (t.tm_year + 1900) (t.tm_mon + 1) t.tm_mday

unfoldable pub is_valid : Date → Bool
is_valid t = ltb 0 t.julian_day_number

unfoldable pub year_month_day : Date → Option YearMonthDay
year_month_day t = get_year_month_day t.julian_day_number

-- 0 is Sunday.
unfoldable pub week_day : Date → Option ℕ
week_day t = if fits (t.julian_day_number + 1) then some ((t.julian_day_number + 1) % 7) else none

unfoldable pub is_before : Date → Date → Bool
is_before x y = ltb x.julian_day_number y.julian_day_number

unfoldable pub is_same : Date → Date → Bool
is_same x y = x.julian_day_number == y.julian_day_number
