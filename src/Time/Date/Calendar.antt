-- ===== src/Time/Date/Calendar.antt =====
-- The Gregorian calendar, against which the day numbers of Date.cpp are judged.
use hohnor.Prelude.{ℕ, zero, suc, ◌+◌, ◌%◌, ◌≤◌, Bool, not, ◌&&◌, ◌||◌, ◌==◌, ltb, if◌then◌else◌}
use hohnor.Time.Date.{YearMonthDay}

abbrev pub is_leap : ℕ → Bool
is_leap y = y % 4 == 0 && (not (y % 100 == 0) || y % 400 == 0)

abbrev pub days_in_month : ℕ → ℕ → ℕ
days_in_month y m =
    if m == 2
    then (if is_leap y then 29 else 28)
    else if m == 4 || m == 6 || m == 9 || m == 11
    then 30
    else 31

-- A day that the calendar has.
pub record IsDay (t : YearMonthDay) : Type 0 where
  pub day_of_month : (1 ≤ t.day) × (t.day ≤ days_in_month t.year t.month)
  pub month_of_year : (1 ≤ t.month) × (t.month ≤ 12)

unfoldable pub next_day : YearMonthDay → YearMonthDay
next_day t =
    if ltb t.day (days_in_month t.year t.month)
    then record t { day = t.day + 1 }
    else if ltb t.month 12
    then record t { month = t.month + 1; day = 1 }
    else record { year = t.year + 1; month = 1; day = 1 }

unfoldable pub days_after : YearMonthDay → ℕ → YearMonthDay
days_after t zero = t
days_after t (suc n) = next_day (days_after t n)
