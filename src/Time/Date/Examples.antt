-- ===== src/Time/Date/Examples.antt =====
-- Dates.
use hohnor.Prelude.{ℕ, ◌+◌, ◌%◌, ◌≡◌, refl, arith, some, none}
use hohnor.Time.Date.{
  YearMonthDay, of_year_month_day, of_tm, year_month_day, week_day, get_julian_day_number,
  get_year_month_day, day_number_in, date_in,
}
use hohnor.Time.Date.Calendar.{next_day, days_after}
use hohnor.Time.Date.Days.{year_month_day-days_after}

epoch : get_julian_day_number 1970 1 1 ≡ some 2440588
unfolding get_julian_day_number day_number_in
epoch = refl

epoch_is_thursday : week_day (record { julian_day_number = 2440588 }) ≡ some 4
unfolding week_day
epoch_is_thursday = refl

of_tm_leap_day :
    of_tm (record { tm_year = 100; tm_mon = 1; tm_mday = 29 })
    ≡ some (record { julian_day_number = 2451604 })
unfolding of_tm of_year_month_day get_julian_day_number day_number_in
of_tm_leap_day = refl

leap_day :
    year_month_day (record { julian_day_number = 2451604 })
    ≡ some (record { year = 2000; month = 2; day = 29 })
unfolding year_month_day get_year_month_day date_in
leap_day = refl

-- Beyond the years of the theorem.
overflow : get_year_month_day 536838868 ≡ none
unfolding get_year_month_day
overflow = refl

abbrev end_of_february : YearMonthDay
end_of_february = record { year = 2100; month = 2; day = 28 }

after_end_of_february : days_after end_of_february 2 ≡ record { year = 2100; month = 3; day = 2 }
unfolding days_after next_day
after_end_of_february = refl

year_month_day-days_after_example :
    (d : ℕ) × (w : ℕ) × (of_year_month_day 2100 2 28 ≡ some (record { julian_day_number = d }))
    × (week_day (record { julian_day_number = d }) ≡ some w)
    × (year_month_day (record { julian_day_number = d + 2 }) ≡ some (days_after end_of_february 2))
    × (of_year_month_day
          (days_after end_of_february 2).year
          (days_after end_of_february 2).month
          (days_after end_of_february 2).day
        ≡ some (record { julian_day_number = d + 2 }))
    × (week_day (record { julian_day_number = d + 2 }) ≡ some ((w + 2) % 7))
year_month_day-days_after_example =
    year_month_day-days_after end_of_february 2
      (record {
        day_of_month = (omega arith, omega arith);
        month_of_year = (omega arith, omega arith);
      })
      (omega arith) (rw after_end_of_february (omega arith))
