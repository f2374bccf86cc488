-- ===== src/Time/Date/Split.antt =====
-- The day numbers of Date.cpp count from March 1st of a year: how `getYearMonthDay` finds the century, the
-- year and the day again.
use hohnor.Prelude.{ℕ, ◌+◌, ◌-◌, ◌*◌, ◌/◌, ◌%◌, ◌≤◌, ◌<◌, ◌≡◌, ◌⊎◌, arith}

-- Day `e` of the year that begins in March of year `y`, from 0; the last one if the next year is a leap year.
pub record IsDayOfYear (y e : ℕ) : Type 0 where
  pub at_most : e ≤ 365
  pub leap_day : (e < 365) ⊎ (((y + 1) % 4 ≡ 0) × ((y % 100 < 99) ⊎ ((y + 1) % 400 ≡ 0)))

abbrev pub day_count : ℕ → ℕ → ℕ
day_count y e = e + y * 365 + y / 4 - y / 100 + y / 400

module _ (y e : ℕ) (v : IsDayOfYear y e) where
  pub century : (4 * day_count y e + 3) / 146097 ≡ y / 100
  century = omega arith

  pub in_century : day_count y e - y / 100 * 146097 / 4 ≡ y % 100 * 365 + y % 100 / 4 + e
  in_century = omega arith

  pub year_in_century : (4 * (y % 100 * 365 + y % 100 / 4 + e) + 3) / 1461 ≡ y % 100
  year_in_century = omega arith

pub day_in_year : (y e : ℕ) → y % 100 * 365 + y % 100 / 4 + e - 1461 * (y % 100) / 4 ≡ e
day_in_year y e = omega arith

pub of_century : (y : ℕ) → y / 100 * 100 + y % 100 ≡ y
of_century y = omega arith
