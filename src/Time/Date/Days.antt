-- ===== src/Time/Date/Days.antt =====
-- Day numbers of Date.cpp and days of the calendar are the same thing, from year 0 on.
use hohnor.Prelude.{
  ℕ, zero, suc, ◌+◌, ◌-◌, ◌*◌, ◌/◌, ◌%◌, ◌≤◌, ◌<◌, ◌≡◌, refl, arith, ◌∙◌, ℕ_discrete, ◌≢◌, if_elim,
  ltb, ltb→lt, lt→ltb, subst, ap, ◌^◌, true, some,
}
use hohnor.Time.Date.{
  YearMonthDay, day_number_in, date_in, of_year_month_day, year_month_day, week_day, fits,
  get_julian_day_number, get_year_month_day,
}
use hohnor.Time.Date.Calendar.{IsDay, days_in_month, next_day, days_after}
use hohnor.Time.Date.Split.{
  IsDayOfYear, day_count, century, in_century, year_in_century, day_in_year, of_century,
}

abbrev march_year : YearMonthDay → ℕ
march_year t = t.year + 4800 - (14 - t.month) / 12

abbrev march_month : ℕ → ℕ
march_month m = m + 12 * ((14 - m) / 12) - 3

abbrev march_day : YearMonthDay → ℕ
march_day t = t.day - 1 + (153 * march_month t.month + 2) / 5

march_day-IsDayOfYear : (t : YearMonthDay) → IsDay t → IsDayOfYear (march_year t) (march_day t)
march_day-IsDayOfYear t v = ground arith

day_number_in-day_count :
    (t : YearMonthDay)
    → IsDay t
    → day_number_in t.year t.month t.day + 32044 ≡ day_count (march_year t) (march_day t)
unfolding day_number_in
day_number_in-day_count t v = omega (arith, v.month_of_year.0, v.month_of_year.1, v.day_of_month.0)

-- What `getYearMonthDay` computes from the year and day that begin in March.
of_march : ℕ → ℕ → YearMonthDay
of_march y e =
    let m = (5 * e + 2) / 153 in
    record {
      year = y - 4800 + m / 10;
      month = m + 3 - 12 * (m / 10);
      day = e - (153 * m + 2) / 5 + 1;
    }

of_march_lem : (t : YearMonthDay) → IsDay t → 1 ≤ t.year → of_march (march_year t) (march_day t) ≡ t
unfolding of_march
of_march_lem t v y = ground arith

date_in-of_march :
    (n y e : ℕ) → IsDayOfYear y e → n + 32044 ≡ day_count y e → date_in n ≡ of_march y e
unfolding date_in of_march
date_in-of_march n y e v k =
    rw (k, century y e v, in_century y e v, year_in_century y e v, day_in_year y e, of_century y)
      refl

-- The number of a day of the calendar, of year 1 or later, gives back its year, month and day.
date_in-day_number_in :
    (t : YearMonthDay) → IsDay t → 1 ≤ t.year → date_in (day_number_in t.year t.month t.day) ≡ t
date_in-day_number_in t v y =
    date_in-of_march _ (march_year t) (march_day t) (march_day-IsDayOfYear t v)
      (day_number_in-day_count t v)
    ∙ of_march_lem t v y

next_day-IsDay : (t : YearMonthDay) → IsDay t → IsDay (next_day t)
unfolding next_day
next_day-IsDay t v = ground arith

module _ (y m : ℕ) (lo : 1 ≤ m) where
  next_in_month : (d : ℕ) → m ≤ 12 → 1 ≤ d → day_number_in y m (d + 1) ≡ day_number_in y m d + 1
  unfolding day_number_in
  next_in_month d hi h = omega arith

month_length :
    (y m : ℕ)
    → 1 ≤ m
    → m < 12
    → m ≢ 2
    → days_in_month y m + (153 * march_month m + 2) / 5 ≡ (153 * march_month (m + 1) + 2) / 5
month_length y m lo hi ne = ground arith

after_february : (y : ℕ) → day_number_in y 3 1 ≡ day_number_in y 2 (days_in_month y 2) + 1
unfolding day_number_in
after_february y = ground arith

next_in_year :
    (y m : ℕ)
    → 1 ≤ m
    → m < 12
    → day_number_in y (m + 1) 1 ≡ day_number_in y m (days_in_month y m) + 1
next_in_year y m lo hi = elim (ℕ_discrete m 2) [
  | yes e ↦ rw e (after_february y)
  | no ne ↦ unfold day_number_in in omega (arith, month_length y m lo hi ne)
]

next_year : (y : ℕ) → day_number_in (y + 1) 1 1 ≡ day_number_in y 12 31 + 1
unfolding day_number_in
next_year y = omega arith

abbrev day_number : YearMonthDay → ℕ
day_number t = day_number_in t.year t.month t.day

day_number-next_day : (t : YearMonthDay) → IsDay t → day_number (next_day t) ≡ day_number t + 1
unfolding next_day
day_number-next_day t v =
    if_elim (λ u. day_number u ≡ day_number t + 1) (ltb t.day (days_in_month t.year t.month))
      (λ _. next_in_month t.year t.month v.month_of_year.0 t.day v.month_of_year.1 v.day_of_month.0)
      λ last.
        let d : t.day ≡ days_in_month t.year t.month = ground (arith, v.day_of_month) in
        if_elim (λ u. day_number u ≡ day_number t + 1) (ltb t.month 12)
          (λ m. rw d (next_in_year t.year t.month v.month_of_year.0 (ltb→lt _ _ m)))
          λ m.
            let twelve : t.month ≡ 12 = ground (arith, v.month_of_year) in
            rw (d, twelve) (next_year t.year)

next_day-year : (t : YearMonthDay) → t.year ≤ (next_day t).year
unfolding next_day
next_day-year t = ground arith

days_after-IsDay :
    (t : YearMonthDay) (n : ℕ)
    → IsDay t
    → IsDay (days_after t n)
      × (t.year ≤ (days_after t n).year)
      × (day_number (days_after t n) ≡ day_number t + n)
unfolding days_after
days_after-IsDay t zero v = (v, omega arith, omega arith)
days_after-IsDay t (suc n) v =
    let (w, z, e) = days_after-IsDay t n v in
    (
      next_day-IsDay _ w,
      omega (arith, z, next_day-year (days_after t n)),
      omega (arith, day_number-next_day (days_after t n) w, e),
    )

-- Up to year 1465000 an `int` holds all the numbers on the way.
abbrev pub last_year : ℕ
last_year = 1465000

module _ (t : YearMonthDay) (v : IsDay t) (y : 1 ≤ t.year) (b : t.year ≤ last_year) where
  day_number-bound : 4 * (day_number t + 32044) + 3 < 2 ^ 31
  day_number-bound =
      omega (arith, get_day_count, b, v.month_of_year.0, v.month_of_year.1, day_in_range)
    where
      get_day_count : day_number t + 32044 ≡ day_count (march_year t) (march_day t)
      get_day_count = day_number_in-day_count t v

      day_in_range : march_day t < 366
      day_in_range = ground arith

  get_julian_day_number-some : get_julian_day_number t.year t.month t.day ≡ some (day_number t)
  unfolding get_julian_day_number
  get_julian_day_number-some = rw (holds, holds', holds'') refl
    where
      length_of_month : t.day ≤ 31
      length_of_month = ground arith

      holds : fits (t.year + 4800) ≡ true
      holds = ground (arith, b)

      holds' : fits (153 * march_month t.month + 2) ≡ true
      holds' = ground (arith, v.month_of_year)

      holds'' :
          fits (t.day + (153 * march_month t.month + 2) / 5 + march_year t * 365 + march_year t / 4)
          ≡ true
      holds'' = ground (arith, b, v.month_of_year, length_of_month)

  get_year_month_day-some : get_year_month_day (day_number t) ≡ some t
  unfolding get_year_month_day
  get_year_month_day-some =
      let h : fits (4 * (day_number t + 32044) + 3) ≡ true = lt→ltb _ _ day_number-bound in
      rw h (ap some (date_in-day_number_in t v y))

  week_day-some :
      week_day (record { julian_day_number = day_number t }) ≡ some ((day_number t + 1) % 7)
  unfolding week_day
  week_day-some =
      let h : fits (day_number t + 1) ≡ true = lt→ltb _ _ (omega (arith, day_number-bound)) in
      rw h refl

-- From any day of the calendar of year 1 or later on, as long as the year is not above 1465000, so that no `int`
-- overflows: the number of the day, raised by `n`, is the number of the day that the calendar has `n` days later,
-- both ways, and it is that many days on in the week.
pub year_month_day-days_after :
    (t : YearMonthDay) (n : ℕ)
    → IsDay t
    → 1 ≤ t.year
    → (days_after t n).year ≤ last_year
    → (d : ℕ) × (w : ℕ) × (of_year_month_day t.year t.month t.day
        ≡ some (record { julian_day_number = d }))
      × (week_day (record { julian_day_number = d }) ≡ some w)
      × (year_month_day (record { julian_day_number = d + n }) ≡ some (days_after t n))
      × (of_year_month_day (days_after t n).year (days_after t n).month (days_after t n).day
          ≡ some (record { julian_day_number = d + n }))
      × (week_day (record { julian_day_number = d + n }) ≡ some ((w + n) % 7))
unfolding of_year_month_day year_month_day
year_month_day-days_after t n v y b =
    let (u, z, e) = days_after-IsDay t n v in
    let s = days_after t n in
    let y' : 1 ≤ s.year = omega (arith, y, z) in
    let b' : t.year ≤ last_year = omega (arith, b, z) in
    (
      day_number t,
      (day_number t + 1) % 7,
      rw (get_julian_day_number-some t v y b') refl,
      week_day-some t v y b',
      subst (λ k. get_year_month_day k ≡ some s) e (get_year_month_day-some s u y' b),
      rw (get_julian_day_number-some s u y' b)
          (ap (λ k. some (record { julian_day_number = k })) e),
      subst
          (λ k.
            week_day (record { julian_day_number = k }) ≡ some (((day_number t + 1) % 7 + n) % 7))
          e (week_day-some s u y' b ∙ ap some (omega (arith, e))),
    )
