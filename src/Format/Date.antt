-- ===== src/Format/Date.antt =====
-- `std::chrono::year_month_day` of a number of days since the epoch, as `Format_time` of
-- Source/SharedLibraries/CommonTools/Logger.cpp uses it: the Gregorian calendar from 1970 on.
pub mod Calendar
use logger_cpp.Common.{
  ℕ, zero, suc, ◌+◌, ◌-◌, ◌%◌, Bool, true, false, not, ◌&&◌, ◌||◌, ◌==◌, ltb, if◌then◌else◌, ◌≡◌,
  refl,
}

pub record CalendarDate : Type 0 where
  pub year : ℕ
  pub month : ℕ
  pub day : ℕ

abbrev pub is_leap : ℕ → Bool
is_leap year = year % 4 == 0 && (not (year % 100 == 0) || year % 400 == 0)

abbrev pub year_length : ℕ → ℕ
year_length year = if is_leap year then 366 else 365

abbrev pub february_length : ℕ → ℕ
february_length year = if is_leap year then 29 else 28

abbrev pub month_length : ℕ → ℕ → ℕ
month_length year month =
    if month == 2
    then february_length year
    else if month == 4 || (month == 6 || (month == 9 || month == 11))
    then 30
    else 31

-- From a year and the days since its start: the year and the day of it, counted from 0.
unfoldable pub find_year : (fuel year days : ℕ) → ℕ × ℕ
find_year zero year days = (year, days)
find_year (suc fuel) year days =
    let rest = find_year fuel (suc year) (days - year_length year) in
    if ltb days (year_length year) then (year, days) else rest

-- From a month and the days since its start, in a year; `fuel` is the number of the months after it.
unfoldable pub find_month : (fuel year month days : ℕ) → ℕ × ℕ
find_month zero year month days = (month, days)
find_month (suc fuel) year month days =
    let rest = find_month fuel year (suc month) (days - month_length year month) in
    if ltb days (month_length year month) then (month, days) else rest

-- A year has at least a day, so the number of days is fuel enough.
unfoldable pub date_of_days : ℕ → CalendarDate
unfolding find_year find_month
date_of_days days =
    let (year, day_of_year) = find_year days 1970 days in
    let (month, day) = find_month 11 year 1 day_of_year in
    record { year = year; month = month; day = suc day }

leap_day : date_of_days 11016 ≡ record { year = 2000; month = 2; day = 29 }
unfolding date_of_days
leap_day = refl
