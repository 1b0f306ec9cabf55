-- ===== src/Format/Date/Calendar.antt =====
-- The date of a day against the closed formula for the number of a day.
use logger_cpp.Common.{ℕ, zero, suc, ◌+◌, ◌-◌, ◌*◌, ◌/◌, ◌≤◌, ◌≡◌}
use logger_cpp.Format.Date.{CalendarDate, month_length}

-- Leap days up to the end of a year, and the days from 1970 to the start of a later year.
abbrev leap_days : ℕ → ℕ
leap_days year = year / 4 + year / 400 - year / 100

abbrev pub days_before_year : ℕ → ℕ
days_before_year year = 365 * (year - 1970) + (leap_days (year - 1) - 477)

-- The days from the start of a year to that of a month.
abbrev pub days_before_month : ℕ → ℕ → ℕ
days_before_month year zero = 0
days_before_month year (suc zero) = 0
days_before_month year (suc (suc month)) =
    days_before_month year (suc month) + month_length year (suc month)

IsDate : ℕ → CalendarDate → Type 0
IsDate days d =
    (days_before_year d.year + (days_before_month d.year d.month + (d.day - 1)) ≡ days)
    × (1 ≤ d.month)
    × (d.month ≤ 12)
    × (1 ≤ d.day)
    × (d.day ≤ month_length d.year d.month)
