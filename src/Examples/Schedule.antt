-- ===== src/Examples/Schedule.antt =====
-- Five minutes with an offset of one, at 9:47 pm on the first day.
use logger_cpp.Common.{ℕ, ◌≡◌, some, arith, ◌+◌, ◌*◌, ◌≤◌, ◌<◌}
use logger_cpp.Common.Int.{ℤ, pos, ◌+ℤ◌, ◌≤ℤ◌, ◌<ℤ◌, pos_part, neg_part}
use logger_cpp.Schedule.{
  TimeInterval, nanoseconds, new_interval_with, current_timestamp, next_timestamp,
  milliseconds_until_next,
}
use logger_cpp.Schedule.Grid.{OnGrid, timestamps_around, milliseconds_reach_next}

abbrev five_minutes : TimeInterval
five_minutes = new_interval_with 300 60 (78420 * nanoseconds)

timestamps_around_example :
    (s : ℤ) × (current_timestamp five_minutes ≡ some s)
    × (next_timestamp five_minutes ≡ some (s +ℤ pos 300))
    × OnGrid five_minutes s
    × (s ≤ℤ pos 78420)
    × (pos 78420 <ℤ s +ℤ pos 300)
timestamps_around_example = timestamps_around five_minutes (omega arith)

milliseconds_reach_next_example :
    (next : ℤ) × (ms : ℕ) × (next_timestamp five_minutes ≡ some next)
    × (milliseconds_until_next five_minutes ≡ some (pos ms))
    × (pos_part next * 1000 ≡ neg_part next * 1000 + (78420 * 1000 + ms))
    × (0 < ms)
    × (ms ≤ 300 * 1000)
milliseconds_reach_next_example = milliseconds_reach_next five_minutes (omega arith)
