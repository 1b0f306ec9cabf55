-- ===== src/Schedule.antt =====
-- Source/SharedLibraries/CommonTools/ScheduleUtils.cpp and include/ScheduleUtils.h: `TimeInterval`, the
-- grid of times that lie a whole number of intervals apart..
-- A time point is a number of nanoseconds since the epoch, the tick of `system_clock`; results that
-- the code computes in whole seconds are signed, since a grid point may lie before the epoch.
pub mod Grid
pub mod Caller
use logger_cpp.Common.{
  ℕ, ◌+◌, ◌*◌, ◌/◌, ◌%◌, ◌-◌, ◌^◌, Bool, Option, none, some, ◌==◌, ltb, if◌then◌else◌, ◌≡◌, refl,
}
use logger_cpp.Common.Int.{ℤ, pos, negsuc, pos_part, neg_part, sub_ℕ, ◌+ℤ◌, ◌-ℤ◌, ltb_ℤ}

abbrev pub Time : Type 0
Time = ℕ

abbrev pub nanoseconds : ℕ
nanoseconds = 10 ^ 9

-- `system_clock::to_time_t`.
abbrev pub to_time_t : Time → ℕ
to_time_t time = time / nanoseconds

-- `_interval` and `_offset` are in seconds.
pub record TimeInterval : Type 0 where
  pub time : Time
  pub interval : ℕ
  pub offset : ℕ

-- The constructors; the clock is read by the caller.
abbrev pub new_interval : ℕ → Time → TimeInterval
new_interval interval now = record { time = now; interval = interval; offset = 0 }

abbrev pub new_interval_with : ℕ → ℕ → Time → TimeInterval
new_interval_with interval offset time = record {
  time = time;
  interval = interval;
  offset = offset;
}

-- `Set_time`, and `Set_time_to_now` with the clock's value.
unfoldable pub set_time : TimeInterval → Time → TimeInterval
set_time t time = record t { time = time }

pub data OffsetError : Type 0 where
  offset_not_below_interval offset_negative : OffsetError

pub data OffsetResult : Type 0 where
  offset_set : TimeInterval → OffsetResult
  offset_refused : OffsetError → OffsetResult

-- `Set_offset` takes minutes, and compares them with the interval as durations.
unfoldable pub set_offset : TimeInterval → ℤ → OffsetResult
set_offset t (pos minutes) =
    if ltb (minutes * 60) t.interval
    then offset_set (record t { offset = minutes * 60 })
    else offset_refused offset_not_below_interval
set_offset t (negsuc minutes) = offset_refused offset_negative

-- `Get_current_timestamp`, in seconds; `none` stands for the division by an interval of 0.
unfoldable pub current_timestamp : TimeInterval → Option ℤ
current_timestamp i =
    let t = to_time_t i.time in
    let value = i.interval in
    let timestamp = t - t % value in
    let offseted = timestamp + i.offset in
    if value == 0
    then none
    else if ltb t offseted
    then some (sub_ℕ offseted value)
    else some (pos offseted)

-- `Get_next_timestamp`, in seconds.
unfoldable pub next_timestamp : TimeInterval → Option ℤ
next_timestamp i = elim (current_timestamp i) [
  | none ↦ none
  | some previous ↦ some (previous +ℤ pos i.interval)
]

-- `Get_milliseconds_until_next_timestamp`.
unfoldable pub milliseconds_until_next : TimeInterval → Option ℤ
milliseconds_until_next i = elim (next_timestamp i) [
  | none ↦ none
  | some next ↦
      let difference = next -ℤ pos (to_time_t i.time) in
      some (sub_ℕ (pos_part difference * 1000) (neg_part difference * 1000))
]

-- 9:47 pm rounds down to 9:45 pm on a grid of five minutes.
quarter_to_ten : current_timestamp (new_interval 300 (78420 * nanoseconds)) ≡ some (pos 78300)
unfolding current_timestamp
quarter_to_ten = refl
