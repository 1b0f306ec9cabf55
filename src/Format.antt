-- ===== src/Format.antt =====
-- The text of a record: `Format_log_message` and `Format_time` of `Target`
-- (Source/SharedLibraries/CommonTools/Logger.cpp). A `std::unordered_map` is the list of its pairs, and
-- `visit` stands for the order in which the iteration goes through them, which the language leaves open.
pub mod Date
pub mod Pieces
pub mod Filling
pub mod Messages
pub mod Values
use logger_cpp.Common.{
  ℕ, suc, ◌+◌, ◌-◌, ◌*◌, ◌/◌, ◌%◌, ◌^◌, Bool, ◌||◌, List, [], ◌∷◌, ◌++◌, Option, none, some, Bytes,
  codes, to_string, take, drop, length, ◌==◌, ltb, if◌then◌else◌,
}
use logger_cpp.StringHelpers.{find, replace}
use logger_cpp.Kinds.{kinds_to_string}
use logger_cpp.Schedule.{Time}
use logger_cpp.Records.{LogRecord, log_level_to_string}
use Date.{date_of_days}

-- A key of a format and the text that stands for it.
abbrev pub Replacement : Type 0
Replacement = Bytes × Bytes

-- The body of the loops: only the first occurrence of a key is replaced.
unfoldable pub replace_first : Bytes → Bytes → Bytes → Bytes
unfolding find replace
replace_first key value s = elim (find key s) [
  | none ↦ s
  | some pos ↦ replace s pos (length key) value
]

unfoldable pub replace_each : List Replacement → Bytes → Bytes
unfolding replace_first
replace_each [] s = s
replace_each ((key, value) ∷ rest) s = replace_each rest (replace_first key value s)

-- A number with at least two digits, and with at least three.
abbrev pub two_digits : ℕ → Bytes
two_digits n = if ltb n 10 then b'0' ∷ to_string n else to_string n

abbrev pub three_digits : ℕ → Bytes
three_digits n =
    if ltb n 100
    then if ltb n 10 then b'0' ∷ (b'0' ∷ to_string n) else b'0' ∷ to_string n
    else to_string n

abbrev pub months : Bytes
months = codes "Jan Feb Mar Apr May Jun Jul Aug Sep Oct Nov Dec"

abbrev pub date_text : Time → Bytes
date_text time =
    let d = date_of_days (time / 10 ^ 9 / 86400) in
    to_string d.year ++ (b'-' ∷ (two_digits d.month ++ (b'-' ∷ two_digits d.day)))

abbrev pub hour_of : Time → ℕ
hour_of time = time / 10 ^ 9 / 3600 % 24

abbrev pub minute_of : Time → ℕ
minute_of time = time / 10 ^ 9 / 60 % 60

abbrev pub second_of : Time → ℕ
second_of time = time / 10 ^ 9 % 60

abbrev pub millisecond_of : Time → ℕ
millisecond_of time = time / 10 ^ 6 % 1000

abbrev pub clock_text : Time → Bytes
clock_text time =
    two_digits (hour_of time)
    ++ (b':' ∷ (two_digits (minute_of time) ++ (b':' ∷ two_digits (second_of time))))

-- The map of `Format_time`.
unfoldable pub time_replacements : Time → List Replacement
time_replacements time =
    let d = date_of_days (time / 10 ^ 9 / 86400) in
    let fraction = three_digits (millisecond_of time) ++ codes "0000" in
    (codes "%%datatime", date_text time ++ (b' ' ∷ clock_text time))
    ∷ (codes "%%date", date_text time)
    ∷ (codes "%%year", to_string d.year)
    ∷ (codes "%%yr", drop 2 (to_string d.year))
    ∷ (codes "%%month", two_digits d.month)
    ∷ (codes "%%monstr", take 3 (drop ((d.month - 1) * 4) months))
    ∷ (codes "%%day", two_digits d.day)
    ∷ (codes "%%time", clock_text time ++ (b'.' ∷ fraction))
    ∷ (codes "%%hour", two_digits (hour_of time))
    ∷ (codes "%%min", two_digits (minute_of time))
    ∷ (codes "%%sec", two_digits (second_of time))
    ∷ (codes "%%ms", three_digits (millisecond_of time))
    ∷ []

-- `fullpath.find_last_of("/\\")` and what follows it: the text after the last separator so far.
unfoldable pub after_separator : Bytes → Bytes → Bytes
after_separator [] last = last
after_separator (c ∷ s) last = after_separator s (if c == b'/' || c == b'\\' then s else last)

-- The map of `Format_log_message`.
unfoldable pub log_replacements : LogRecord → List Replacement
unfolding after_separator
log_replacements r =
    (codes "%%level", log_level_to_string r.level)
    ∷ (codes "%%kinds", kinds_to_string r.kinds)
    ∷ (codes "%%module", r.module_name)
    ∷ (codes "%%source", after_separator r.source.file_name r.source.file_name)
    ∷ (codes "%%line", to_string r.source.line)
    ∷ (codes "%%entity", r.source_entity)
    ∷ (codes "%%log", r.message)
    ∷ []

module _ (visit : List Replacement → List Replacement) where
  unfoldable pub format_time : Bytes → Time → Bytes
  unfolding replace_each time_replacements
  format_time s time = replace_each (visit (time_replacements time)) s

  -- From the format that `Modify_format_on_the_fly` leaves.
  unfoldable pub format_log_message : Bytes → LogRecord → Bytes
  unfolding replace_each log_replacements format_time
  format_log_message format r =
      format_time (replace_each (visit (log_replacements r)) format) r.timestamp
