-- ===== src/Examples/Format.antt =====
-- A record in the format that targets have from the start.
use logger_cpp.Common.{to_string, ◌≡◌, refl, List, [], ◌∷◌, map, codes}
use logger_cpp.Kinds.{
  of_bits, kinds_to_string, all, test, known_names, no_unknowns, count, join_names,
}
use logger_cpp.StringHelpers.{find, starts_with, replace}
use logger_cpp.Records.{LogRecord, level_warning, log_level_to_string}
use logger_cpp.Format.{
  Replacement, format_log_message, format_time, time_replacements, log_replacements, replace_first,
  after_separator,
}
use logger_cpp.Format.Date.{date_of_days}
use logger_cpp.Format.Pieces.{Piece, literal, keyed, render, fill}
use logger_cpp.Format.Messages.{format_time-render, format_log_message-render, Visits}

abbrev parts_of_format : List Piece
parts_of_format =
    keyed (codes "%%monstr")
    ∷ literal (codes " ")
    ∷ keyed (codes "%%day")
    ∷ literal (codes " ")
    ∷ keyed (codes "%%hour")
    ∷ literal (codes ":")
    ∷ keyed (codes "%%min")
    ∷ literal (codes ":")
    ∷ keyed (codes "%%sec")
    ∷ literal (codes ".")
    ∷ keyed (codes "%%ms")
    ∷ literal (codes " [")
    ∷ keyed (codes "%%source")
    ∷ literal (codes ":")
    ∷ keyed (codes "%%line")
    ∷ literal (codes "] [")
    ∷ keyed (codes "%%level")
    ∷ literal (codes ":")
    ∷ keyed (codes "%%kinds")
    ∷ literal (codes "] [")
    ∷ keyed (codes "%%module")
    ∷ literal (codes ":")
    ∷ keyed (codes "%%entity")
    ∷ literal (codes "] ")
    ∷ keyed (codes "%%log")
    ∷ []

-- The day is 2000-02-29, in nanoseconds.
abbrev slow_record : LogRecord
slow_record = record {
  level = level_warning;
  kinds = of_bits 5;
  module_name = codes "app";
  source = record { file_address = 4; file_name = codes "src/main.cpp"; line = 12 };
  source_entity = codes "links";
  message = codes "slow";
  timestamp = 951785045006000000;
}

as_listed : List Replacement → List Replacement
as_listed rs = rs

as_listed-Visits : Visits as_listed
unfolding as_listed
as_listed-Visits rs r = (λ m. m, λ m. m)

slow_text :
    format_log_message as_listed (render parts_of_format) slow_record
    ≡ codes "Feb 29 00:44:05.006 [main.cpp:12] [WARNING:TECHNICAL,EVENT] [app:links] slow"
unfolding as_listed format_log_message replace_first find starts_with replace to_string date_of_days
    log_level_to_string kinds_to_string all test known_names no_unknowns count join_names
    after_separator
slow_text = refl

-- A key in the message is taken for a key of the format.
key_in_message :
    format_log_message as_listed (codes "%%log") (record slow_record { message = codes "at %%min" })
    ≡ codes "at 44"
unfolding as_listed format_log_message replace_first find starts_with replace to_string date_of_days
    log_level_to_string kinds_to_string all test known_names no_unknowns count join_names
    after_separator
key_in_message = refl

format_log_message-render_example :
    format_log_message as_listed (render parts_of_format) slow_record
    ≡ render (
        map
          (fill (time_replacements slow_record.timestamp))
          (map (fill (log_replacements slow_record)) parts_of_format))
format_log_message-render_example =
    format_log_message-render as_listed parts_of_format slow_record as_listed-Visits refl refl
      (refl, (refl, (refl, (refl, tt))))

format_time-render_example :
    format_time as_listed (render parts_of_format) 951785045006000000
    ≡ render (map (fill (time_replacements 951785045006000000)) parts_of_format)
format_time-render_example =
    format_time-render as_listed parts_of_format 951785045006000000 as_listed-Visits refl
