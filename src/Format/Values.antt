-- ===== src/Format/Values.antt =====
-- What the maps of the formatting functions put in has no percent sign.
use logger_cpp.Common.{
  ℕ, zero, suc, ◌-◌, ◌^◌, ◌*◌, ◌/◌, ◌≡◌, refl, Bool, true, false, List, [], ◌∷◌, ◌++◌, arith, Bytes,
  codes, to_string, is_digit, to_string-digits, Bool-cases, inl, inr, take, drop, ◌==◌,
  if◌then◌else◌, All, All-append, ◌||◌,
}
use logger_cpp.Kinds.{
  kind_technical, kind_action, kind_event, LogKindSet, kinds_to_string, known_names, join_names,
  test,
}
use logger_cpp.Kinds.Names.{kinds_to_string_known}
use logger_cpp.Schedule.{Time}
use logger_cpp.Records.{
  level_debug, level_info, level_warning, level_error, level_critical, level_fatal, log_level_count,
  LogLevel, LogRecord, log_level_to_string,
}
use logger_cpp.Format.{
  hour_of, minute_of, second_of, millisecond_of, two_digits, three_digits, months, date_text,
  clock_text, time_replacements, after_separator, log_replacements,
}
use logger_cpp.Format.Date.{date_of_days}
use logger_cpp.Format.Pieces.{is_plain}

plain-append : (s t : Bytes) → is_plain s ≡ true → is_plain t ≡ true → is_plain (s ++ t) ≡ true
plain-append [] t hs ht = ht
plain-append (c ∷ s) t hs ht = ground (arith, hs, plain-append s t)

plain-take : (n : ℕ) (s : Bytes) → is_plain s ≡ true → is_plain (take n s) ≡ true
plain-take zero s h = refl
plain-take (suc n) [] h = refl
plain-take (suc n) (c ∷ s) h = ground (arith, h, plain-take n s)

plain-drop : (n : ℕ) (s : Bytes) → is_plain s ≡ true → is_plain (drop n s) ≡ true
plain-drop zero s h = h
plain-drop (suc n) [] h = refl
plain-drop (suc n) (c ∷ s) h = plain-drop n s (ground (arith, h))

plain-digits : (s : Bytes) → All (λ c. is_digit c ≡ true) s → is_plain s ≡ true
plain-digits [] h = refl
plain-digits (c ∷ s) (hc, h) = ground (arith, hc, plain-digits s h)

plain-to_string : (n : ℕ) → is_plain (to_string n) ≡ true
plain-to_string n = plain-digits (to_string n) (to_string-digits n)

plain-two_digits : (n : ℕ) → is_plain (two_digits n) ≡ true
plain-two_digits n = ground (arith, plain-to_string n)

plain-three_digits : (n : ℕ) → is_plain (three_digits n) ≡ true
plain-three_digits n = ground (arith, plain-to_string n)

plain-level : (l : LogLevel) → is_plain (log_level_to_string l) ≡ true
unfolding log_level_to_string
plain-level level_debug = refl
plain-level level_info = refl
plain-level level_warning = refl
plain-level level_error = refl
plain-level level_critical = refl
plain-level level_fatal = refl
plain-level log_level_count = refl

plain-after_separator :
    (s last : Bytes)
    → is_plain s ≡ true
    → is_plain last ≡ true
    → is_plain (after_separator s last) ≡ true
unfolding after_separator
plain-after_separator [] last hs hl = hl
plain-after_separator (c ∷ s) last hs hl =
    let hs' : is_plain s ≡ true = ground (arith, hs) in
    plain-after_separator s (if c == b'/' || c == b'\\' then s else last) hs'
      (elim (Bool-cases (c == b'/' || c == b'\\')) [ inl e ↦ rw e hs' | inr e ↦ rw e hl ])

plain-join_names :
    (first : Bool) (names : List Bytes) (output : Bytes)
    → All (λ s. is_plain s ≡ true) names
    → is_plain output ≡ true
    → is_plain (join_names first names output) ≡ true
unfolding join_names
plain-join_names first [] output hn ho = ho
plain-join_names true (name ∷ names) output (h, hn) ho =
    plain-join_names false names (output ++ name) hn (plain-append output name ho h)
plain-join_names false (name ∷ names) output (h, hn) ho =
    plain-join_names false names ((output ++ codes ",") ++ name) hn
      (plain-append (output ++ codes ",") name (plain-append output (codes ",") ho refl) h)

plain-known_names : (s : LogKindSet) → All (λ n. is_plain n ≡ true) (known_names s)
unfolding known_names
plain-known_names s =
    All-append _ _ _
      (All-append _ _ _ (one (test s kind_technical) (codes "TECHNICAL") refl)
        (one (test s kind_action) (codes "ACTION") refl))
      (one (test s kind_event) (codes "EVENT") refl)
  where
    one :
        (b : Bool) (name : Bytes)
        → is_plain name ≡ true
        → All (λ n. is_plain n ≡ true) (if b then name ∷ [] else [])
    one true name h = (h, tt)
    one false name h = tt

plain-kinds : (s : LogKindSet) → is_plain (kinds_to_string s) ≡ true
plain-kinds s = rw (kinds_to_string_known s) (either (s.bits == 7))
  where
    either :
        (b : Bool) → is_plain (if b then codes "ALL" else join_names true (known_names s) []) ≡ true
    either true = refl
    either false = plain-join_names true (known_names s) [] (plain-known_names s) refl

plain-clock_text : (t : Time) → is_plain (clock_text t) ≡ true
plain-clock_text t =
    plain-append (two_digits (hour_of t))
      (b':' ∷ (two_digits (minute_of t) ++ (b':' ∷ two_digits (second_of t))))
      (plain-two_digits (hour_of t))
      (plain-append (two_digits (minute_of t)) (b':' ∷ two_digits (second_of t))
        (plain-two_digits (minute_of t)) (plain-two_digits (second_of t)))

plain-date_text : (t : Time) → is_plain (date_text t) ≡ true
plain-date_text t =
    let d = date_of_days (t / 10 ^ 9 / 86400) in
    plain-append (to_string d.year) (b'-' ∷ (two_digits d.month ++ (b'-' ∷ two_digits d.day)))
      (plain-to_string d.year)
      (plain-append (two_digits d.month) (b'-' ∷ two_digits d.day) (plain-two_digits d.month)
        (plain-two_digits d.day))

-- What `Format_time` puts in.
pub time_replacements-plain : (t : Time) → All (λ r. is_plain r.1 ≡ true) (time_replacements t)
unfolding time_replacements
time_replacements-plain t =
    let d = date_of_days (t / 10 ^ 9 / 86400) in
    let fraction = three_digits (millisecond_of t) ++ codes "0000" in
    let time = plain-append (clock_text t) (b'.' ∷ fraction) (plain-clock_text t) (
      plain-append (three_digits (millisecond_of t)) (codes "0000")
        (plain-three_digits (millisecond_of t)) refl) in
    (
      plain-append (date_text t) (b' ' ∷ clock_text t) (plain-date_text t) (plain-clock_text t),
      (
        plain-date_text t,
        (
          plain-to_string d.year,
          (
            plain-drop 2 (to_string d.year) (plain-to_string d.year),
            (
              plain-two_digits d.month,
              (
                plain-take 3 (drop ((d.month - 1) * 4) months)
                    (plain-drop ((d.month - 1) * 4) months refl),
                (
                  plain-two_digits d.day,
                  (
                    time,
                    (
                      plain-two_digits (hour_of t),
                      (
                        plain-two_digits (minute_of t),
                        (
                          plain-two_digits (second_of t),
                          (plain-three_digits (millisecond_of t), tt),
                        ),
                      ),
                    ),
                  ),
                ),
              ),
            ),
          ),
        ),
      ),
    )

-- The texts of a record that the code takes as they are.
abbrev pub texts_of : LogRecord → List Bytes
texts_of r = r.module_name ∷ r.source.file_name ∷ r.source_entity ∷ r.message ∷ []

-- What `Format_log_message` puts in.
pub log_replacements-plain :
    (r : LogRecord)
    → All (λ s. is_plain s ≡ true) (texts_of r)
    → All (λ e. is_plain e.1 ≡ true) (log_replacements r)
unfolding log_replacements
log_replacements-plain r (hm, (hf, (he, (hl, _)))) =
    let source = plain-after_separator r.source.file_name r.source.file_name hf hf in
    let line = plain-to_string r.source.line in
    (plain-level r.level, (plain-kinds r.kinds, (hm, (source, (line, (he, (hl, tt)))))))
