-- ===== src/Format/Messages.antt =====
-- `Format_time` and `Format_log_message` on formats of keys and plain text.
use logger_cpp.Common.{
  some, ◌≡◌, refl, ap, sym, ◌∙◌, Bool, true, ◌&&◌, List, [], ◌∷◌, map, arith, Bytes, codes, inl,
  inr, ◌↔◌, All, subst,
}
use logger_cpp.Common.Sets.{In}
use logger_cpp.Schedule.{Time}
use logger_cpp.Records.{LogRecord}
use logger_cpp.Format.{
  Replacement, time_replacements, log_replacements, format_time, format_log_message,
}
use logger_cpp.Format.Pieces.{Piece, render, lookup, fill, is_plain, fits}
use logger_cpp.Format.Filling.{IsMap, IsReady, replace_each-visited, fits-fill}
use logger_cpp.Format.Values.{time_replacements-plain, log_replacements-plain, texts_of}

abbrev pub time_keys : List Bytes
time_keys =
    codes "%%datatime"
    ∷ codes "%%date"
    ∷ codes "%%year"
    ∷ codes "%%yr"
    ∷ codes "%%month"
    ∷ codes "%%monstr"
    ∷ codes "%%day"
    ∷ codes "%%time"
    ∷ codes "%%hour"
    ∷ codes "%%min"
    ∷ codes "%%sec"
    ∷ codes "%%ms"
    ∷ []

abbrev pub log_keys : List Bytes
log_keys =
    codes "%%level"
    ∷ codes "%%kinds"
    ∷ codes "%%module"
    ∷ codes "%%source"
    ∷ codes "%%line"
    ∷ codes "%%entity"
    ∷ codes "%%log"
    ∷ []

-- Every key of the list fits the format.
abbrev pub all_fit : List Bytes → List Piece → Bool
all_fit [] ps = true
all_fit (k ∷ ks) ps = fits k ps && all_fit ks ps

all_fit-All :
    (ks : List Bytes) (ps : List Piece) → all_fit ks ps ≡ true → All (λ k. fits k ps ≡ true) ks
all_fit-All [] ps h = tt
all_fit-All (k ∷ ks) ps h = (ground (arith, h), all_fit-All ks ps (ground (arith, h)))

All-In : {A : Type 0} (P : A → Type 0) (xs : List A) (a : A) → All P xs → In a xs → P a
All-In P [] a h m = absurd m
All-In P (x ∷ xs) a (px, h) (inl e) = subst P (sym e) px
All-In P (x ∷ xs) a (px, h) (inr m) = All-In P xs a h m

time_replacements-IsMap : (t : Time) → IsMap (time_replacements t)
unfolding time_replacements lookup
time_replacements-IsMap t r =
    All-In (λ (e : Replacement). lookup e.0 (time_replacements t) ≡ some e.1) (time_replacements t)
      r
      (
        refl,
        (refl, (refl, (refl, (refl, (refl, (refl, (refl, (refl, (refl, (refl, (refl, tt))))))))))),
      )

log_replacements-IsMap : (r : LogRecord) → IsMap (log_replacements r)
unfolding log_replacements lookup
log_replacements-IsMap r e =
    All-In (λ (e : Replacement). lookup e.0 (log_replacements r) ≡ some e.1) (log_replacements r) e
      (refl, (refl, (refl, (refl, (refl, (refl, (refl, tt)))))))

IsReady-of_All :
    (rs : List Replacement) (ps : List Piece)
    → All (λ r. fits r.0 ps ≡ true) rs
    → All (λ r. is_plain r.1 ≡ true) rs
    → IsReady rs ps
IsReady-of_All rs ps hf hp r m = (
  All-In (λ (e : Replacement). fits e.0 ps ≡ true) rs r hf m,
  All-In (λ (e : Replacement). is_plain e.1 ≡ true) rs r hp m,
)

time-IsReady :
    (t : Time) (ps : List Piece) → all_fit time_keys ps ≡ true → IsReady (time_replacements t) ps
unfolding time_replacements
time-IsReady t ps h =
    IsReady-of_All (time_replacements t) ps (all_fit-All time_keys ps h) (time_replacements-plain t)

-- Every text that the code takes from the record as it is.
abbrev pub IsPlainRecord : LogRecord → Type 0
IsPlainRecord r = All (λ s. is_plain s ≡ true) (texts_of r)

log-IsReady :
    (r : LogRecord) (ps : List Piece)
    → all_fit log_keys ps ≡ true
    → IsPlainRecord r
    → IsReady (log_replacements r) ps
unfolding log_replacements
log-IsReady r ps h hr =
    IsReady-of_All (log_replacements r) ps (all_fit-All log_keys ps h) (log_replacements-plain r hr)

all_fit-fill :
    (ks : List Bytes) (rs : List Replacement) (ps : List Piece)
    → All (λ r. is_plain r.1 ≡ true) rs
    → all_fit ks ps ≡ true
    → all_fit ks (map (fill rs) ps) ≡ true
all_fit-fill [] rs ps hv h = refl
all_fit-fill (k ∷ ks) rs ps hv h = ground (arith, h, fits-fill k rs ps hv, all_fit-fill ks rs ps hv)

-- `visit` goes through each pair of a map, in any order.
abbrev pub Visits : (List Replacement → List Replacement) → Type 0
Visits visit = (rs : List Replacement) (r : Replacement) → In r (visit rs) ↔ In r rs

-- For every order in which the map is gone through, every time, and every format of keys and of plain
-- text without percent signs, in which each key of the time stands at most once and each other key
-- differs from those at a place that both have: `Format_time` puts for each of its keys the text of
-- the time, and leaves the rest as it is.
pub format_time-render :
    (visit : List Replacement → List Replacement) (ps : List Piece) (t : Time)
    → Visits visit
    → all_fit time_keys ps ≡ true
    → format_time visit (render ps) t ≡ render (map (fill (time_replacements t)) ps)
unfolding format_time
format_time-render visit ps t same h =
    replace_each-visited (visit (time_replacements t)) (time_replacements t) ps
      (time_replacements-IsMap t) (time-IsReady t ps h) (same (time_replacements t))

-- For every order in which the maps are gone through, every record whose module, file name, entity and
-- message have no percent sign, and every format of keys and of plain text without percent signs, in
-- which each key of the record and of its time stands at most once and each other key differs from
-- those at a place that both have: `Format_log_message` puts for each of its keys the text of the
-- record or of its time, and leaves the rest as it is.
pub format_log_message-render :
    (visit : List Replacement → List Replacement) (ps : List Piece) (r : LogRecord)
    → Visits visit
    → all_fit log_keys ps ≡ true
    → all_fit time_keys ps ≡ true
    → IsPlainRecord r
    → format_log_message visit (render ps) r
      ≡ render (map (fill (time_replacements r.timestamp)) (map (fill (log_replacements r)) ps))
unfolding format_log_message
format_log_message-render visit ps r same hl ht hr =
    ap (λ s. format_time visit s r.timestamp)
      (replace_each-visited (visit (log_replacements r)) (log_replacements r) ps
        (log_replacements-IsMap r) (log-IsReady r ps hl hr) (same (log_replacements r)))
    ∙ format_time-render visit (map (fill (log_replacements r)) ps) r.timestamp same
        (all_fit-fill time_keys (log_replacements r) ps (log_replacements-plain r hr) ht)
