-- ===== src/Kinds/Names.antt =====
-- What `Count` and `To_string` of `LogKindSet` report.
use logger_cpp.Common.{
  ℕ, ◌+◌, ◌≡◌, refl, Bool, true, false, ◌==◌, arith, if◌then◌else◌, length, codes, append-nil, [],
  ◌∷◌,
}
use logger_cpp.Kinds.{
  kind_technical, kind_action, kind_event, LogKindSet, set, test, all, count, known_names,
  no_unknowns, join_names, kinds_to_string, of_kinds,
}

abbrev indicator : Bool → ℕ
indicator true = 1
indicator false = 0

-- For all bits: `Count` is the number of the three known kinds that are in the set; other bits are not counted.
pub count-tests :
    (s : LogKindSet)
    → count s
      ≡ indicator (test s kind_technical)
        + indicator (test s kind_action)
        + indicator (test s kind_event)
unfolding count test
count-tests s = ground arith

length-known_names :
    (s : LogKindSet)
    → length (known_names s)
      ≡ indicator (test s kind_technical)
        + indicator (test s kind_action)
        + indicator (test s kind_event)
unfolding known_names
length-known_names s = ground arith

pub no_unknowns-zero : (s : LogKindSet) → no_unknowns s ≡ 0
unfolding no_unknowns
no_unknowns-zero s = rw (count-tests s, length-known_names s) (ground arith)

-- For all bits: `To_string` is ALL for the set of exactly the three known kinds, and else the names of
-- its known kinds joined by commas; a count of unknown kinds is never put out.
pub kinds_to_string_known :
    (s : LogKindSet)
    → kinds_to_string s ≡ (if s.bits == 7 then codes "ALL" else join_names true (known_names s) [])
unfolding kinds_to_string all
kinds_to_string_known s = ground (arith, no_unknowns-zero s, append-nil (known_names s))

all_but_unknown :
    kinds_to_string (of_kinds (kind_technical ∷ kind_event ∷ [])) ≡ codes "TECHNICAL,EVENT"
unfolding kinds_to_string of_kinds set known_names no_unknowns test count all
all_but_unknown = refl
