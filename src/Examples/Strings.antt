-- ===== src/Examples/Strings.antt =====
-- The string helpers at concrete texts.
use logger_cpp.StringHelpers.Wildcard.{matches_wildcard}
use logger_cpp.StringHelpers.Wildcard.Complete.{matches_wildcard_iff}
use logger_cpp.StringHelpers.Wildcard.Globs.{Matches, Verdict, matches_wildcard-Matches}
use logger_cpp.Common.{
  List, All, refl, Bool, true, ◌↔◌, ℕ, ◌≡◌, some, none, codes, arith, ◌==◌, [], Bytes,
}
use logger_cpp.StringHelpers.Split.{split-join, join, IsWithout}
use logger_cpp.StringHelpers.{
  replace_all, replace_all_loop, trim, trim_char, trim_chars, is_space, one_of, split,
}
use logger_cpp.StringHelpers.ReplaceAll.{Replaced, replace_all-Replaced, replace_all_loop_empty}
use logger_cpp.StringHelpers.Trim.{Trimmed, trim-Trimmed}

replace_all-Replaced_example :
    (out : Bytes) × (n : ℕ) × (replace_all (codes "a%%levelb") (codes "%%level") (codes "<%%level>")
      ≡ some (out, n))
    × Replaced (codes "%%level") (codes "<%%level>") (codes "a%%levelb") out n
replace_all-Replaced_example =
    replace_all-Replaced (codes "a%%levelb") (codes "%%level") (codes "<%%level>") (cc)

replace_all_loop_empty_example : replace_all_loop 50 (codes "ab") [] (codes "x") 1 0 ≡ none
replace_all_loop_empty_example =
    replace_all_loop_empty 50 (codes "ab") (codes "x") 1 0 (omega arith)

trim-Trimmed_example :
    Trimmed is_space (codes " a b ") (trim (codes " a b "))
    × Trimmed (λ c. c == b'-') (codes " a b ") (trim_char (codes " a b ") b'-')
    × Trimmed (one_of (codes " b")) (codes " a b ") (trim_chars (codes " a b ") (codes " b"))
trim-Trimmed_example = trim-Trimmed (codes " a b ") b'-' (codes " b")

split-join_example :
    (ranges : List Bytes) × (split (codes "a, b, ") (codes ", ") ≡ some ranges)
    × (join (codes ", ") ranges ≡ codes "a, b, ")
    × All (IsWithout (codes ", ")) ranges
split-join_example = split-join (codes "a, b, ") (codes ", ") cc

matches_wildcard-Matches_example :
    (b : Bool) × (matches_wildcard (codes "app*.log") (codes "app_1.log") ≡ some b)
    × Verdict (codes "app*.log") (codes "app_1.log") b
matches_wildcard-Matches_example = matches_wildcard-Matches (codes "app*.log") (codes "app_1.log")

matches_wildcard_iff_example :
    (matches_wildcard (codes "a*.l?g") (codes "a.log") ≡ some true)
    ↔ Matches (codes "a*.l?g") (codes "a.log")
matches_wildcard_iff_example =
    matches_wildcard_iff (codes "a*.l?g") (codes "a.log") (refl, (refl, (refl, (refl, (refl, tt)))))
