-- ===== src/StringHelpers.antt =====
-- Source/SharedLibraries/CommonTools/include/StringHelpers.h, with the operations of `std::string`
-- that it and the formatting code use. The proofs are in the child modules.
pub mod Search
pub mod ReplaceAll
pub mod Trim
pub mod Split
pub mod Wildcard
use mathlib.Core.List.{reverse}
use mathlib.Core.Option
use logger_cpp.Common.{
  ℕ, zero, suc, ◌+◌, Bool, true, false, not, ◌&&◌, ◌||◌, List, [], ◌∷◌, ◌++◌, map, Option, none,
  some, ◌==◌, ltb, leb, Bytes, length, take, drop, if◌then◌else◌, codes, ◌-◌, ◌≡◌, refl,
}

-- The text begins with `what`.
unfoldable pub starts_with : Bytes → Bytes → Bool
starts_with [] s = true
starts_with (c ∷ what) [] = false
starts_with (c ∷ what) (d ∷ s) = c == d && starts_with what s

-- `s.find(what)`: the first position, `none` for `npos`.
unfoldable pub find : Bytes → Bytes → Option ℕ
unfolding starts_with
find what [] = if starts_with what [] then some 0 else none
find what (c ∷ s) =
    let rest = Option.map suc (find what s) in if starts_with what (c ∷ s) then some 0 else rest

-- `s.find(what, pos)`.
unfoldable pub find_from : Bytes → Bytes → ℕ → Option ℕ
find_from what s pos =
    if ltb (length s) pos then none else Option.map (λ (i : ℕ). pos + i) (find what (drop pos s))

-- `s.replace(pos, len, value)` for a position in the text.
unfoldable pub replace : Bytes → ℕ → ℕ → Bytes → Bytes
replace s pos len value = take pos s ++ (value ++ drop (pos + len) s)

-- The loop of `replace_all`, on fuel: the text, the position and the count. `none` means that the
-- fuel ran out.
unfoldable pub replace_all_loop : ℕ → Bytes → Bytes → Bytes → ℕ → ℕ → Option (Bytes × ℕ)
replace_all_loop zero inout what with' pos count = none
replace_all_loop (suc fuel) inout what with' pos count = elim (find_from what inout pos) [
  | none ↦ some (inout, count)
  | some p ↦
      replace_all_loop fuel (replace inout p (length what) with') what with' (p + length with')
        (count + 1)
]

-- The new text and the number of replacements; one round more than the text has bytes.
unfoldable pub replace_all : Bytes → Bytes → Bytes → Option (Bytes × ℕ)
unfolding replace_all_loop find_from replace
replace_all inout what with' = replace_all_loop (suc (length inout)) inout what with' 0 0

unfoldable pub replace_all_copy : Bytes → Bytes → Bytes → Option Bytes
unfolding replace_all_loop find_from replace
replace_all_copy s what with' =
    Option.map (λ (r : Bytes × ℕ). r.0) (replace_all_loop (suc (length s)) s what with' 0 0)

-- The next position at which `std::views::split` divides: where the delimiter is, and one byte further for
-- an empty delimiter before the end of the text.
unfoldable pub find_next : Bytes → Bytes → Option ℕ
unfolding find
find_next [] [] = some 0
find_next [] (c ∷ s) = some 1
find_next (d ∷ delimiter) s = find (d ∷ delimiter) s

-- The loop over the ranges of the view, on fuel: a division at the end of the text is the end.
unfoldable pub split_loop : ℕ → Bytes → Bytes → Option (List Bytes)
split_loop zero delimiter s = none
split_loop (suc fuel) delimiter s = elim (find_next delimiter s) [
  | none ↦ some (s ∷ [])
  | some p ↦
      let rest = split_loop fuel delimiter (drop (p + length delimiter) s) in
      if p == length s then some (s ∷ []) else Option.map (λ ranges. take p s ∷ ranges) rest
]

-- An empty text has no range at all.
unfoldable pub split : Bytes → Bytes → Option (List Bytes)
unfolding split_loop find_next
split [] delimiter = some []
split (c ∷ s) delimiter = split_loop (suc (length (c ∷ s))) delimiter (c ∷ s)

unfoldable pub split_char : Bytes → ℕ → Option (List Bytes)
split_char s delimiter = split s (delimiter ∷ [])

split_trailing : split (codes "a, b, ") (codes ", ") ≡ some (codes "a" ∷ codes "b" ∷ [] ∷ [])
unfolding split
split_trailing = refl

split_empty_delimiter : split (codes "ab") [] ≡ some (codes "a" ∷ codes "b" ∷ [])
unfolding split
split_empty_delimiter = refl

-- `std::isspace` in the default locale.
unfoldable pub is_space : ℕ → Bool
is_space c = c == 32 || leb 9 c && leb c 13

-- Erase up to the first byte that the test does not hold of.
unfoldable pub ltrim_if : (ℕ → Bool) → Bytes → Bytes
ltrim_if p [] = []
ltrim_if p (c ∷ s) = if p c then ltrim_if p s else c ∷ s

-- The same from the end, by the reverse iterators.
unfoldable pub rtrim_if : (ℕ → Bool) → Bytes → Bytes
unfolding ltrim_if
rtrim_if p s = reverse (ltrim_if p (reverse s))

unfoldable pub trim_if : (ℕ → Bool) → Bytes → Bytes
trim_if p s = rtrim_if p (ltrim_if p s)

unfoldable pub ltrim : Bytes → Bytes
ltrim = ltrim_if is_space

unfoldable pub rtrim : Bytes → Bytes
rtrim = rtrim_if is_space

unfoldable pub trim : Bytes → Bytes
trim s = rtrim (ltrim s)

unfoldable pub trim_char : Bytes → ℕ → Bytes
trim_char s ch = rtrim_if (λ c. c == ch) (ltrim_if (λ c. c == ch) s)

-- The byte is in the list of bytes.
unfoldable pub one_of : Bytes → ℕ → Bool
one_of [] c = false
one_of (d ∷ chars) c = c == d || one_of chars c

unfoldable pub trim_chars : Bytes → Bytes → Bytes
trim_chars s chars = rtrim_if (one_of chars) (ltrim_if (one_of chars) s)

unfoldable pub str_tolower : Bytes → Bytes
str_tolower = map (λ c. if leb b'A' c && leb c b'Z' then c + 32 else c)

unfoldable pub str_toupper : Bytes → Bytes
str_toupper = map (λ c. if leb b'a' c && leb c b'z' then c - 32 else c)

replaced_level :
    replace_all (codes "[%%level] %%level") (codes "%%level") (codes "<%%level>")
    ≡ some (codes "[<%%level>] <%%level>", 2)
unfolding replace_all find starts_with
replaced_level = refl
