-- ===== src/StringHelpers/Wildcard.antt =====
-- `matches_wildcard` of Source/SharedLibraries/CommonTools/include/StringHelpers.h. A position is the rest of the
-- text from it on.
pub mod Ending
pub mod Globs
pub mod Walks
pub mod Complete
use logger_cpp.Common.{
  ℕ, zero, suc, ◌+◌, ◌*◌, Bool, true, false, ◌||◌, List, [], ◌∷◌, Option, none, some, Bytes, codes,
  ◌==◌, length, drop, if◌then◌else◌, ◌≡◌, refl,
}

-- The pattern after the last star, and the text where the star's match ends so far.
abbrev pub Backtrack : Type 0
Backtrack = Option (Bytes × Bytes)

-- The last loop and the test after it.
unfoldable pub only_stars : Bytes → Bool
only_stars [] = true
only_stars (c ∷ p) = if c == b'*' then only_stars p else false

-- What one round of the loop does where the text goes on with `c`.
pub data Move : Type 0 where
  go_on : (pattern text : Bytes) → Backtrack → Move
  give_up : Move

unfoldable pub back : Backtrack → Move
back none = give_up
back (some (q, u)) = go_on q (drop 1 u) (some (q, drop 1 u))

unfoldable pub move : Bytes → ℕ → Bytes → Backtrack → Move
unfolding back
move [] c s star = back star
move (d ∷ p) c s star =
    if d == c || d == b'?'
    then go_on p s star
    else if d == b'*'
    then go_on p (c ∷ s) (some (p, c ∷ s))
    else back star

-- The loop on fuel; `none` means that the fuel ran out.
unfoldable pub wildcard_loop : ℕ → Bytes → Bytes → Backtrack → Option Bool
unfolding only_stars move
wildcard_loop zero p s star = none
wildcard_loop (suc fuel) p [] star = some (only_stars p)
wildcard_loop (suc fuel) p (c ∷ s) star = elim (move p c s star) [
  | go_on p' s' star' ↦ wildcard_loop fuel p' s' star'
  | give_up ↦ some false
]

-- Each round takes from the pattern, or from the text after a star and starts the pattern after it anew.
unfoldable pub wildcard_fuel : Bytes → Bytes → ℕ
wildcard_fuel p s = suc (suc (length s) * suc (length p) + length p)

unfoldable pub matches_wildcard : Bytes → Bytes → Option Bool
unfolding wildcard_loop wildcard_fuel
matches_wildcard p s = wildcard_loop (wildcard_fuel p s) p s none

log_files : matches_wildcard (codes "app*.l?g") (codes "app_1.log.log") ≡ some true
unfolding matches_wildcard
log_files = refl
