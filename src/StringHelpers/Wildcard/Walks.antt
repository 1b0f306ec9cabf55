-- ===== src/StringHelpers/Wildcard/Walks.antt =====
-- Matches taken apart, and the way of the loop of `matches_wildcard` from the last star.
use logger_cpp.Common.{
  ℕ, ◌≡◌, refl, length, ◌≤◌, true, false, ◌||◌, [], ◌∷◌, Bytes, ◌==◌, ◌⊎◌, inl, inr, arith,
}
use logger_cpp.StringHelpers.Wildcard.Globs.{
  Matches, both_empty, star_empty, star_more, any_byte, same_byte,
}

-- The byte of the pattern is no star and goes with the byte of the text.
abbrev pub Fits : ℕ → ℕ → Type 0
Fits d c = ((d == b'*') ≡ false) × ((d == c || d == b'?') ≡ true)

-- What a match of two texts that are not empty is.
unfoldable pub Split : Bytes → Bytes → Type 0
Split [] [] = Unit
Split [] (c ∷ s) = ⊥
Split (d ∷ p) [] = ((d == b'*') ≡ true) × Matches p []
Split (d ∷ p) (c ∷ s) =
    (((d == b'*') ≡ true) × (Matches p (c ∷ s) ⊎ Matches (d ∷ p) s))
    ⊎ (((d == c || d == b'?') ≡ true) × Matches p s)

pub split : {p s : Bytes} → Matches p s → Split p s
unfolding Split
split both_empty = tt
split (star_empty {s = []} m) = (refl, m)
split (star_empty {s = c ∷ s} m) = inl (refl, inl m)
split (star_more c m) = inl (refl, inr m)
split (any_byte c m) = inr (ground arith, m)
split (same_byte c m) = inr (ground arith, m)

pub nothing-Matches : (c : ℕ) (s : Bytes) → Matches [] (c ∷ s) → ⊥
unfolding Split
nothing-Matches c s m = split m

-- The byte of the pattern and that of the text may be taken off.
pub after_byte : (d c : ℕ) (p s : Bytes) → Fits d c → Matches (d ∷ p) (c ∷ s) → Matches p s
unfolding Split
after_byte d c p s (plain, _) m = elim (split m) [
  | inl (star, _) ↦ absurd (cc (plain, star))
  | inr (_, rest) ↦ rest
]

-- A star swallows a byte after it.
past_byte :
    (d : ℕ) (p s : Bytes) → (d == b'*') ≡ false → Matches (b'*' ∷ (d ∷ p)) s → Matches (b'*' ∷ p) s
unfolding Split
past_byte d p [] plain m =
    let (_, m1) = split m in let (star, _) = split m1 in absurd (cc (plain, star))
past_byte d p (c ∷ s) plain m = elim (split m) [
  | inl (_, inl m1) ↦ elim (split m1) [
    | inl (star, _) ↦ absurd (cc (plain, star))
    | inr (_, m2) ↦ star_more c (star_empty m2)
  ]
  | inl (_, inr m1) ↦ star_more c (past_byte d p s plain m1)
  | inr (_, m1) ↦ star_more c (past_byte d p s plain (star_empty m1))
]

pub two_stars : (p s : Bytes) → Matches (b'*' ∷ (b'*' ∷ p)) s → Matches (b'*' ∷ p) s
unfolding Split
two_stars p [] m = let (_, m1) = split m in m1
two_stars p (c ∷ s) m = elim (split m) [
  | inl (_, inl m1) ↦ m1
  | inl (_, inr m1) ↦ star_more c (two_stars p s m1)
  | inr (_, m1) ↦ star_more c m1
]

-- From the position after the last star, the loop has come to this position byte by byte.
pub data Walked (q u : Bytes) : Bytes → Bytes → Type 0 where
  at_star : Walked q u q u
  one_more : {p s : Bytes} (d c : ℕ) → Fits d c → Walked q u (d ∷ p) (c ∷ s) → Walked q u p s

pub Walked-length : {q u p s : Bytes} → Walked q u p s → length s ≤ length u
Walked-length at_star = omega arith
Walked-length (one_more d c f walked) = omega (arith, Walked-length walked)

pub Walked-Matches : {q u p s : Bytes} → Walked q u p s → Matches q u → Matches p s
Walked-Matches at_star m = m
Walked-Matches (one_more {p} {s} d c f walked) m = after_byte d c p s f (Walked-Matches walked m)

pub Walked-star : {q u p s : Bytes} → Walked q u p s → Matches (b'*' ∷ q) u → Matches (b'*' ∷ p) s
unfolding Split
Walked-star at_star m = m
Walked-star (one_more {p} {s} d c f walked) m = elim (split (Walked-star walked m)) [
  | inl (_, inl m1) ↦ star_empty (after_byte d c p s f m1)
  | inl (_, inr m1) ↦ past_byte d p s f.0 m1
  | inr (_, m1) ↦ past_byte d p s f.0 (star_empty m1)
]
