-- ===== src/StringHelpers/Wildcard/Globs.antt =====
-- `matches_wildcard` ends, and what it accepts is a match.
use logger_cpp.Common.{
  ℕ, zero, suc, ◌+◌, ◌*◌, ◌≡◌, refl, ap, ◌∙◌, Bool, true, false, ◌||◌, [], ◌∷◌, none, some, Bytes,
  ◌==◌, ==_iff, length, drop, Bool-cases, ◌⊎◌, inl, inr, arith,
}
use logger_cpp.StringHelpers.Wildcard.Ending.{wildcard_loop-some}
use logger_cpp.StringHelpers.Wildcard.{
  Backtrack, only_stars, Move, go_on, give_up, back, move, wildcard_loop, wildcard_fuel,
  matches_wildcard,
}

-- A star stands for any text, a question mark for any byte, and another byte for itself.
pub data Matches : Bytes → Bytes → Type 0 where
  both_empty : Matches [] []
  star_empty : {p s : Bytes} → Matches p s → Matches (b'*' ∷ p) s
  star_more : {p s : Bytes} (c : ℕ) → Matches (b'*' ∷ p) s → Matches (b'*' ∷ p) (c ∷ s)
  any_byte : {p s : Bytes} (c : ℕ) → Matches p s → Matches (b'?' ∷ p) (c ∷ s)
  same_byte : {p s : Bytes} (c : ℕ) → Matches p s → Matches (c ∷ p) (c ∷ s)

-- There is a match from here, or from where the last star ends so far.
MatchesAt : Bytes → Bytes → Backtrack → Type 0
MatchesAt p s none = Matches p s
MatchesAt p s (some (q, u)) = Matches p s ⊎ Matches (b'*' ∷ q) u

only_stars-Matches : (p : Bytes) → only_stars p ≡ true → Matches p []
unfolding only_stars
only_stars-Matches [] h = both_empty
only_stars-Matches (c ∷ p) h = elim (Bool-cases (c == b'*')) [
  | inl e ↦ rw ((==_iff c b'*').0 e) (star_empty (only_stars-Matches p (rw e at h)))
  | inr e ↦ absurd (cc (rw e at h))
]

MatchesAt-here : (p s : Bytes) (star : Backtrack) → Matches p s → MatchesAt p s star
unfolding MatchesAt
MatchesAt-here p s none m = m
MatchesAt-here p s (some (q, u)) m = inl m

MatchesAt-map :
    (p s p' s' : Bytes) (star : Backtrack)
    → (Matches p' s' → Matches p s)
    → MatchesAt p' s' star
    → MatchesAt p s star
unfolding MatchesAt
MatchesAt-map p s p' s' none f m = f m
MatchesAt-map p s p' s' (some (q, u)) f (inl m) = inl (f m)
MatchesAt-map p s p' s' (some (q, u)) f (inr m) = inr m

-- A match after the move is one before it.
AfterMove : Bytes → Bytes → Backtrack → Move → Type 0
AfterMove p s star give_up = Unit
AfterMove p s star (go_on p' s' star') = MatchesAt p' s' star' → MatchesAt p s star

drop-Matches :
    (q u : Bytes) → Matches q (drop 1 u) ⊎ Matches (b'*' ∷ q) (drop 1 u) → Matches (b'*' ∷ q) u
drop-Matches q [] (inl m) = star_empty m
drop-Matches q [] (inr m) = m
drop-Matches q (c ∷ u) (inl m) = star_more c (star_empty m)
drop-Matches q (c ∷ u) (inr m) = star_more c m

back-AfterMove : (p s : Bytes) (star : Backtrack) → AfterMove p s star (back star)
unfolding AfterMove back MatchesAt
back-AfterMove p s none = tt
back-AfterMove p s (some (q, u)) = λ m. inr (drop-Matches q u m)

byte-Matches :
    (d c : ℕ) (p s : Bytes) → (d == c || d == b'?') ≡ true → Matches p s → Matches (d ∷ p) (c ∷ s)
byte-Matches d c p s h m = elim (Bool-cases (d == c)) [
  | inl e ↦ rw ((==_iff d c).0 e) (same_byte c m)
  | inr e ↦ let e' : d ≡ b'?' = ground (arith, e, h) in rw e' (any_byte c m)
]

move-AfterMove :
    (p : Bytes) (c : ℕ) (s : Bytes) (star : Backtrack) → AfterMove p (c ∷ s) star (move p c s star)
unfolding AfterMove move MatchesAt
move-AfterMove [] c s star = back-AfterMove [] (c ∷ s) star
move-AfterMove (d ∷ p) c s star = elim (Bool-cases (d == c || d == b'?')) [
  | inl e ↦ rw (e, move) (MatchesAt-map (d ∷ p) (c ∷ s) p s star (byte-Matches d c p s e))
  | inr e ↦ elim (Bool-cases (d == b'*')) [
    | inl e' ↦
        rw (e, move)
          (rw (e', move)
            (λ m.
              let e'' = (==_iff d b'*').0 e' in
              MatchesAt-here (d ∷ p) (c ∷ s) star
                (rw e'' (elim m [ inl here ↦ star_empty here | inr later ↦ later ]))))
    | inr e' ↦ rw (e, move) (rw (e', move) (back-AfterMove (d ∷ p) (c ∷ s) star))
  ]
]

loop-MatchesAt :
    (fuel : ℕ) (p s : Bytes) (star : Backtrack)
    → wildcard_loop fuel p s star ≡ some true
    → MatchesAt p s star
unfolding wildcard_loop AfterMove
loop-MatchesAt zero p s star h = cc
loop-MatchesAt (suc fuel) p [] star h = MatchesAt-here p [] star (only_stars-Matches p (cc h))
loop-MatchesAt (suc fuel) p (c ∷ s) star h =
    after (loop-MatchesAt fuel) (move p c s star) (move-AfterMove p c s star) h
  where
    after :
        ((p' s' : Bytes) (star' : Backtrack)
          → wildcard_loop fuel p' s' star' ≡ some true
          → MatchesAt p' s' star')
        → (m : Move) → AfterMove p (c ∷ s) star m
        → elim m [ go_on p' s' star' ↦ wildcard_loop fuel p' s' star' | give_up ↦ some false ]
          ≡ some true
        → MatchesAt p (c ∷ s) star
    after again (go_on p' s' star') f h = f (again p' s' star' h)
    after again give_up f h = cc

-- What a result says: an accepted text is a match.
abbrev pub Verdict : Bytes → Bytes → Bool → Type 0
Verdict p s true = Matches p s
Verdict p s false = Unit

loop-Verdict :
    (fuel : ℕ) (p s : Bytes) (b : Bool) → wildcard_loop fuel p s none ≡ some b → Verdict p s b
unfolding MatchesAt
loop-Verdict fuel p s true h = loop-MatchesAt fuel p s none h
loop-Verdict fuel p s false h = tt

-- For every pattern and every text: `matches_wildcard` ends within its fuel, and if it accepts the text,
-- the text is a match of the pattern.
pub matches_wildcard-Matches :
    (p s : Bytes) → (b : Bool) × (matches_wildcard p s ≡ some b) × Verdict p s b
unfolding matches_wildcard wildcard_fuel
matches_wildcard-Matches p s =
    let (b, e) = wildcard_loop-some p s in (b, e, loop-Verdict (wildcard_fuel p s) p s b e)

star-Matches : (s : Bytes) → Matches (b'*' ∷ []) s
star-Matches [] = star_empty both_empty
star-Matches (c ∷ s) = star_more c (star-Matches s)

-- A star in the text is taken for the one of the pattern.
loop-star :
    (fuel c : ℕ) (s : Bytes)
    → wildcard_loop (suc (suc fuel)) (b'*' ∷ []) (b'*' ∷ (c ∷ s)) none ≡ some false
unfolding wildcard_loop move back
loop-star fuel c s = refl

-- For every text of two bytes or more that begins with a star: it is a match of the pattern of a star
-- alone, but `matches_wildcard` rejects it.
matches_wildcard-star :
    (c : ℕ) (s : Bytes)
    → Matches (b'*' ∷ []) (b'*' ∷ (c ∷ s))
      × (matches_wildcard (b'*' ∷ []) (b'*' ∷ (c ∷ s)) ≡ some false)
unfolding matches_wildcard wildcard_fuel
matches_wildcard-star c s =
    let k = length s * 2 + 6 in
    let e : suc (
          suc (length {A = ℕ} (b'*' ∷ (c ∷ s))) * suc (length {A = ℕ} (b'*' ∷ []))
          + length {A = ℕ} (b'*' ∷ []))
        ≡ suc (suc k) =
      omega arith in
    (
      star-Matches (b'*' ∷ (c ∷ s)),
      ap (λ fuel. wildcard_loop fuel (b'*' ∷ []) (b'*' ∷ (c ∷ s)) none) e ∙ loop-star k c s,
    )
