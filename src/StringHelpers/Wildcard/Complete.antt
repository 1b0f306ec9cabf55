-- ===== src/StringHelpers/Wildcard/Complete.antt =====
-- `matches_wildcard` accepts every match of a text without stars.
use logger_cpp.Common.{
  ℕ, zero, suc, ◌≡◌, refl, ap, ◌∙◌, Bool, true, false, ◌||◌, [], ◌∷◌, none, some, Bytes, ◌==◌,
  ==_iff, Bool-cases, inl, inr, arith, All, subst, ◌↔◌,
}
use logger_cpp.StringHelpers.Wildcard.{
  Backtrack, only_stars, Move, go_on, give_up, back, move, wildcard_loop, wildcard_fuel,
  matches_wildcard,
}
use logger_cpp.StringHelpers.Wildcard.Globs.{Matches, Verdict, matches_wildcard-Matches}
use logger_cpp.StringHelpers.Wildcard.Walks.{
  Fits, Split, split, nothing-Matches, after_byte, two_stars, Walked, at_star, one_more,
  Walked-length, Walked-Matches, Walked-star,
}

abbrev pub HasNoStar : Bytes → Type 0
HasNoStar s = All (λ c. (c == b'*') ≡ false) s

-- The text matches, and this position leads to a match.
IsPromising : Bytes → Bytes → Backtrack → Type 0
IsPromising p s none = Matches p s
IsPromising p s (some (q, u)) = Matches (b'*' ∷ q) u × Walked q u p s × HasNoStar u

AfterPromise : Move → Type 0
AfterPromise give_up = ⊥
AfterPromise (go_on p s star) = IsPromising p s star × HasNoStar s

back-AfterPromise :
    (p : Bytes) (c : ℕ) (s : Bytes) (star : Backtrack)
    → (Matches p (c ∷ s) → ⊥)
    → IsPromising p (c ∷ s) star
    → AfterPromise (back star)
unfolding AfterPromise IsPromising back Split
back-AfterPromise p c s none bad m = bad m
back-AfterPromise p c s (some (q, [])) bad (m, walked, free) =
    absurd (omega (arith, Walked-length walked))
back-AfterPromise p c s (some (q, x ∷ u)) bad (m, walked, (fx, fu)) = elim (split m) [
  | inl (_, inl m1) ↦ absurd (bad (Walked-Matches walked m1))
  | inl (_, inr m1) ↦ ((m1, at_star, fu), fu)
  | inr (same, m1) ↦ absurd (ground (arith, same, fx))
]

byte-Fits : (d c : ℕ) → (c == b'*') ≡ false → (d == c || d == b'?') ≡ true → (d == b'*') ≡ false
byte-Fits d c plain same = ground (arith, plain, same)

step_byte :
    (d c : ℕ) (p s : Bytes) (star : Backtrack)
    → Fits d c
    → IsPromising (d ∷ p) (c ∷ s) star
    → IsPromising p s star
unfolding IsPromising
step_byte d c p s none f m = after_byte d c p s f m
step_byte d c p s (some (q, u)) f (m, walked, free) = (m, one_more d c f walked, free)

step_star :
    (p : Bytes) (c : ℕ) (s : Bytes) (star : Backtrack)
    → HasNoStar (c ∷ s)
    → IsPromising (b'*' ∷ p) (c ∷ s) star
    → IsPromising p (c ∷ s) (some (p, c ∷ s))
unfolding IsPromising
step_star p c s none free m = (m, at_star, free)
step_star p c s (some (q, u)) free (m, walked, _) =
    (two_stars p (c ∷ s) (Walked-star walked m), at_star, free)

mismatch :
    (d c : ℕ) (p s : Bytes)
    → (d == c || d == b'?') ≡ false
    → (d == b'*') ≡ false
    → Matches (d ∷ p) (c ∷ s)
    → ⊥
unfolding Split
mismatch d c p s differ plain m = elim (split m) [
  | inl (star, _) ↦ cc (plain, star)
  | inr (same, _) ↦ cc (differ, same)
]

move-AfterPromise :
    (p : Bytes) (c : ℕ) (s : Bytes) (star : Backtrack)
    → HasNoStar (c ∷ s)
    → IsPromising p (c ∷ s) star
    → AfterPromise (move p c s star)
unfolding AfterPromise move
move-AfterPromise [] c s star free h = back-AfterPromise [] c s star (nothing-Matches c s) h
move-AfterPromise (d ∷ p) c s star (fc, fs) h = elim (Bool-cases (d == c || d == b'?')) [
  | inl e ↦ rw (e, move) (step_byte d c p s star (byte-Fits d c fc e, e) h, fs)
  | inr e ↦ elim (Bool-cases (d == b'*')) [
    | inl e' ↦
        let h' = subst (λ x. IsPromising (x ∷ p) (c ∷ s) star) ((==_iff d b'*').0 e') h in
        rw (e, move) (rw (e', move) (step_star p c s star (fc, fs) h', (fc, fs)))
    | inr e' ↦
        rw (e, move) (rw (e', move) (back-AfterPromise (d ∷ p) c s star (mismatch d c p s e e') h))
  ]
]

only_stars-nil : (p : Bytes) → Matches p [] → only_stars p ≡ true
unfolding only_stars Split
only_stars-nil [] m = refl
only_stars-nil (d ∷ p) m = let (star, m1) = split m in rw (star, only_stars) (only_stars-nil p m1)

end-only_stars : (p : Bytes) (star : Backtrack) → IsPromising p [] star → only_stars p ≡ true
unfolding IsPromising Split
end-only_stars p none m = only_stars-nil p m
end-only_stars p (some (q, u)) (m, walked, _) =
    let (_, m1) = split (Walked-star walked m) in only_stars-nil p m1

loop-true :
    (fuel : ℕ) (p s : Bytes) (star : Backtrack) (b : Bool)
    → HasNoStar s
    → IsPromising p s star
    → wildcard_loop fuel p s star ≡ some b
    → b ≡ true
unfolding wildcard_loop AfterPromise
loop-true zero p s star b free h e = cc
loop-true (suc fuel) p [] star b free h e = cc (e, end-only_stars p star h)
loop-true (suc fuel) p (c ∷ s) star b free h e =
    after (loop-true fuel) (move p c s star) (move-AfterPromise p c s star free h) e
  where
    after :
        ((p' s' : Bytes) (star' : Backtrack) (b : Bool)
          → HasNoStar s'
          → IsPromising p' s' star'
          → wildcard_loop fuel p' s' star' ≡ some b
          → b ≡ true)
        → (m : Move) → AfterPromise m
        → elim m [ go_on p' s' star' ↦ wildcard_loop fuel p' s' star' | give_up ↦ some false ]
          ≡ some b
        → b ≡ true
    after again (go_on p' s' star') (good, free') e' = again p' s' star' b free' good e'
    after again give_up h e' = absurd h

-- For every pattern and every text without stars: `matches_wildcard` accepts the text exactly when it is a
-- match of the pattern, in which a star stands for any text and a question mark for any byte.
pub matches_wildcard_iff :
    (p s : Bytes) → HasNoStar s → (matches_wildcard p s ≡ some true) ↔ Matches p s
unfolding matches_wildcard IsPromising
matches_wildcard_iff p s free = (
  λ h.
      let (b, e, verdict) = matches_wildcard-Matches p s in
      let same : b ≡ true = cc (e, h) in subst (Verdict p s) same verdict,
  λ m.
      let (b, e, _) = matches_wildcard-Matches p s in
      let accepted = loop-true (wildcard_fuel p s) p s none b free m e in e ∙ ap some accepted,
)
