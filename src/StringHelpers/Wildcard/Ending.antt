-- ===== src/StringHelpers/Wildcard/Ending.antt =====
-- The loop of `matches_wildcard` ends.
use logger_cpp.Common.{
  ℕ, zero, suc, ◌+◌, ◌*◌, ◌≤◌, ◌<◌, ◌≡◌, refl, Bool, false, ◌||◌, [], ◌∷◌, none, some, Bytes, ◌==◌,
  length, Bool-cases, inl, inr, arith,
}
use native.Mathlib.Nat.{mul-le-mul_right}
use logger_cpp.StringHelpers.Wildcard.{
  Backtrack, only_stars, Move, go_on, give_up, back, move, wildcard_loop, wildcard_fuel,
}

-- For a pattern of at most `n` bytes: what a position keeps, and what a round makes smaller.
IsBounded : ℕ → Bytes → Bytes → Backtrack → Type 0
IsBounded n p s none = length p ≤ n
IsBounded n p s (some (q, u)) = (length p ≤ n) × (length q ≤ n) × (length s ≤ length u)

size : ℕ → Bytes → Bytes → Backtrack → ℕ
size n p s none = suc (length s) * suc n + length p
size n p s (some (q, u)) = length u * suc n + length p

AfterRound : ℕ → ℕ → Move → Type 0
AfterRound n before give_up = Unit
AfterRound n before (go_on p s star) = IsBounded n p s star × (size n p s star < before)

suc-mul : (a k : ℕ) → suc a * k ≡ a * k + k
suc-mul a k = omega arith

mul_mono : (a b k : ℕ) → a ≤ b → a * k ≤ b * k
mul_mono a b k h = mul-le-mul_right k h

back-AfterRound :
    (n : ℕ) (p : Bytes) (c : ℕ) (s : Bytes) (star : Backtrack)
    → IsBounded n p (c ∷ s) star
    → AfterRound n (size n p (c ∷ s) star) (back star)
unfolding AfterRound back IsBounded size
back-AfterRound n p c s none h = tt
back-AfterRound n p c s (some (q, [])) h = absurd (omega arith)
back-AfterRound n p c s (some (q, d ∷ u)) (hp, hq, hs) =
    ((hq, hq, omega arith), omega (arith, suc-mul (length u) (suc n)))

byte-IsBounded :
    (n : ℕ) (d : ℕ) (p : Bytes) (c : ℕ) (s : Bytes) (star : Backtrack)
    → IsBounded n (d ∷ p) (c ∷ s) star
    → IsBounded n p s star × (size n p s star < size n (d ∷ p) (c ∷ s) star)
unfolding IsBounded size
byte-IsBounded n d p c s none h = (omega arith, omega (arith, suc-mul (suc (length s)) (suc n)))
byte-IsBounded n d p c s (some (q, u)) (hp, hq, hs) = ((omega arith, hq, omega arith), omega arith)

star-IsBounded :
    (n : ℕ) (d : ℕ) (p : Bytes) (c : ℕ) (s : Bytes) (star : Backtrack)
    → IsBounded n (d ∷ p) (c ∷ s) star
    → IsBounded n p (c ∷ s) (some (p, c ∷ s))
      × (size n p (c ∷ s) (some (p, c ∷ s)) < size n (d ∷ p) (c ∷ s) star)
unfolding IsBounded size
star-IsBounded n d p c s none h =
    ((omega arith, omega arith, omega arith), omega (arith, suc-mul (suc (length s)) (suc n)))
star-IsBounded n d p c s (some (q, u)) (hp, hq, hs) = (
  (omega arith, omega arith, omega arith),
  omega (arith, mul_mono (suc (length s)) (length u) (suc n) hs),
)

move-AfterRound :
    (n : ℕ) (p : Bytes) (c : ℕ) (s : Bytes) (star : Backtrack)
    → IsBounded n p (c ∷ s) star
    → AfterRound n (size n p (c ∷ s) star) (move p c s star)
unfolding AfterRound move
move-AfterRound n [] c s star h = back-AfterRound n [] c s star h
move-AfterRound n (d ∷ p) c s star h = elim (Bool-cases (d == c || d == b'?')) [
  | inl e ↦ rw (e, move) (byte-IsBounded n d p c s star h)
  | inr e ↦ elim (Bool-cases (d == b'*')) [
    | inl e' ↦ rw (e, move) (rw (e', move) (star-IsBounded n d p c s star h))
    | inr e' ↦ rw (e, move) (rw (e', move) (back-AfterRound n (d ∷ p) c s star h))
  ]
]

loop-some :
    (fuel n : ℕ) (p s : Bytes) (star : Backtrack)
    → IsBounded n p s star
    → size n p s star < fuel
    → (b : Bool) × (wildcard_loop fuel p s star ≡ some b)
unfolding wildcard_loop AfterRound
loop-some zero n p s star h less = absurd (omega arith)
loop-some (suc fuel) n p [] star h less = (only_stars p, refl)
loop-some (suc fuel) n p (c ∷ s) star h less =
    after (loop-some fuel n) (move p c s star) (move-AfterRound n p c s star h)
  where
    after :
        ((p' s' : Bytes) (star' : Backtrack)
          → IsBounded n p' s' star'
          → size n p' s' star' < fuel
          → (b : Bool) × (wildcard_loop fuel p' s' star' ≡ some b))
        → (m : Move) → AfterRound n (size n p (c ∷ s) star) m
        → (b : Bool) × (elim m [
          | go_on p' s' star' ↦ wildcard_loop fuel p' s' star'
          | give_up ↦ some false
        ]
            ≡ some b)
    after again (go_on p' s' star') (bounded, smaller) = again p' s' star' bounded (omega arith)
    after again give_up h = (false, refl)

-- For every pattern, text and enough fuel.
pub wildcard_loop-some :
    (p s : Bytes) → (b : Bool) × (wildcard_loop (wildcard_fuel p s) p s none ≡ some b)
unfolding wildcard_fuel IsBounded size
wildcard_loop-some p s =
    loop-some (wildcard_fuel p s) (length p) p s none (omega arith) (omega arith)
