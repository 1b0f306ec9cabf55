-- ===== src/Schedule/Grid.antt =====
-- The timestamps of a `TimeInterval` are the neighbours of its time on the grid.
use native.Mathlib.Nat.{mod-lt}
use logger_cpp.Common.{
  ℕ, zero, suc, ◌+◌, ◌*◌, ◌/◌, ◌%◌, ◌-◌, ◌≤◌, ◌<◌, some, ltb, if◌then◌else◌, ◌≡◌, refl, arith,
  Bool-cases, ◌⊎◌, inl, inr, ap, ◌∙◌,
}
use logger_cpp.Common.Int.{
  ℤ, pos, negsuc, pos_part, neg_part, sub_ℕ, ◌+ℤ◌, ◌-ℤ◌, ◌≤ℤ◌, ◌<ℤ◌, +ℤ_parts, int_laws,
}
use logger_cpp.Schedule.{
  TimeInterval, to_time_t, current_timestamp, next_timestamp, milliseconds_until_next,
}

-- The offset lies inside the interval, as `Set_offset` demands.
abbrev pub IsRegular : TimeInterval → Type 0
IsRegular i = i.offset < i.interval

-- `k` intervals past the offset, or that many before it.
pub data OnGrid (i : TimeInterval) (s : ℤ) : Type 0 where
  after : (k : ℕ) → s ≡ pos (k * i.interval + i.offset) → OnGrid i s
  before : (k : ℕ) → s ≡ sub_ℕ i.offset (k * i.interval) → OnGrid i s

round_down : (t v : ℕ) → 0 < v → t - t % v ≡ t / v * v
round_down t v h = grind arith

Zero-cases : (n : ℕ) → (n ≡ 0) ⊎ ((k : ℕ) × (n ≡ suc k))
Zero-cases zero = inl refl
Zero-cases (suc k) = inr (k, refl)

-- The value that `Get_current_timestamp` computes where the interval is not 0.
grid_point : ℕ → ℕ → ℕ → ℤ
grid_point t v o = if ltb t (t - t % v + o) then sub_ℕ (t - t % v + o) v else pos (t - t % v + o)

current_timestamp_lem :
    (i : TimeInterval)
    → 0 < i.interval
    → current_timestamp i ≡ some (grid_point (to_time_t i.time) i.interval i.offset)
unfolding current_timestamp grid_point
current_timestamp_lem i h = ground arith

grid_point_bounds :
    (t v o : ℕ) → o < v → (grid_point t v o ≤ℤ pos t) × (pos t <ℤ grid_point t v o +ℤ pos v)
unfolding grid_point ◌+ℤ◌
grid_point_bounds t v o h = grind (arith, mod-lt)

base_zero : (t v o : ℕ) → o < v → t / v ≡ 0 → sub_ℕ (t - t % v + o) v ≡ sub_ℕ o (1 * v)
base_zero t v o h e =
    let base : t - t % v ≡ 0 =
      omega (arith, round_down t v (omega arith), ap (λ (q : ℕ). q * v) e) in
    let left : t - t % v + o ≡ o = omega arith in
    let right : 1 * v ≡ v = omega arith in rw (left, right)

base_suc : (t v o k : ℕ) → o < v → t / v ≡ suc k → sub_ℕ (t - t % v + o) v ≡ pos (k * v + o)
base_suc t v o k h e =
    let base : t - t % v ≡ suc k * v = round_down t v (omega arith) ∙ ap (λ (q : ℕ). q * v) e in
    let left : t - t % v + o ≡ k * v + o + v = omega arith in rw left (ground arith)

grid_point-OnGrid :
    (i : TimeInterval) (t : ℕ) → IsRegular i → OnGrid i (grid_point t i.interval i.offset)
unfolding grid_point
grid_point-OnGrid i t h = elim (Bool-cases (ltb t (t - t % i.interval + i.offset))) [
  | inl later ↦ elim (Zero-cases (t / i.interval)) [
    | inl first ↦ rw later (before 1 (base_zero t i.interval i.offset h first))
    | inr (k, e) ↦ rw later (after k (base_suc t i.interval i.offset k h e))
  ]
  | inr upto ↦ rw upto (
      after (t / i.interval)
        (ap pos (ap (λ (n : ℕ). n + i.offset) (round_down t i.interval (omega arith)))))
]

-- For every time and every interval with its offset below it: the current timestamp is a grid point
-- that is not after the time, and the next one, an interval later, is after the time.
pub timestamps_around :
    (i : TimeInterval)
    → IsRegular i
    → (s : ℤ) × (current_timestamp i ≡ some s)
      × (next_timestamp i ≡ some (s +ℤ pos i.interval))
      × OnGrid i s
      × (s ≤ℤ pos (to_time_t i.time))
      × (pos (to_time_t i.time) <ℤ s +ℤ pos i.interval)
unfolding next_timestamp
timestamps_around i h =
    let e = current_timestamp_lem i (omega arith) in
    let s : ℤ = grid_point (to_time_t i.time) i.interval i.offset in
    let (low, high) = grid_point_bounds (to_time_t i.time) i.interval i.offset h in
    (s, e, rw (e, next_timestamp), grid_point-OnGrid i (to_time_t i.time) h, low, high)

-- An integer above a number and at most `v` above it is a number.
after_time :
    (n : ℤ) (t v : ℕ)
    → pos t <ℤ n
    → n ≤ℤ pos (t + v)
    → (k : ℕ) × (n ≡ pos k) × (t < k) × (k ≤ t + v)
after_time (pos k) t v low high = (k, refl, omega arith, omega arith)
after_time (negsuc k) t v low high = absurd (omega arith)

-- For every time and every such interval: waiting the returned number of milliseconds from the time
-- in whole seconds ends on the next timestamp; it is positive and at most the interval.
pub milliseconds_reach_next :
    (i : TimeInterval)
    → IsRegular i
    → (next : ℤ) × (ms : ℕ) × (next_timestamp i ≡ some next)
      × (milliseconds_until_next i ≡ some (pos ms))
      × (pos_part next * 1000 ≡ neg_part next * 1000 + (to_time_t i.time * 1000 + ms))
      × (0 < ms)
      × (ms ≤ i.interval * 1000)
unfolding milliseconds_until_next ◌-ℤ◌
milliseconds_reach_next i h =
    let (s, _, e, _, low, high) = timestamps_around i h in
    let (k, en, lower, upper) =
      after_time (s +ℤ pos i.interval) (to_time_t i.time) i.interval high
        (omega (int_laws, +ℤ_parts s (pos i.interval))) in
    let e' = e ∙ ap some en in
    (
      pos k,
      (k - to_time_t i.time) * 1000,
      e',
      rw (e', milliseconds_until_next) (ground arith),
      omega arith,
      omega arith,
      omega arith,
    )
