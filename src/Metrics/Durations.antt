-- ===== src/Metrics/Durations.antt =====
-- Sums and means of the durations of lib/Metrics/Metrics.cpp.
use mull.Base.{ℕ, ◌+◌, ◌-◌, ◌*◌, ◌<◌, ◌≤◌, [], ◌∷◌, length, All, ◌≡◌, refl, arith}
use mull.Metrics.{MetricsMeasure, Measures, word, duration, accumulate_duration, average_duration}
use native.Mathlib.Nat.{div-mul-le_self, lt-div-mul-add}

-- The end is not before the beginning, and both are 64-bit numbers.
abbrev pub IsFinished : ℕ × MetricsMeasure → Type 0
IsFinished (key, m) = (m.begin ≤ m.end) × (m.end < word)

abbrev pub sum_of_times : Measures → ℕ
sum_of_times [] = 0
sum_of_times ((key, m) ∷ ms) = (m.end - m.begin) + sum_of_times ms

duration-IsFinished :
    (m : MetricsMeasure) → m.begin ≤ m.end → m.end < word → duration m ≡ m.end - m.begin
unfolding duration
duration-IsFinished m h l = omega arith

accumulate_duration-sum :
    (ms : Measures)
    → All IsFinished ms
    → sum_of_times ms < word
    → accumulate_duration ms ≡ sum_of_times ms
unfolding accumulate_duration
accumulate_duration-sum [] h l = refl
accumulate_duration-sum ((key, m) ∷ ms) (h, hs) l =
    let rest = accumulate_duration-sum ms hs (omega arith) in
    let d = duration-IsFinished m h.0 h.1 in omega (arith, rest, d)

-- When every measure ends after it began and the times add up to a 64-bit number, the mean of one
-- or more durations is their exact sum divided by their number, rounded down.
pub average_duration-sum :
    (e : ℕ × MetricsMeasure) (ms : Measures)
    → All IsFinished (e ∷ ms)
    → sum_of_times (e ∷ ms) < word
    → (average_duration (e ∷ ms) * length (e ∷ ms) ≤ sum_of_times (e ∷ ms))
      × (sum_of_times (e ∷ ms) < (average_duration (e ∷ ms) * length (e ∷ ms)) + length (e ∷ ms))
unfolding average_duration
average_duration-sum e ms h l =
    rw (accumulate_duration-sum (e ∷ ms) h l)
      (div-mul-le_self (sum_of_times (e ∷ ms)) (length (e ∷ ms)), lt-div-mul-add (omega arith))
