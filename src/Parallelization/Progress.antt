-- ===== src/Parallelization/Progress.antt =====
-- lib/Parallelization/Progress.cpp: the thread that reports how many items are done. A sample is what
-- the workers' counters hold in one round of its loop; sleeping and the text of a report are left out.
pub mod Ends
use mull.Base.{ℕ, ◌+◌, List, [], ◌∷◌, Option, none, some, Bool, true, false, ◌==◌, if◌then◌else◌}

-- The sum of the counters.
abbrev pub current_of : List ℕ → ℕ
current_of [] = 0
current_of (counter ∷ counters) = counter + current_of counters

-- `printProgress`: what is reported, and the new previous value.
abbrev pub print_progress : (current previous : ℕ) → List ℕ × ℕ
print_progress current previous =
    if current == previous then ([], previous) else (current ∷ [], current)

abbrev pub report_then : List ℕ → Option (List ℕ) → Option (List ℕ)
report_then reported none = none
report_then [] (some rest) = some rest
report_then (r ∷ reported) (some rest) = some (r ∷ rest)

-- The rounds of the loop, and the values that they report; `none` when the loop is still running
-- after all samples.
pub report : (total previous : ℕ) → List (List ℕ) → Option (List ℕ)
report total previous [] = none
report total previous (counters ∷ samples) =
    let current = current_of counters in
    let printed = print_progress current previous in
    let waited = report total previous samples in
    let rest = report total printed.1 samples in
    if current == 0
    then waited
    else if current == total
    then some printed.0
    else report_then printed.0 rest
