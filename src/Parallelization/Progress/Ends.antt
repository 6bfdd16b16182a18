-- ===== src/Parallelization/Progress/Ends.antt =====
-- The reporter's thread ends once the workers have counted all items.
use mull.Base.{
  ℕ, ◌<◌, ◌≤◌, ◌≡◌, ◌≢◌, ◌⊎◌, refl, subst, ap, List, [], ◌∷◌, some, false, ◌==◌, arith, Bool-cases,
  inl, inr,
}
use mull.Parallelization.Progress.{current_of, report_then, report}

-- The values increase, from above `previous` up to `total`, which is the last.
abbrev pub Climbs : (total previous : ℕ) → List ℕ → Type 0
Climbs total previous [] = previous ≡ total
Climbs total previous (r ∷ rs) = (previous < r) × Climbs total r rs

-- Counters only grow, and no sample is above the total.
abbrev pub Grows : (total previous : ℕ) → List (List ℕ) → Type 0
Grows total previous [] = Unit
Grows total previous (counters ∷ samples) =
    (previous ≤ current_of counters)
    × (current_of counters ≤ total)
    × Grows total (current_of counters) samples

-- Some sample has all items.
abbrev pub Reaches : (total : ℕ) → List (List ℕ) → Type 0
Reaches total [] = ⊥
Reaches total (counters ∷ samples) = (current_of counters ≡ total) ⊎ Reaches total samples

-- When the counters only grow, to a total that is not 0 and that some sample reaches, the loop ends,
-- and it has reported increasing values of which the last is the total.
pub report-Climbs :
    (total previous : ℕ) (samples : List (List ℕ))
    → total ≢ 0
    → previous < total
    → Grows total previous samples
    → Reaches total samples
    → (reported : List ℕ) × (report total previous samples ≡ some reported)
      × Climbs total previous reported
unfolding report
report-Climbs total previous [] positive less grows reaches = absurd reaches
report-Climbs total previous (counters ∷ samples) positive less (up, bound, grows) reaches =
    let c = current_of counters in
    elim (Bool-cases (c == 0)) [
      | inl none_yet ↦
          let same : c ≡ previous = ground arith in
          let later : Reaches total samples = elim reaches [
            | inl done ↦ absurd (ground arith)
            | inr later ↦ later
          ] in
          let (reported, ends, climbs) =
            report-Climbs total previous samples positive less
              (subst (λ k. Grows total k samples) same grows) later in
          (reported, rw none_yet ends, climbs)
      | inr some_done ↦ elim (Bool-cases (c == total)) [
        | inl done ↦
            let new : (c == previous) ≡ false = ground arith in
            (c ∷ [], rw (some_done, done, new) refl, (ground arith, ground arith))
        | inr waiting ↦
            let later : Reaches total samples = elim reaches [
              | inl done ↦ absurd (ground arith)
              | inr later ↦ later
            ] in
            let below : c < total = ground arith in
            let (reported, ends, climbs) =
              report-Climbs total c samples positive below grows later in
            elim (Bool-cases (c == previous)) [
              | inl old ↦
                  let same : c ≡ previous = ground arith in
                  (
                    reported,
                    rw (some_done, waiting, old)
                        (ap (report_then [])
                          (subst (λ k. report total k samples ≡ some reported) same ends)),
                    subst (λ k. Climbs total k reported) same climbs,
                  )
              | inr new ↦ (
                c ∷ reported,
                rw (some_done, waiting, new) (ap (report_then (c ∷ [])) ends),
                (ground arith, climbs),
              )
            ]
      ]
    ]
