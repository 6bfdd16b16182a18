-- ===== src/Parallelization/Tests.antt =====
-- Five items for two or three workers.
use mull.Base.{
  ℕ, ◌+◌, ◌-◌, ◌/◌, ◌%◌, ◌≡◌, ◌==◌, ltb, append_assoc, append-nil, sym, ◌∙◌, List, [], ◌∷◌, ◌++◌,
  some, arith, Bool, refl, inl, inr,
}
use mull.Parallelization.{Task, task_batches, execute, filter_mutations, replicate}
use mull.Parallelization.Batches.{task_batches-even}
use mull.Parallelization.Execution.{flat_map, Appends, execute-flat_map}
use mull.Parallelization.Filtering.{filter_mutations-filter}
use mull.Parallelization.Progress.{report}
use mull.Parallelization.Progress.Ends.{Climbs, report-Climbs}
use mull.ReachableFunction.Selection.{filter, none_skips}

abbrev items : List ℕ
items = 1 ∷ 2 ∷ 3 ∷ 4 ∷ 5 ∷ []

task_batches-even_example :
    task_batches 5 3 ≡ some (replicate (5 % 3) (5 / 3 + 1) ++ replicate (3 - 5 % 3) (5 / 3))
task_batches-even_example = task_batches-even 5 3 (omega arith) (omega arith) (omega arith)

abbrev twice : ℕ → List ℕ
twice x = x ∷ x ∷ []

abbrev twice_task : Task ℕ ℕ
twice_task [] out = out
twice_task (x ∷ xs) out = twice_task xs (out ++ x ∷ x ∷ [])

twice_task-Appends : Appends twice twice_task
twice_task-Appends [] out = sym (append-nil out)
twice_task-Appends (x ∷ xs) out =
    twice_task-Appends xs (out ++ x ∷ x ∷ []) ∙ append_assoc out (x ∷ x ∷ []) (flat_map twice xs)

execute-flat_map_example :
    execute (twice_task ∷ twice_task ∷ []) items [] ≡ some ([] ++ flat_map twice items)
execute-flat_map_example =
    execute-flat_map twice (twice_task ∷ twice_task ∷ []) items []
      (twice_task-Appends, (twice_task-Appends, tt)) (omega arith) (omega arith)

abbrev filters : List (ℕ → Bool)
filters = (λ i. i == 2) ∷ (λ i. ltb 4 i) ∷ []

filter_mutations-filter_example :
    filter_mutations 3 filters items ≡ some (filter (λ i. none_skips i filters) items)
filter_mutations-filter_example =
    filter_mutations-filter 3 filters items (omega arith) (omega arith)

-- Two workers, the second of which starts late.
abbrev samples : List (List ℕ)
samples = (0 ∷ 0 ∷ []) ∷ (2 ∷ 0 ∷ []) ∷ (2 ∷ 0 ∷ []) ∷ (3 ∷ 2 ∷ []) ∷ []

report-Climbs_example :
    (reported : List ℕ) × (report 5 0 samples ≡ some reported) × Climbs 5 0 reported
report-Climbs_example =
    report-Climbs 5 0 samples (λ e. absurd (omega arith)) (omega arith)
      (
        omega arith,
        omega arith,
        (omega arith, omega arith, (omega arith, omega arith, (omega arith, omega arith, tt))),
      )
      (inr (inr (inr (inl refl))))
