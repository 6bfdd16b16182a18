-- ===== src/Reporters/Ide/Tests.antt =====
-- Three mutants, one of which is killed by one of two tests.
use mull.Base.{ℕ, ◌*◌, ◌/◌, List, [], ◌∷◌, some, none, true, false, not, ◌≡◌, refl, arith}
use mull.Sandbox.{ExecutionStatus}
use mull.ReachableFunction.Selection.{filter}
use mull.Reporters.Ide.{
  Execution, SourceLocation, title, mutant, score, report_results, killed_mutants, mutant_survived,
  print_mutant, print_mutants, caret_line, blanks,
}
use mull.Reporters.Ide.Counts.{expected, is_killed, report_results-expected}

abbrev rounded_down : ℕ → ℕ → ℕ
rounded_down killed total = (100 * killed) / total

abbrev executions : List Execution
executions =
    record { mutation_point = 2; status = ExecutionStatus.passed }
    ∷ record { mutation_point = 2; status = ExecutionStatus.failed }
    ∷ record { mutation_point = 3; status = ExecutionStatus.passed }
    ∷ []

abbrev location : ℕ → SourceLocation
location m = record { line = m; column = 2 }

-- A tab, two letters and a newline.
abbrev source_line : ℕ → List ℕ
source_line m = 9 ∷ 97 ∷ 98 ∷ 10 ∷ []

abbrev caret : List ℕ
caret = 9 ∷ 94 ∷ []

two_survive :
    report_results location source_line rounded_down true (1 ∷ 2 ∷ 3 ∷ []) executions
    ≡ some (
        title false 1 3
        ∷ mutant false 2 (source_line 2) caret
        ∷ title true 2 3
        ∷ mutant true 1 (source_line 1) caret
        ∷ mutant true 3 (source_line 3) caret
        ∷ score 33
        ∷ [])
unfolding report_results killed_mutants mutant_survived print_mutants print_mutant caret_line blanks
two_survive = refl

report_results-expected_example :
    report_results location source_line rounded_down true (1 ∷ 2 ∷ 3 ∷ []) executions
    ≡ some (
        expected location source_line rounded_down true
          (filter (is_killed executions) (1 ∷ 2 ∷ 3 ∷ []))
          (filter (λ m. not (is_killed executions m)) (1 ∷ 2 ∷ 3 ∷ []))
          (1 ∷ 2 ∷ 3 ∷ []))
report_results-expected_example =
    report_results-expected location source_line rounded_down true 1 (2 ∷ 3 ∷ []) executions
      (omega arith) (omega arith) (refl, (refl, (refl, tt)))

-- A column of 0 writes in front of the string.
no_column : caret_line (97 ∷ 98 ∷ []) 0 ≡ none
unfolding caret_line blanks
no_column = refl

-- A mutant without debug information, or with a column past its line, ends the report.
no_location : print_mutant (λ m. record { line = 0; column = 0 }) source_line true 1 ≡ none
unfolding print_mutant caret_line
no_location = refl

past_the_line : print_mutant (λ m. record { line = 1; column = 4 }) source_line true 1 ≡ none
unfolding print_mutant caret_line
past_the_line = refl
