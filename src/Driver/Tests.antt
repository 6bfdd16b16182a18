-- ===== src/Driver/Tests.antt =====
-- Two tests of which one fails, one mutator that finds a mutant in each selected instruction.
use mull.Base.{
  ℕ, ◌+◌, ◌*◌, ◌≡◌, refl, List, [], ◌∷◌, some, ◌==◌, ltb, if◌then◌else◌, length, arith, ℕ_discrete,
}
use mull.Base.Dict.{lookup, insert, erase}
use mull.Parallelization.Execution.{flat_map}
use mull.ReachableFunction.{
  ReachableFunction, merge_reachable_functions, merge_all, merge_one, list_merged,
  select_instructions, select_loop, is_selected, add_reachable_test, function_under_test,
}
use mull.ReachableFunction.Selection.{filter, none_skips}
use mull.Sandbox.{ExecutionStatus, passed, failed}
use mull.Sandbox.Passing.{status_discrete}
use mull.Driver.{Driver, MutationPoint, filtered_mutations, dry_run_mutations, dry_run_results}
use mull.Driver.Sequential.{
  filtered_mutations-flat_map, reached_by_passing, functions_under_test, points_in,
  dry_run_mutations-flat_map,
}

abbrev status_of : ℕ → ExecutionStatus
status_of test = if test == 1 then passed else failed

abbrev reached_by : ℕ → List ReachableFunction
reached_by test =
    record { function = 5; test = test; distance = 0 }
    ∷ record { function = 6; test = test; distance = 1 }
    ∷ []

abbrev instructions_of : ℕ → List ℕ
instructions_of f = (f * 10) ∷ (f * 10 + 1) ∷ (f * 10 + 2) ∷ []

abbrev driver : Driver
driver = record {
  workers = 2;
  test_execution_workers = 3;
  run = status_of;
  reachable = reached_by;
  function_filters = [];
  instruction_filters = (λ i. ltb 61 i) ∷ [];
  instructions = instructions_of;
  finder_mutators = (λ u. u.selected_instructions) ∷ [];
  mutation_filters = (λ p. p.id == 60) ∷ [];
}

abbrev tests : List ℕ
tests = 1 ∷ 2 ∷ []

merged_length : length (merge_reachable_functions (reached_by_passing driver tests)) ≡ 1
unfolding merge_reachable_functions merge_all merge_one list_merged function_under_test
    add_reachable_test lookup insert erase ℕ_discrete status_discrete
merged_length = refl

functions_length : length (functions_under_test driver tests) ≡ 1
unfolding merge_reachable_functions merge_all merge_one list_merged function_under_test
    add_reachable_test lookup insert erase ℕ_discrete status_discrete
functions_length = refl

points_length :
    length (flat_map (points_in driver.finder_mutators) (functions_under_test driver tests)) ≡ 2
unfolding merge_reachable_functions merge_all merge_one list_merged function_under_test
    add_reachable_test lookup insert erase ℕ_discrete status_discrete select_instructions
    select_loop is_selected
points_length = refl

filtered_mutations-flat_map_example :
    filtered_mutations driver tests
    ≡ some (
        filter
          (λ p. none_skips p driver.mutation_filters)
          (flat_map (points_in driver.finder_mutators) (functions_under_test driver tests)))
filtered_mutations-flat_map_example =
    filtered_mutations-flat_map driver tests (omega arith) (omega arith) (omega arith)
      (omega (arith, merged_length)) (omega (arith, functions_length))
      (omega (arith, points_length))

abbrev points : List MutationPoint
points = record { id = 61; reachable_tests = (1, 1) ∷ (2, 4) ∷ [] } ∷ []

dry_run_mutations-flat_map_case :
    dry_run_mutations 2 (λ test. test + 3) points
    ≡ some (flat_map (λ p. dry_run_results (λ test. test + 3) p.id p.reachable_tests) points)
dry_run_mutations-flat_map_case =
    dry_run_mutations-flat_map 2 (λ test. test + 3) points (omega arith) (omega arith)
