-- ===== src/ReachableFunction/Tests.antt =====
-- Merging and selection on small inputs.
use mull.Base.{ℕ, ◌≡◌, ◌==◌, List, [], ◌∷◌, ◌++◌, Bool, map, distinct}
use mull.ReachableFunction.{
  ReachableFunction, FunctionUnderTest, merge_reachable_functions, select_instructions,
}
use mull.ReachableFunction.Merging.{functions_of, grouped, merge_reachable_functions-grouped}
use mull.ReachableFunction.Selection.{filter, none_skips, select_instructions-filter}

abbrev reached_twice : List ReachableFunction
reached_twice =
    record { function = 5; test = 1; distance = 1 }
    ∷ record { function = 6; test = 1; distance = 2 }
    ∷ record { function = 5; test = 2; distance = 3 }
    ∷ []

merge_reachable_functions-grouped_example :
    merge_reachable_functions reached_twice
    ≡ map (grouped reached_twice) (distinct (functions_of reached_twice))
merge_reachable_functions-grouped_example = merge_reachable_functions-grouped reached_twice

abbrev tested : FunctionUnderTest
tested = record { function = 5; reachable_tests = (1, 1) ∷ []; selected_instructions = 7 ∷ [] }

abbrev filters : List (ℕ → Bool)
filters = (λ i. i == 2) ∷ (λ i. i == 3) ∷ []

select_instructions-filter_case :
    select_instructions filters (1 ∷ 2 ∷ 3 ∷ 4 ∷ []) tested ≡ record tested {
      selected_instructions = (7 ∷ []) ++ filter (λ i. none_skips i filters) (1 ∷ 2 ∷ 3 ∷ 4 ∷ []);
    }
select_instructions-filter_case = select_instructions-filter filters (1 ∷ 2 ∷ 3 ∷ 4 ∷ []) tested
