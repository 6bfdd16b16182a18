-- ===== src/ReachableFunction.antt =====
-- lib/ReachableFunction.cpp and include/mull/ReachableFunction.h: the functions that tests reach,
-- merged into one entry for each function, and the instructions selected in it. Functions, tests
-- and instructions are numbers.
mod Tests
pub mod Merging
pub mod Selection
use mull.Base.{
  ℕ, List, [], ◌∷◌, ◌++◌, Option, none, some, Bool, true, false, if◌then◌else◌, ℕ_discrete,
}
use mull.Base.Dict.{lookup, insert, erase}

pub record ReachableFunction : Type 0 where
  pub function : ℕ
  pub test : ℕ
  pub distance : ℕ

pub record FunctionUnderTest : Type 0 where
  pub function : ℕ
  pub reachable_tests : List (ℕ × ℕ)
  pub selected_instructions : List ℕ

unfoldable pub add_reachable_test : FunctionUnderTest → ℕ → ℕ → FunctionUnderTest
add_reachable_test u test distance = record u {
  reachable_tests = u.reachable_tests ++ (test, distance) ∷ [];
}

-- The constructor.
unfoldable pub function_under_test : ℕ → ℕ → ℕ → FunctionUnderTest
unfolding add_reachable_test
function_under_test function test distance =
    add_reachable_test
      (record { function = function; reachable_tests = []; selected_instructions = [] }) test
      distance

abbrev pub FunctionsMap : Type 0
FunctionsMap = List (ℕ × FunctionUnderTest)

-- The body of the first loop of `mergeReachableFunctions`.
unfoldable pub merge_one : ReachableFunction → FunctionsMap → FunctionsMap
unfolding add_reachable_test function_under_test
merge_one r m = elim (lookup ℕ_discrete r.function m) [
  | some merged ↦ insert ℕ_discrete r.function (add_reachable_test merged r.test r.distance) m
  | none ↦ insert ℕ_discrete r.function (function_under_test r.function r.test r.distance) m
]

unfoldable pub merge_all : List ReachableFunction → FunctionsMap → FunctionsMap
unfolding merge_one
merge_all [] m = m
merge_all (r ∷ rs) m = merge_all rs (merge_one r m)

-- The second loop: it stops when the map is empty.
unfoldable pub list_merged : List ReachableFunction → FunctionsMap → List FunctionUnderTest
list_merged [] m = []
list_merged (r ∷ rs) [] = []
list_merged (r ∷ rs) (entry ∷ m) = elim (lookup ℕ_discrete r.function (entry ∷ m)) [
  | some u ↦ u ∷ list_merged rs (erase ℕ_discrete r.function (entry ∷ m))
  | none ↦ list_merged rs (entry ∷ m)
]

unfoldable pub merge_reachable_functions : List ReachableFunction → List FunctionUnderTest
unfolding merge_all list_merged
merge_reachable_functions rs = list_merged rs (merge_all rs [])

-- The inner loop of `selectInstructions`, which stops at the first filter that skips.
unfoldable pub is_selected : List (ℕ → Bool) → ℕ → Bool
is_selected [] instruction = true
is_selected (should_skip ∷ filters) instruction =
    if should_skip instruction then false else is_selected filters instruction

-- `selectInstructions` over the instructions of the function.
unfoldable pub select_loop : List (ℕ → Bool) → List ℕ → List ℕ → List ℕ
unfolding is_selected
select_loop filters [] selected = selected
select_loop filters (i ∷ rest) selected =
    select_loop filters rest (if is_selected filters i then selected ++ i ∷ [] else selected)

unfoldable pub select_instructions :
    List (ℕ → Bool) → List ℕ → FunctionUnderTest → FunctionUnderTest
unfolding select_loop
select_instructions filters instructions u = record u {
  selected_instructions = select_loop filters instructions u.selected_instructions;
}
