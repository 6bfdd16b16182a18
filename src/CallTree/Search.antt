-- ===== src/CallTree/Search.antt =====
-- The two breadth-first searches of lib/Instrumentation/DynamicCallTree.cpp over a finished tree:
-- `extractTestSubtrees` and `createReachableFunctions`. A `CallTree *` is an address.
-- The searches take fuel, one unit for each node that leaves the queue; `none` is the end of the
-- fuel or a dangling pointer.
pub mod Owns
pub mod Complete
pub mod Reachable
pub mod Exact
use mull.Base.{
  ℕ, zero, suc, ◌-◌, List, [], ◌∷◌, ◌++◌, Option, none, some, Bool, ltb, if◌then◌else◌, ℕ_discrete,
}
use mathlib.Core.Logic.{ite}
use mull.CallTree.{Node}

abbrev pub bind_list {ℓ κ} :
    {A : Type ℓ} {B : Type κ} → Option (List A) → (List A → Option (List B)) → Option (List B)
bind_list none f = none
bind_list (some xs) f = f xs

pub function_discrete : Discrete (Option ℕ)
function_discrete = hlevel ℕ_discrete

-- The loop of `extractTestSubtrees`; `entry` is the test's body.
pub extract_loop : ℕ → (ℕ → Option Node) → Option ℕ → List ℕ → Option (List ℕ)
extract_loop fuel nodes entry [] = some []
extract_loop zero nodes entry (a ∷ queue) = none
extract_loop (suc fuel) nodes entry (a ∷ queue) = elim (nodes a) [
  | none ↦ none
  | some node ↦
      bind_list (extract_loop fuel nodes entry (queue ++ node.children))
        (λ rest. some (ite (function_discrete node.function entry) (a ∷ rest) rest))
]

pub extract_test_subtrees : ℕ → (ℕ → Option Node) → ℕ → Option ℕ → Option (List ℕ)
unfolding extract_loop
extract_test_subtrees fuel nodes root entry = extract_loop fuel nodes entry (root ∷ [])

-- A `ReachableFunction` without its test, which is the same for all.
pub record Reached : Type 0 where
  pub function : Option ℕ
  pub distance : ℕ

-- `distance = node->level - offset`. A node below `root` never has a smaller level.
abbrev pub reached : ℕ → Node → Reached
reached offset node = record { function = node.function; distance = node.level - offset }

-- The inner loop of `createReachableFunctions`.
pub reach_loop : ℕ → (ℕ → Option Node) → ℕ → ℕ → List ℕ → Option (List Reached)
reach_loop fuel nodes offset max_distance [] = some []
reach_loop zero nodes offset max_distance (a ∷ queue) = none
reach_loop (suc fuel) nodes offset max_distance (a ∷ queue) = elim (nodes a) [
  | none ↦ none
  | some node ↦
      bind_list
        (reach_loop fuel nodes offset max_distance
          (if ltb (node.level - offset) max_distance then queue ++ node.children else queue))
        (λ rest. some (reached offset node ∷ rest))
]

-- `createReachableFunctions`: the loop over the subtrees.
pub create_reachable_functions : ℕ → (ℕ → Option Node) → List ℕ → ℕ → Option (List Reached)
unfolding reach_loop
create_reachable_functions fuel nodes [] max_distance = some []
create_reachable_functions fuel nodes (root ∷ subtrees) max_distance = elim (nodes root) [
  | none ↦ none
  | some node ↦ bind_list (reach_loop fuel nodes node.level max_distance (root ∷ [])) (λ found.
      bind_list (create_reachable_functions fuel nodes subtrees max_distance)
        (λ rest. some (found ++ rest)))
]
