-- ===== src/Mutators/Logical/OrToAnd.antt =====
-- lib/Mutators/CXX/LogicalOrToAnd.cpp. A failed assertion is `none`.
pub mod Truth
use mull.Base.{ℕ, List, [], ◌∷◌, Option, none, some, Bool, true, false, ◌==◌}
use mull.Mutators.Logical.{
  Branch, Block, Function, Pattern, pattern1, pattern2, pattern3, block_at, modify, successors,
  replace_branch, accept_jumps, phi_joins, branches, flip_first_phi, redirect, flip_then, flip_at,
}

-- The loops of `findPossibleMutationInBranch` over the conditional branches of the function.
unfoldable pub find_in :
    Branch → (passed : Bool) → List (Branch × Block) → Option (Pattern × Branch)
unfolding phi_joins
find_in b passed [] = none
find_in b passed ((c, block) ∷ rest) = elim (c.id == b.id) [
  | true ↦ find_in b true rest
  | false ↦ elim passed [
    | false ↦ find_in b false rest
    | true ↦ elim (c.left == b.left) [
      | true ↦ some (pattern1, c)
      | false ↦ elim (c.left == b.right) [
        | true ↦ some (pattern2, c)
        | false ↦ elim (phi_joins b.parent (c.parent == b.left) block) [
          | true ↦ some (pattern3, c)
          | false ↦ find_in b true rest
        ]
      ]
    ]
  ]
]

unfoldable pub find_possible_mutation_in_branch : Function → Branch → Option (Pattern × Branch)
unfolding find_in
find_possible_mutation_in_branch f b = find_in b false (branches f)

pub apply_pattern1 : (first second : Branch) → Function → Function
unfolding modify replace_branch accept_jumps
apply_pattern1 first second f =
    let g = redirect first first.right second.right f in
    accept_jumps second.right second.parent first.parent (successors second.parent g) g

pub apply_pattern2 : (first second : Branch) → Function → Function
unfolding modify replace_branch accept_jumps
apply_pattern2 first second f =
    let g = redirect first second.right first.left f in
    accept_jumps second.right second.parent first.parent (successors second.parent g) g

pub apply_pattern3 : (first second : Branch) → Function → Option Function
unfolding modify replace_branch flip_first_phi
apply_pattern3 first second f = flip_then first second f (flip_at (block_at second.parent f))

abbrev apply_found : Branch → Function → Option (Pattern × Branch) → Option Function
apply_found b f none = some f
apply_found b f (some (pattern1, second)) = some (apply_pattern1 b second f)
apply_found b f (some (pattern2, second)) = some (apply_pattern2 b second f)
apply_found b f (some (pattern3, second)) = apply_pattern3 b second f

-- `applyMutation` at the branch that the address names.
pub apply_mutation : Function → Branch → Option Function
unfolding find_possible_mutation_in_branch
apply_mutation f b = apply_found b f (find_possible_mutation_in_branch f b)

abbrev points_from : Function → List (Branch × Block) → List ℕ
points_from f [] = []
points_from f ((b, block) ∷ rest) = elim (find_possible_mutation_in_branch f b) [
  | none ↦ points_from f rest
  | some found ↦ b.id ∷ points_from f rest
]

-- `getMutations`: the branches with a possible mutation, by their identities.
pub get_mutations : Function → List ℕ
unfolding find_possible_mutation_in_branch
get_mutations f = points_from f (branches f)
