-- ===== src/Mutators/Logical/Tests.antt =====
-- The logical mutators on small functions.
use mull.Base.{
  ℕ, zero, ℕ_discrete, ◌≡◌, refl, [], ◌∷◌, Option, none, some, Bool, true, false, not, ◌&&◌, ◌||◌,
  if◌then◌else◌, arith,
}
use mull.Base.Dict.{lookup}
use mull.Mutators.Logical.{
  Branch, Block, Function, block_at, pattern1, pattern2, pattern3, constant, local, conditional,
  jump, phi, other, modify, terminator, replace_branch, accept_in_block, accept_jumps,
  has_other_incoming, phi_joins,
}
use mull.Mutators.Logical.Control.{truth, arrives, Ends}
use mull.Mutators.Logical.Phis.{Joins, joined}
use mull.Mutators.Logical.AndToOr
use mull.Mutators.Logical.AndToOr.Truth.{
  apply_mutation-or, apply_mutation-or_not, apply_mutation-joined,
}
use mull.Mutators.Logical.OrToAnd
use mull.Mutators.Logical.OrToAnd.Truth.{
  apply_mutation-and, apply_mutation-and_not, apply_mutation-joined_and,
}

-- The locals 0 and 1 are the operands of the source's condition.
abbrev values : ℕ → Bool
values zero = true
values _ = false

abbrev entry : ℕ → ℕ → Branch
entry l r = record { id = 10; parent = 0; condition = local 0; left = l; right = r }

abbrev second : ℕ → ℕ → Branch
second l r = record { id = 11; parent = 1; condition = local 1; left = l; right = r }

-- The blocks 2 and 3 are the two ways that the condition can come out.
abbrev if_else : Branch → Branch → Function
if_else b c =
    (0, conditional b ∷ [])
    ∷ (1, other 20 ∷ conditional c ∷ [])
    ∷ (2, jump 4 ∷ [])
    ∷ (3, jump 4 ∷ [])
    ∷ (4, phi 21 ((constant true, 2) ∷ (constant false, 3) ∷ []) ∷ other 22 ∷ [])
    ∷ []

-- The joined value stands in a phi node of block 2, which a branch of that block reads.
abbrev reader : Branch
reader = record { id = 12; parent = 2; condition = local 21; left = 3; right = 4 }

abbrev join : Branch → Bool → Function
join b k =
    (0, conditional b ∷ [])
    ∷ (1, other 20 ∷ jump 2 ∷ [])
    ∷ (2, phi 21 ((constant k, 0) ∷ (local 1, 1) ∷ []) ∷ conditional reader ∷ [])
    ∷ (3, other 22 ∷ [])
    ∷ (4, other 23 ∷ [])
    ∷ []

abbrev conjunction : Function
conjunction = if_else (entry 1 3) (second 2 3)

conjunction-found :
    AndToOr.find_possible_mutation_in_branch conjunction (entry 1 3) ≡ some (pattern1, second 2 3)
unfolding AndToOr.find_possible_mutation_in_branch AndToOr.find_in phi_joins has_other_incoming
conjunction-found = refl

conjunction-Ends : Ends conjunction (entry 1 3) × Ends conjunction (second 2 3)
unfolding lookup terminator ℕ_discrete
conjunction-Ends = (refl, refl)

apply_mutation-or_example :
    (arrives values conjunction 0 1
      ≡ some (if truth values (local 0) && truth values (local 1) then 2 else 3))
    × (g : Function) × (AndToOr.apply_mutation conjunction (entry 1 3) ≡ some g)
    × (arrives values g 0 1
        ≡ some (if truth values (local 0) || truth values (local 1) then 2 else 3))
apply_mutation-or_example =
    apply_mutation-or values conjunction (entry 1 3) (second 2 3) conjunction-found
      conjunction-Ends.0 conjunction-Ends.1 refl (ground arith) (ground arith) (ground arith)

abbrev negated_conjunction : Function
negated_conjunction = if_else (entry 3 1) (second 2 3)

negated_conjunction-found :
    AndToOr.find_possible_mutation_in_branch negated_conjunction (entry 3 1)
    ≡ some (pattern2, second 2 3)
unfolding AndToOr.find_possible_mutation_in_branch AndToOr.find_in phi_joins has_other_incoming
negated_conjunction-found = refl

negated_conjunction-Ends :
    Ends negated_conjunction (entry 3 1) × Ends negated_conjunction (second 2 3)
unfolding lookup terminator ℕ_discrete
negated_conjunction-Ends = (refl, refl)

apply_mutation-or_not_example :
    (arrives values negated_conjunction 0 1
      ≡ some (if not (truth values (local 0)) && truth values (local 1) then 2 else 3))
    × (g : Function) × (AndToOr.apply_mutation negated_conjunction (entry 3 1) ≡ some g)
    × (arrives values g 0 1
        ≡ some (if not (truth values (local 0)) || truth values (local 1) then 2 else 3))
apply_mutation-or_not_example =
    apply_mutation-or_not values negated_conjunction (entry 3 1) (second 2 3)
      negated_conjunction-found negated_conjunction-Ends.0 negated_conjunction-Ends.1 refl
      (ground arith) (ground arith) (ground arith)

abbrev disjunction : Function
disjunction = if_else (entry 2 1) (second 2 3)

disjunction-found :
    OrToAnd.find_possible_mutation_in_branch disjunction (entry 2 1) ≡ some (pattern1, second 2 3)
unfolding OrToAnd.find_possible_mutation_in_branch OrToAnd.find_in phi_joins has_other_incoming
disjunction-found = refl

disjunction-Ends : Ends disjunction (entry 2 1) × Ends disjunction (second 2 3)
unfolding lookup terminator ℕ_discrete
disjunction-Ends = (refl, refl)

apply_mutation-and_example :
    (arrives values disjunction 0 1
      ≡ some (if truth values (local 0) || truth values (local 1) then 2 else 3))
    × (g : Function) × (OrToAnd.apply_mutation disjunction (entry 2 1) ≡ some g)
    × (arrives values g 0 1
        ≡ some (if truth values (local 0) && truth values (local 1) then 2 else 3))
apply_mutation-and_example =
    apply_mutation-and values disjunction (entry 2 1) (second 2 3) disjunction-found
      disjunction-Ends.0 disjunction-Ends.1 refl (ground arith) (ground arith) (ground arith)

abbrev negated_disjunction : Function
negated_disjunction = if_else (entry 1 2) (second 2 3)

negated_disjunction-found :
    OrToAnd.find_possible_mutation_in_branch negated_disjunction (entry 1 2)
    ≡ some (pattern2, second 2 3)
unfolding OrToAnd.find_possible_mutation_in_branch OrToAnd.find_in phi_joins has_other_incoming
negated_disjunction-found = refl

negated_disjunction-Ends :
    Ends negated_disjunction (entry 1 2) × Ends negated_disjunction (second 2 3)
unfolding lookup terminator ℕ_discrete
negated_disjunction-Ends = (refl, refl)

apply_mutation-and_not_example :
    (arrives values negated_disjunction 0 1
      ≡ some (if not (truth values (local 0)) || truth values (local 1) then 2 else 3))
    × (g : Function) × (OrToAnd.apply_mutation negated_disjunction (entry 1 2) ≡ some g)
    × (arrives values g 0 1
        ≡ some (if not (truth values (local 0)) && truth values (local 1) then 2 else 3))
apply_mutation-and_not_example =
    apply_mutation-and_not values negated_disjunction (entry 1 2) (second 2 3)
      negated_disjunction-found negated_disjunction-Ends.0 negated_disjunction-Ends.1 refl
      (ground arith) (ground arith) (ground arith)

abbrev join_of_conjunction : Function
join_of_conjunction = join (entry 1 2) false

join_of_conjunction-found :
    AndToOr.find_possible_mutation_in_branch join_of_conjunction (entry 1 2)
    ≡ some (pattern3, reader)
unfolding AndToOr.find_possible_mutation_in_branch AndToOr.find_in phi_joins has_other_incoming
join_of_conjunction-found = refl

join_of_conjunction-Ends : Ends join_of_conjunction (entry 1 2)
unfolding lookup terminator ℕ_discrete
join_of_conjunction-Ends = refl

join_of_conjunction-Joins : Joins values join_of_conjunction 2 0 1 false (local 1)
unfolding lookup terminator ℕ_discrete
join_of_conjunction-Joins = record {
  incoming = (local 1, 1) ∷ [];
  phis = refl;
  at_rhs = refl;
  goes_on = refl;
  from_apart = ground arith;
  rhs_apart = ground arith;
  rhs_from = ground arith;
}

apply_mutation-joined_example :
    (joined values join_of_conjunction 2 (entry 1 2)
      ≡ some (truth values (local 0) && truth values (local 1)))
    × (g : Function) × (AndToOr.apply_mutation join_of_conjunction (entry 1 2) ≡ some g)
    × Ends g (entry 2 1)
    × (joined values g 2 (entry 2 1) ≡ some (truth values (local 0) || truth values (local 1)))
apply_mutation-joined_example =
    apply_mutation-joined values join_of_conjunction (entry 1 2) reader (local 1)
      join_of_conjunction-found join_of_conjunction-Ends join_of_conjunction-Joins

abbrev join_of_disjunction : Function
join_of_disjunction = join (entry 2 1) true

join_of_disjunction-found :
    OrToAnd.find_possible_mutation_in_branch join_of_disjunction (entry 2 1)
    ≡ some (pattern3, reader)
unfolding OrToAnd.find_possible_mutation_in_branch OrToAnd.find_in phi_joins has_other_incoming
join_of_disjunction-found = refl

join_of_disjunction-Ends : Ends join_of_disjunction (entry 2 1)
unfolding lookup terminator ℕ_discrete
join_of_disjunction-Ends = refl

join_of_disjunction-Joins : Joins values join_of_disjunction 2 0 1 true (local 1)
unfolding lookup terminator ℕ_discrete
join_of_disjunction-Joins = record {
  incoming = (local 1, 1) ∷ [];
  phis = refl;
  at_rhs = refl;
  goes_on = refl;
  from_apart = ground arith;
  rhs_apart = ground arith;
  rhs_from = ground arith;
}

apply_mutation-joined_and_example :
    (joined values join_of_disjunction 2 (entry 2 1)
      ≡ some (truth values (local 0) || truth values (local 1)))
    × (g : Function) × (OrToAnd.apply_mutation join_of_disjunction (entry 2 1) ≡ some g)
    × Ends g (entry 1 2)
    × (joined values g 2 (entry 1 2) ≡ some (truth values (local 0) && truth values (local 1)))
apply_mutation-joined_and_example =
    apply_mutation-joined_and values join_of_disjunction (entry 2 1) reader (local 1)
      join_of_disjunction-found join_of_disjunction-Ends join_of_disjunction-Joins

-- The value of a && b && c: block 3 joins the three branches.
abbrev conjunction_of_three : Function
conjunction_of_three =
    (0, conditional (entry 1 3) ∷ [])
    ∷ (1, conditional (second 2 3) ∷ [])
    ∷ (2, other 20 ∷ jump 3 ∷ [])
    ∷ (3, phi 21 ((constant false, 0) ∷ (constant false, 1) ∷ (local 2, 2) ∷ []) ∷ other 22 ∷ [])
    ∷ []

abbrev block_of : ℕ → Option Function → Option Block
block_of n none = none
block_of n (some f) = block_at n f

-- After the mutation of the first && no way leads from block 0 to block 3, but the phi node there
-- has its value for block 0 as before.
mutated_entry :
    block_of 0 (AndToOr.apply_mutation conjunction_of_three (entry 1 3))
    ≡ some (conditional (entry 2 1) ∷ [])
unfolding lookup AndToOr.apply_mutation AndToOr.apply_pattern1
    AndToOr.find_possible_mutation_in_branch AndToOr.find_in phi_joins has_other_incoming modify
    replace_branch accept_jumps accept_in_block terminator ℕ_discrete
mutated_entry = refl

mutated_join :
    block_of 3 (AndToOr.apply_mutation conjunction_of_three (entry 1 3))
    ≡ block_at 3 conjunction_of_three
unfolding lookup AndToOr.apply_mutation AndToOr.apply_pattern1
    AndToOr.find_possible_mutation_in_branch AndToOr.find_in phi_joins has_other_incoming modify
    replace_branch accept_jumps accept_in_block terminator ℕ_discrete
mutated_join = refl
