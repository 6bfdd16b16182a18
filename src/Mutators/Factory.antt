-- ===== src/Mutators/Factory.antt =====
-- lib/Mutators/MutatorsFactory.cpp: the groups of mutators, the register of mutators and the
-- mutators that a list of names selects; warning of lib/Diagnostics/Diagnostics.cpp as far as it can end
-- the program. A `std::set` of names is a list in the order of the names.
pub mod Registry
pub mod Flattening
pub mod Expansion
pub mod Taking
pub mod Selected
use mull.Base.{
  ℕ, zero, suc, List, [], ◌∷◌, ◌++◌, Option, none, some, String, String_discrete, concat, Bool,
  if◌then◌else◌,
}
use mull.Base.Dict.{lookup, insert, erase}
use mull.Base.Names.{set_insert}
use mull.Mutators.Factory.Registry.{Mutator, registered, groups_mapping, cxx_default}

abbrev pub GroupsMapping : Type 0
GroupsMapping = List (String × List String)

abbrev pub MutatorsMapping : Type 0
MutatorsMapping = List (String × Mutator)

-- The loop of `expandGroups`, where `expand` is the call on the members of a group.
pub expand_loop :
    (expand : List String → List String → Option (List String))
    → List String
    → GroupsMapping
    → List String
    → Option (List String)
expand_loop expand [] mapping expanded = some expanded
expand_loop expand (group ∷ groups) mapping expanded = elim (lookup String_discrete group mapping) [
  | none ↦ expand_loop expand groups mapping (set_insert group expanded)
  | some members ↦ elim (expand members expanded) [
    | none ↦ none
    | some more ↦ expand_loop expand groups mapping more
  ]
]

-- `expandGroups`, to the depth that the first argument allows; `none` means deeper.
pub expand_groups : ℕ → List String → GroupsMapping → List String → Option (List String)
unfolding expand_loop
expand_groups zero groups mapping expanded = none
expand_groups (suc depth) groups mapping expanded =
    expand_loop (λ members more. expand_groups depth members mapping more) groups mapping expanded

pub add_mutator : Mutator → MutatorsMapping → MutatorsMapping
add_mutator m mapping = insert String_discrete m.unique_identifier m mapping

pub add_all : List Mutator → MutatorsMapping → MutatorsMapping
unfolding add_mutator
add_all [] mapping = mapping
add_all (m ∷ rest) mapping = add_all rest (add_mutator m mapping)

pub init : MutatorsMapping → MutatorsMapping
unfolding add_all
init mapping = add_all registered mapping

-- The mutators handed out, the register that is left and the warnings given.
pub record Selection : Type 0 where
  pub mutators : List Mutator
  pub mutators_mapping : MutatorsMapping
  pub warnings : List String

-- The program goes on, or has exited after these warnings.
pub data Run : Type 0 where
  goes_on : Selection → Run
  exits : (warnings : List String) → Run

abbrev pub and_then : Run → (Selection → Run) → Run
and_then (goes_on s) next = next s
and_then (exits warnings) next = exits warnings

-- `Diagnostics::warning`, which exits in strict mode.
abbrev pub warning : (strict : Bool) → (message : String) → Selection → Run
warning strict message s =
    let warnings = s.warnings ++ message ∷ [] in
    if strict then exits warnings else goes_on (record s { warnings = warnings })

-- The loop of `mutators` over the expanded names.
pub take_mutators : (strict : Bool) → List String → Selection → Run
take_mutators strict [] s = goes_on s
take_mutators strict (group ∷ rest) s = elim (lookup String_discrete group s.mutators_mapping) [
  | none ↦
      and_then (warning strict (concat "Unknown mutator: " group) s)
        λ t. take_mutators strict rest t
  | some m ↦ take_mutators strict rest (record {
    mutators = s.mutators ++ m ∷ [];
    warnings = s.warnings;
    mutators_mapping = erase String_discrete group s.mutators_mapping;
  })
]

-- The warning when nothing was selected.
pub check_empty : (strict : Bool) → Selection → Run
check_empty strict s = elim s.mutators [
  | [] ↦ warning strict "No valid mutators specified." s
  | m ∷ ms ↦ goes_on s
]

abbrev pub chosen_groups : List String → List String
chosen_groups [] = cxx_default ∷ []
chosen_groups (group ∷ groups) = group ∷ groups

-- The part of `mutators` after the expansion.
abbrev pub take_expanded : (strict : Bool) → MutatorsMapping → Option (List String) → Option Run
take_expanded strict mapping none = none
take_expanded strict mapping (some expanded) =
    let start : Selection = record { mutators = []; mutators_mapping = mapping; warnings = [] } in
    some (and_then (take_mutators strict expanded start) (check_empty strict))

-- Five levels are enough for the built-in groups.
pub mutators : (strict : Bool) → List String → MutatorsMapping → Option Run
unfolding expand_groups init take_mutators check_empty
mutators strict groups mapping =
    take_expanded strict (init mapping) (expand_groups 5 (chosen_groups groups) groups_mapping [])
