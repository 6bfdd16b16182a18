-- ===== src/Mutators/Tests.antt =====
-- Requests to the factory.
use mull.Base.{
  ◌≡◌, ◌↔◌, refl, subst, inl, inr, List, [], ◌∷◌, ◌++◌, some, true, false, String, String_discrete,
  IsIn,
}
use mull.Base.Dict.{lookup, insert}
use mull.Base.Names.{IsDistinct}
use mull.Mutators.Factory.{Selection, goes_on, init, mutators, expand_groups, chosen_groups}
use mull.Mutators.Factory.Registry.{registered, groups_mapping, all_mutators_group}
use mull.Mutators.Factory.Flattening.{IsLeaf, name}
use mull.Mutators.Factory.Expansion.{
  identifiers, expand_groups-IsLeaf, IsLeaf-registered, IsLeaf-all,
}
use mull.Mutators.Factory.Taking.{found, unknown, no_valid, cut}
use mull.Mutators.Factory.Selected.{mutators-found, IsKnown, mutators-IsKnown}

abbrev request : List String
request = "cxx_logical" ∷ "negate_mutator" ∷ []

abbrev odd_request : List String
odd_request = "cxx_logical" ∷ "no_such_mutator" ∷ []

request-IsKnown : (g : String) → IsIn g request → IsKnown g
unfolding groups_mapping lookup insert String_discrete
request-IsKnown g (inl e) = subst IsKnown e (inl (_, refl))
request-IsKnown g (inr (inl e)) = subst IsKnown e (inr (inl refl))
request-IsKnown g (inr (inr n)) = absurd n

mutators-IsKnown_example :
    (s : Selection) × (mutators true request [] ≡ some (goes_on s))
    × IsDistinct (identifiers s.mutators)
    × ((a : String)
        → IsIn a (identifiers s.mutators) ↔ IsLeaf groups_mapping a (chosen_groups request))
    × (s.warnings ≡ [])
mutators-IsKnown_example = mutators-IsKnown true request [] request-IsKnown

mutators-found_example :
    (expanded : List String) × (s : Selection) × (expand_groups 5
        (chosen_groups odd_request)
        groups_mapping
        []
      ≡ some expanded)
    × (mutators false odd_request [] ≡ some (goes_on s))
    × (mutators true odd_request [] ≡ some (cut s.warnings (goes_on s)))
    × (s.mutators ≡ found (init []) expanded)
    × (s.warnings ≡ unknown (init []) expanded ++ no_valid s.mutators)
mutators-found_example = mutators-found odd_request []

expand_groups-IsLeaf_example :
    (expanded : List String) × (expand_groups 5 odd_request groups_mapping [] ≡ some expanded)
    × IsDistinct expanded
    × ((a : String) → IsIn a expanded ↔ IsLeaf groups_mapping a odd_request)
expand_groups-IsLeaf_example = expand_groups-IsLeaf odd_request

abbrev logical_members : List String
logical_members = "cxx_logical_and_to_or" ∷ "cxx_logical_or_to_and" ∷ []

logical_group : lookup String_discrete "cxx_logical" groups_mapping ≡ some logical_members
unfolding groups_mapping lookup insert String_discrete
logical_group = refl

logical-IsLeaf : IsLeaf groups_mapping "cxx_logical_or_to_and" logical_members
unfolding groups_mapping lookup insert String_discrete
logical-IsLeaf = name (inr (inl refl)) refl

IsLeaf-registered_case : IsIn "cxx_logical_or_to_and" (identifiers registered)
IsLeaf-registered_case =
    IsLeaf-registered "cxx_logical" "cxx_logical_or_to_and" logical_members logical_group
      logical-IsLeaf

IsLeaf-all_case :
    IsLeaf groups_mapping "negate_mutator" (all_mutators_group ∷ [])
    ↔ IsIn "negate_mutator" (identifiers registered)
IsLeaf-all_case = IsLeaf-all "negate_mutator"
