-- ===== src/Mutators/Factory/Expansion.antt =====
-- `expandGroups` (lib/Mutators/MutatorsFactory.cpp) on the built-in groups.
use mull.Base.{
  ◌≡◌, refl, sym, ap, ◌∙◌, subst, ◌↔◌, inl, inr, List, [], ◌∷◌, ◌++◌, Option, none, some, String,
  String_discrete, Bool, true, false, ◌&&◌, Option-cases, IsIn, some_injective, map,
}
use mathlib.Core.Logic.{ite}
use mull.Base.Dict.{lookup, insert}
use mull.Base.Names.{contains, contains-IsIn, IsDistinct}
use mull.Mutators.Factory.{GroupsMapping, expand_groups}
use mull.Mutators.Factory.Registry.{Mutator, registered, groups_mapping, all_mutators_group}
use mull.Mutators.Factory.Flattening.{
  flatten, insert_all, insert_all-IsIn, insert_all-IsDistinct, expand_groups-Inserts, IsLeaf,
  flatten-Finds,
}

abbrev all_in : List String → List String → Bool
all_in [] known = true
all_in (x ∷ xs) known = contains x known && all_in xs known

abbrev pub identifiers : List Mutator → List String
identifiers = map λ m. m.unique_identifier

abbrev checked : Option (List String) → Bool
checked none = false
checked (some []) = false
checked (some (x ∷ ls)) = all_in (x ∷ ls) (identifiers registered)

-- The members of a group lead, four levels deep, to some name and to registered mutators only.
abbrev check_members : List String → Bool
check_members members = checked (flatten 4 members groups_mapping)

abbrev check_groups : GroupsMapping → Bool
check_groups [] = true
check_groups ((group, members) ∷ rest) = check_members members && check_groups rest

check_groups-true : check_groups groups_mapping ≡ true
unfolding groups_mapping flatten lookup insert String_discrete
check_groups-true = refl

both : (a b : Bool) → (a && b) ≡ true → (a ≡ true) × (b ≡ true)
both true true e = (refl, refl)
both true false e = cc
both false b e = cc

check_groups-lookup :
    (mapping : GroupsMapping) (group : String) (members : List String)
    → check_groups mapping ≡ true
    → lookup String_discrete group mapping ≡ some members
    → check_members members ≡ true
unfolding lookup
check_groups-lookup [] group members ok e = cc
check_groups-lookup ((k, v) ∷ rest) group members ok e =
    elim (String_discrete k group)
        as (λ d.
          ite d (some v) (lookup String_discrete group rest) ≡ some members
          → check_members members ≡ true) [
            | yes q ↦ λ h. subst (λ x. check_members x ≡ true) (some_injective h) (both _ _ ok).0
            | no n ↦ λ h. check_groups-lookup rest group members (both _ _ ok).1 h
          ]
      e

all_in-IsIn :
    (ls known : List String) (a : String) → all_in ls known ≡ true → IsIn a ls → IsIn a known
all_in-IsIn [] known a ok n = absurd n
all_in-IsIn (x ∷ ls) known a ok (inl q) =
    subst (λ y. IsIn y known) q ((contains-IsIn x known).0 (both _ _ ok).0)
all_in-IsIn (x ∷ ls) known a ok (inr i) = all_in-IsIn ls known a (both _ _ ok).1 i

check_members-flatten :
    (members : List String)
    → check_members members ≡ true
    → (ls : List String) × (flatten 4 members groups_mapping ≡ some ls)
      × (all_in ls (identifiers registered) ≡ true)
      × ((a : String) × IsIn a ls)
check_members-flatten members ok = elim (Option-cases (flatten 4 members groups_mapping)) [
  | inl e ↦ absurd (cc (ap checked e))
  | inr (ls, e) ↦
      let (known, member) = names_of ls (sym (ap checked e) ∙ ok) in (ls, e, known, member)
]
  where
    names_of :
        (ls : List String)
        → checked (some ls) ≡ true
        → (all_in ls (identifiers registered) ≡ true) × ((a : String) × IsIn a ls)
    names_of [] k = cc
    names_of (x ∷ ls) k = (k, (x, inl refl))

-- Whatever the names, five levels are enough to flatten them.
flatten-total :
    (groups : List String) → (ls : List String) × (flatten 5 groups groups_mapping ≡ some ls)
unfolding flatten
flatten-total [] = ([], refl)
flatten-total (g ∷ gs) =
    let (bs, eb) = flatten-total gs in
    elim (Option-cases (lookup String_discrete g groups_mapping)) [
      | inl no_group ↦ (g ∷ bs, rw (no_group, eb) refl)
      | inr (members, group) ↦
          let (us, eu, _, _) =
            check_members-flatten members
              (check_groups-lookup groups_mapping g members check_groups-true group) in
          (us ++ bs, rw (group, eu, eb) refl)
    ]

-- Whatever names are asked for, the built-in groups expand within the depth given, to a list
-- without repetitions that holds exactly the names that are no group and stand in the request or,
-- through any number of groups, in a group of it.
pub expand_groups-IsLeaf :
    (groups : List String)
    → (expanded : List String) × (expand_groups 5 groups groups_mapping [] ≡ some expanded)
      × IsDistinct expanded
      × ((a : String) → IsIn a expanded ↔ IsLeaf groups_mapping a groups)
expand_groups-IsLeaf groups =
    let (ls, e) = flatten-total groups in
    (
      insert_all ls [],
      expand_groups-Inserts 5 groups_mapping groups ls [] e,
      insert_all-IsDistinct ls [] tt,
      λ a.
          let leaf = flatten-Finds 5 groups_mapping groups ls a e in
          let all = insert_all-IsIn a ls [] in
          (
            λ k. elim (all.0 k) [ inl i ↦ leaf.0 i | inr n ↦ absurd n ],
            λ l. all.1 (inl (leaf.1 l)),
          ),
    )

-- Every name that a built-in group leads to is the identifier of a mutator that `init` registers.
pub IsLeaf-registered :
    (group a : String) (members : List String)
    → lookup String_discrete group groups_mapping ≡ some members
    → IsLeaf groups_mapping a members
    → IsIn a (identifiers registered)
IsLeaf-registered group a members e l =
    let (ls, el, ok, _) =
      check_members-flatten members
        (check_groups-lookup groups_mapping group members check_groups-true e) in
    all_in-IsIn ls (identifiers registered) a ok
      ((flatten-Finds 4 groups_mapping members ls a el).1 l)

-- Every built-in group leads to some name.
pub group-IsLeaf :
    (group : String) (members : List String)
    → lookup String_discrete group groups_mapping ≡ some members
    → (a : String) × IsLeaf groups_mapping a members
group-IsLeaf group members e =
    let (ls, el, _, (a, i)) =
      check_members-flatten members
        (check_groups-lookup groups_mapping group members check_groups-true e) in
    (a, (flatten-Finds 4 groups_mapping members ls a el).0 i)

all_below :
    (ls : List String) × (flatten 5 (all_mutators_group ∷ []) groups_mapping ≡ some ls)
    × (all_in (identifiers registered) ls ≡ true)
    × (all_in ls (identifiers registered) ≡ true)
unfolding groups_mapping flatten lookup insert String_discrete
all_below = (_, refl, refl, refl)

-- The group `all` leads to exactly the identifiers of the registered mutators.
pub IsLeaf-all :
    (a : String)
    → IsLeaf groups_mapping a (all_mutators_group ∷ []) ↔ IsIn a (identifiers registered)
IsLeaf-all a =
    let (ls, e, ok, known) = all_below in
    let found = flatten-Finds 5 groups_mapping (all_mutators_group ∷ []) ls a e in
    (
      λ l. all_in-IsIn ls (identifiers registered) a known (found.1 l),
      λ i. found.0 (all_in-IsIn (identifiers registered) ls a ok i),
    )
