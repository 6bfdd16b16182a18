-- ===== src/Mutators/Factory/Selected.antt =====
-- `MutatorsFactory::mutators` (lib/Mutators/MutatorsFactory.cpp): what is selected for a request.
use mull.Base.{
  ◌≡◌, refl, sym, ap, ◌∙◌, subst, ◌↔◌, ◌⊎◌, inl, inr, List, [], ◌∷◌, ◌++◌, some, Bool, true, false,
  String, String_discrete, Option-cases, IsIn, some_injective,
}
use mull.Base.Dict.{lookup, insert, lookup-insert_self, lookup-insert_ne}
use mull.Base.Names.{IsDistinct}
use mull.Mutators.Factory.{
  MutatorsMapping, Selection, Run, goes_on, and_then, add_mutator, add_all, init, check_empty,
  chosen_groups, take_expanded, mutators, expand_groups,
}
use mull.Mutators.Factory.Registry.{Mutator, registered, groups_mapping, cxx_default}
use mull.Mutators.Factory.Flattening.{IsLeaf, name, member}
use mull.Mutators.Factory.Expansion.{
  identifiers, expand_groups-IsLeaf, IsLeaf-registered, group-IsLeaf,
}
use mull.Mutators.Factory.Taking.{
  found_one, found, unknown_one, unknown, no_valid, take_mutators-found, take_mutators-cut, cut,
  check_empty-IsChecked, check_empty-cut,
}

-- For any request and any earlier register, the names expand, and out of strict mode `mutators` gives
-- a selection: for the expanded names, in their order, the mutators that the filled register holds,
-- and one warning for each name that it does not hold, followed by a last one when no mutator is
-- selected. In strict mode it gives the same selection when there are no warnings, and otherwise the
-- program exits after the first of them.
pub mutators-found :
    (groups : List String) (mapping : MutatorsMapping)
    → (expanded : List String) × (s : Selection) × (expand_groups 5
          (chosen_groups groups)
          groups_mapping
          []
        ≡ some expanded)
      × (mutators false groups mapping ≡ some (goes_on s))
      × (mutators true groups mapping ≡ some (cut s.warnings (goes_on s)))
      × (s.mutators ≡ found (init mapping) expanded)
      × (s.warnings ≡ unknown (init mapping) expanded ++ no_valid s.mutators)
unfolding mutators
mutators-found groups mapping =
    let (expanded, e, d, _) = expand_groups-IsLeaf (chosen_groups groups) in
    let start : Selection = record {
      mutators = [];
      mutators_mapping = init mapping;
      warnings = [];
    } in
    let (t, run, took, warned) =
      take_mutators-found expanded start (init mapping) d (λ k i. refl) in
    let (s, checked, kept, told) = check_empty-IsChecked t in
    let all_told : s.warnings ≡ unknown (init mapping) expanded ++ no_valid t.mutators =
      told ∙ ap (λ l. l ++ no_valid t.mutators) warned in
    let strict =
      take_mutators-cut expanded start (init mapping) d (λ k i. refl) refl
      ∙ ap (cut (unknown (init mapping) expanded)) run in
    (
      expanded,
      s,
      e,
      ap (take_expanded false (init mapping)) e
          ∙ ap (λ r. some (and_then r (check_empty false))) run
          ∙ ap (λ (r : Run). some r) checked,
      ap (take_expanded true (init mapping)) e
          ∙ ap (λ r. some (and_then r (check_empty true))) strict
          ∙ ap (λ (r : Run). some r)
              (exits_at (unknown (init mapping) expanded) t s checked warned all_told),
      kept ∙ took,
      all_told ∙ ap (λ l. unknown (init mapping) expanded ++ no_valid l) (sym kept),
    )
  where
    exits_at :
        (ws : List String) (t s : Selection)
        → check_empty false t ≡ goes_on s
        → t.warnings ≡ ws
        → s.warnings ≡ ws ++ no_valid t.mutators
        → and_then (cut ws (goes_on t)) (check_empty true) ≡ cut s.warnings (goes_on s)
    exits_at [] t s checked none_yet all_told =
        check_empty-cut t none_yet
        ∙ ap (cut (no_valid t.mutators)) checked
        ∙ ap (λ l. cut l (goes_on s)) (sym all_told)
    exits_at (w ∷ ws) t s checked some_yet all_told = ap (λ l. cut l (goes_on s)) (sym all_told)

-- The register holds, under the name, a mutator of that identifier.
abbrev Holds : MutatorsMapping → String → Type 0
Holds mapping a =
    (m : Mutator) × (lookup String_discrete a mapping ≡ some m) × (m.unique_identifier ≡ a)

add_mutator-Holds :
    (m : Mutator) (mapping : MutatorsMapping) (a : String)
    → (m.unique_identifier ≡ a) ⊎ Holds mapping a
    → Holds (add_mutator m mapping) a
unfolding add_mutator
add_mutator-Holds m mapping a h = elim (String_discrete m.unique_identifier a) [
  | yes e ↦ (
    m,
    subst
        (λ k.
          lookup String_discrete k (insert String_discrete m.unique_identifier m mapping) ≡ some m)
        e (lookup-insert_self String_discrete m.unique_identifier m mapping),
    e,
  )
  | no n ↦ elim h [
    | inl e ↦ absurd (n e)
    | inr (k, at, id) ↦
        (k, lookup-insert_ne String_discrete m.unique_identifier a m mapping n ∙ at, id)
  ]
]

add_all-Holds :
    (ms : List Mutator) (mapping : MutatorsMapping) (a : String)
    → IsIn a (identifiers ms) ⊎ Holds mapping a
    → Holds (add_all ms mapping) a
unfolding add_all
add_all-Holds [] mapping a (inl n) = absurd n
add_all-Holds [] mapping a (inr h) = h
add_all-Holds (m ∷ ms) mapping a (inl (inl e)) =
    add_all-Holds ms (add_mutator m mapping) a (inr (add_mutator-Holds m mapping a (inl e)))
add_all-Holds (m ∷ ms) mapping a (inl (inr i)) = add_all-Holds ms (add_mutator m mapping) a (inl i)
add_all-Holds (m ∷ ms) mapping a (inr h) =
    add_all-Holds ms (add_mutator m mapping) a (inr (add_mutator-Holds m mapping a (inr h)))

found-identifiers :
    (start : MutatorsMapping) (xs : List String)
    → ((a : String) → IsIn a xs → Holds start a)
    → (identifiers (found start xs) ≡ xs) × (unknown start xs ≡ [])
found-identifiers start [] h = (refl, refl)
found-identifiers start (x ∷ xs) h =
    let (m, e, id) = h x (inl refl) in
    let rec = found-identifiers start xs (λ a i. h a (inr i)) in
    (
      ap (λ o. identifiers (found_one o (found start xs))) e
          ∙ ap (λ k. k ∷ identifiers (found start xs)) id
          ∙ ap (λ l. x ∷ l) rec.0,
      ap (λ o. unknown_one x o (unknown start xs)) e ∙ rec.1,
    )

-- A built-in group or the identifier of a registered mutator.
abbrev pub IsKnown : String → Type 0
IsKnown g =
    ((members : List String) × (lookup String_discrete g groups_mapping ≡ some members))
    ⊎ IsIn g (identifiers registered)

default-IsKnown : IsKnown cxx_default
unfolding groups_mapping lookup insert String_discrete
default-IsKnown = inl (_, refl)

-- Some mutator is selected for any request.
some-IsLeaf : (groups : List String) → (a : String) × IsLeaf groups_mapping a (chosen_groups groups)
some-IsLeaf groups = by_cases groups
  where
    of_first : (g : String) (gs : List String) → (a : String) × IsLeaf groups_mapping a (g ∷ gs)
    of_first g gs = elim (Option-cases (lookup String_discrete g groups_mapping)) [
      | inl no_group ↦ (g, name (inl refl) no_group)
      | inr (members, group) ↦
          let (a, leaf) = group-IsLeaf g members group in
          (a, member g members (inl refl) group leaf)
    ]

    by_cases : (gs : List String) → (a : String) × IsLeaf groups_mapping a (chosen_groups gs)
    by_cases [] = of_first cxx_default []
    by_cases (g ∷ gs) = of_first g gs

no_valid_empty : (a : String) (ms : List Mutator) → IsIn a (identifiers ms) → no_valid ms ≡ []
no_valid_empty a [] i = absurd i
no_valid_empty a (m ∷ ms) i = refl

in_mode :
    (strict : Bool) (groups : List String) (mapping : MutatorsMapping) (s : Selection)
    → mutators false groups mapping ≡ some (goes_on s)
    → mutators true groups mapping ≡ some (cut s.warnings (goes_on s))
    → s.warnings ≡ []
    → mutators strict groups mapping ≡ some (goes_on s)
in_mode false groups mapping s relaxed strict quiet = relaxed
in_mode true groups mapping s relaxed strict quiet =
    strict ∙ ap (λ l. some (cut l (goes_on s))) quiet

-- When every name asked for is a built-in group or a registered identifier, the program goes on in
-- either mode and no warning is given, and the mutators selected are one for each name that the
-- request leads to (the default group's when nothing is asked for), none twice.
pub mutators-IsKnown :
    (strict : Bool) (groups : List String) (mapping : MutatorsMapping)
    → ((g : String) → IsIn g groups → IsKnown g)
    → (s : Selection) × (mutators strict groups mapping ≡ some (goes_on s))
      × IsDistinct (identifiers s.mutators)
      × ((a : String)
          → IsIn a (identifiers s.mutators) ↔ IsLeaf groups_mapping a (chosen_groups groups))
      × (s.warnings ≡ [])
unfolding init
mutators-IsKnown strict groups mapping known =
    let (expanded, s, e, relaxed, strictly, took, warned) = mutators-found groups mapping in
    let (other, e', d, leaf) = expand_groups-IsLeaf (chosen_groups groups) in
    let same : other ≡ expanded = some_injective (sym e' ∙ e) in
    let held : (a : String) → IsIn a expanded → Holds (add_all registered mapping) a = λ a i.
      add_all-Holds registered mapping a (
        inl (
          known_leaf (chosen_groups groups) chosen a ((leaf a).0 (subst (IsIn a) (sym same) i)))) in
    let (ids, none_unknown) = found-identifiers (add_all registered mapping) expanded held in
    let all_ids : identifiers s.mutators ≡ other = ap identifiers took ∙ ids ∙ sym same in
    let leaves : (a : String)
        → IsIn a (identifiers s.mutators) ↔ IsLeaf groups_mapping a (chosen_groups groups) =
      λ a.
        subst (λ l. IsIn a l ↔ IsLeaf groups_mapping a (chosen_groups groups)) (sym all_ids)
          (leaf a) in
    let (first, below) = some-IsLeaf groups in
    let quiet : s.warnings ≡ [] =
      warned
      ∙ ap (λ l. l ++ no_valid s.mutators) none_unknown
      ∙ no_valid_empty first s.mutators ((leaves first).1 below) in
    (
      s,
      in_mode strict groups mapping s relaxed strictly quiet,
      subst IsDistinct (sym all_ids) d,
      leaves,
      quiet,
    )
  where
    known_leaf :
        (gs : List String)
        → ((g : String) → IsIn g gs → IsKnown g)
        → (a : String) → IsLeaf groups_mapping a gs
        → IsIn a (identifiers registered)
    known_leaf gs all_known a (name i no_group) = elim (all_known a i) [
      | inl (members, group) ↦ cc
      | inr k ↦ k
    ]
    known_leaf gs all_known a (member g members i group l) = IsLeaf-registered g a members group l

    chosen : (g : String) → IsIn g (chosen_groups groups) → IsKnown g
    chosen g = by_cases groups known
      where
        by_cases :
            (gs : List String)
            → ((h : String) → IsIn h gs → IsKnown h)
            → IsIn g (chosen_groups gs)
            → IsKnown g
        by_cases [] _ (inl e) = subst IsKnown e default-IsKnown
        by_cases [] _ (inr n) = absurd n
        by_cases (x ∷ xs) h i = h g i
