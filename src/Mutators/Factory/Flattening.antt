-- ===== src/Mutators/Factory/Flattening.antt =====
-- `expandGroups` (lib/Mutators/MutatorsFactory.cpp) inserts the names below the given ones.
use mull.Base.{
  ℕ, zero, suc, ◌≡◌, refl, sym, ap, ◌∙◌, subst, ◌↔◌, ◌⊎◌, inl, inr, List, [], ◌∷◌, ◌++◌, Option,
  none, some, String, String_discrete, Option-cases, IsIn, IsIn-append, some_injective,
}
use mull.Base.Dict.{lookup}
use mull.Base.Names.{set_insert, set_insert-IsIn, IsDistinct, set_insert-IsDistinct}
use mull.Mutators.Factory.{GroupsMapping, expand_loop, expand_groups}

abbrev pub join : Option (List String) → Option (List String) → Option (List String)
join none ys = none
join (some xs) none = none
join (some xs) (some ys) = some (xs ++ ys)

-- The names that stand for one entry: itself, or what is below a group.
abbrev pub below :
    (List String → Option (List String)) → String → Option (List String) → Option (List String)
below flat group none = some (group ∷ [])
below flat group (some members) = flat members

abbrev pub flat_loop :
    (List String → Option (List String)) → List String → GroupsMapping → Option (List String)
flat_loop flat [] mapping = some []
flat_loop flat (group ∷ groups) mapping =
    join (below flat group (lookup String_discrete group mapping)) (flat_loop flat groups mapping)

-- The names below a list of names, in the order in which they are met, to a depth.
unfoldable pub flatten : ℕ → List String → GroupsMapping → Option (List String)
flatten zero groups mapping = none
flatten (suc depth) groups mapping =
    flat_loop (λ members. flatten depth members mapping) groups mapping

abbrev pub insert_all : List String → List String → List String
insert_all [] set = set
insert_all (x ∷ xs) set = insert_all xs (set_insert x set)

insert_all-append :
    (xs ys set : List String) → insert_all (xs ++ ys) set ≡ insert_all ys (insert_all xs set)
insert_all-append [] ys set = refl
insert_all-append (x ∷ xs) ys set = insert_all-append xs ys (set_insert x set)

pub insert_all-IsIn :
    (a : String) (xs set : List String) → IsIn a (insert_all xs set) ↔ (IsIn a xs ⊎ IsIn a set)
insert_all-IsIn a [] set = (inr, λ h. elim h [ inl n ↦ absurd n | inr k ↦ k ])
insert_all-IsIn a (x ∷ xs) set =
    let rec = insert_all-IsIn a xs (set_insert x set) in
    let one = set_insert-IsIn a x set in
    (
      λ h. elim (rec.0 h) [
        | inl k ↦ inl (inr k)
        | inr k ↦ elim (one.0 k) [ inl e ↦ inl (inl e) | inr l ↦ inr l ]
      ],
      λ h. rec.1 (elim h [
        | inl k ↦ elim k [ inl e ↦ inr (one.1 (inl e)) | inr l ↦ inl l ]
        | inr l ↦ inr (one.1 (inr l))
      ]),
    )

pub insert_all-IsDistinct : (xs set : List String) → IsDistinct set → IsDistinct (insert_all xs set)
insert_all-IsDistinct [] set d = d
insert_all-IsDistinct (x ∷ xs) set d =
    insert_all-IsDistinct xs (set_insert x set) (set_insert-IsDistinct x set d)

-- An expansion that inserts the names that `flat` gives.
abbrev pub Inserts :
    (List String → List String → Option (List String))
    → (List String → Option (List String))
    → Type 0
Inserts expand flat =
    (gs ls set : List String) → flat gs ≡ some ls → expand gs set ≡ some (insert_all ls set)

join-some :
    (xs ys : Option (List String)) (ls : List String)
    → join xs ys ≡ some ls
    → (us bs : List String) × (xs ≡ some us) × (ys ≡ some bs) × (us ++ bs ≡ ls)
join-some none ys ls e = cc
join-some (some xs) none ls e = cc
join-some (some xs) (some ys) ls e = (xs, ys, refl, refl, some_injective e)

expand_loop-Inserts :
    (expand : List String → List String → Option (List String))
    (flat : List String → Option (List String)) (mapping : GroupsMapping)
    → Inserts expand flat
    → Inserts (λ gs set. expand_loop expand gs mapping set) (λ gs. flat_loop flat gs mapping)
unfolding expand_loop
expand_loop-Inserts expand flat mapping h [] ls set e =
    ap (λ l. some (insert_all l set)) (some_injective e)
expand_loop-Inserts expand flat mapping h (g ∷ gs) ls set e =
    let (us, bs, ea, eb, eq) =
      join-some (below flat g (lookup String_discrete g mapping)) (flat_loop flat gs mapping) ls
        e in
    let rest = λ (more : List String). expand_loop-Inserts expand flat mapping h gs bs more eb in
    elim (Option-cases (lookup String_discrete g mapping)) [
      | inl no_group ↦
          rw (no_group, expand_loop)
            (rest (set_insert g set)
              ∙ ap some (
                  ap (λ l. insert_all (l ++ bs) set) (some_injective (rw no_group at ea))
                  ∙ ap (λ l. insert_all l set) eq))
      | inr (members, group) ↦
          rw (group, expand_loop, h members us set (rw group at ea))
            (rest (insert_all us set)
              ∙ ap some (sym (insert_all-append us bs set) ∙ ap (λ l. insert_all l set) eq))
    ]

pub expand_groups-Inserts :
    (depth : ℕ) (mapping : GroupsMapping)
    → Inserts (λ gs set. expand_groups depth gs mapping set) (λ gs. flatten depth gs mapping)
unfolding expand_groups flatten
expand_groups-Inserts zero mapping gs ls set e = cc
expand_groups-Inserts (suc depth) mapping gs ls set e =
    expand_loop-Inserts (λ gs set. expand_groups depth gs mapping set)
      (λ gs. flatten depth gs mapping) mapping (expand_groups-Inserts depth mapping) gs ls set e

-- `a` is no group and stands in the list, or in the members of a group in the list, and so on.
pub data IsLeaf (mapping : GroupsMapping) (a : String) : List String → Type 0 where
  name :
      {gs : List String} → IsIn a gs → lookup String_discrete a mapping ≡ none → IsLeaf mapping a gs
  member :
      {gs : List String} (g : String) (members : List String)
      → IsIn g gs
      → lookup String_discrete g mapping ≡ some members
      → IsLeaf mapping a members
      → IsLeaf mapping a gs

later :
    {mapping : GroupsMapping} {a g : String} {gs : List String}
    → IsLeaf mapping a gs
    → IsLeaf mapping a (g ∷ gs)
later (name i e) = name (inr i) e
later (member k members i e l) = member k members (inr i) e l

abbrev pub Finds : GroupsMapping → (List String → Option (List String)) → Type 0
Finds mapping flat =
    (gs ls : List String) (a : String) → flat gs ≡ some ls → IsIn a ls ↔ IsLeaf mapping a gs

flat_loop-Finds :
    (flat : List String → Option (List String)) (mapping : GroupsMapping)
    → Finds mapping flat
    → Finds mapping (λ gs. flat_loop flat gs mapping)
flat_loop-Finds flat mapping h [] ls a e =
    (λ k. absurd (subst (IsIn a) (sym (some_injective e)) k), λ l. absurd (no_leaf l))
  where
    no_leaf : IsLeaf mapping a [] → ⊥
    no_leaf (name n _) = n
    no_leaf (member _ _ n _ _) = n
flat_loop-Finds flat mapping h (g ∷ gs) ls a e =
    let (us, bs, ea, eb, eq) =
      join-some (below flat g (lookup String_discrete g mapping)) (flat_loop flat gs mapping) ls
        e in
    let rest = flat_loop-Finds flat mapping h gs bs a eb in
    let split = IsIn-append a us bs in
    (
      λ k. elim (split.0 (subst (IsIn a) (sym eq) k)) [
        | inl i ↦ elim (Option-cases (lookup String_discrete g mapping)) [
          | inl no_group ↦ elim (subst (IsIn a) (sym (some_injective (rw no_group at ea))) i) [
            | inl q ↦ name (inl q) (subst (λ x. lookup String_discrete x mapping ≡ none) q no_group)
            | inr n ↦ absurd n
          ]
          | inr (members, group) ↦
              member g members (inl refl) group ((h members us a (rw group at ea)).0 i)
        ]
        | inr i ↦ later (rest.0 i)
      ],
      λ l. subst (IsIn a) eq (split.1 (found us ea bs rest.1 l)),
    )
  where
    found :
        (us : List String)
        → below flat g (lookup String_discrete g mapping) ≡ some us
        → (bs : List String) → (IsLeaf mapping a gs → IsIn a bs)
        → IsLeaf mapping a (g ∷ gs)
        → IsIn a us ⊎ IsIn a bs
    found us ea bs rest (name (inl q) no_group) =
        let here : below flat a (lookup String_discrete a mapping) ≡ some us =
          subst (λ x. below flat x (lookup String_discrete x mapping) ≡ some us) q ea in
        inl (subst (IsIn a) (some_injective (rw no_group at here)) (inl refl))
    found us ea bs rest (name (inr i) e) = inr (rest (name i e))
    found us ea bs rest (member k members (inl q) group l) =
        let here : below flat k (lookup String_discrete k mapping) ≡ some us =
          subst (λ x. below flat x (lookup String_discrete x mapping) ≡ some us) q ea in
        inl ((h members us a (rw group at here)).1 l)
    found us ea bs rest (member k members (inr i) e l) = inr (rest (member k members i e l))

pub flatten-Finds :
    (depth : ℕ) (mapping : GroupsMapping) → Finds mapping (λ gs. flatten depth gs mapping)
unfolding flatten
flatten-Finds zero mapping gs ls a e = cc
flatten-Finds (suc depth) mapping gs ls a e =
    flat_loop-Finds (λ gs. flatten depth gs mapping) mapping (flatten-Finds depth mapping) gs ls a e
