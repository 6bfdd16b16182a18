-- ===== src/FilePathFilter/Caching.antt =====
-- The cache of `FilePathFilter::shouldSkip` (lib/Filters/FilePathFilter.cpp) is transparent.
use mull.Base.{
  ℕ, ◌≡◌, refl, sym, ap, ◌∙◌, inl, inr, List, [], ◌∷◌, some, Bool, not, String, String_discrete,
  map, Option-cases, some_injective, true, ◌↔◌, ◌⊎◌, IsIn, Bool-cases, subst,
}
use mull.Base.Dict.{lookup, insert, lookup-insert_self, lookup-insert_ne}
use mull.FilePathFilter.{PathFilter, matches_any, allows, answer, should_skip, should_skip_all}

module _ (regex_search : String → ℕ → Bool) where
  -- What the cache holds is what the filters decide.
  abbrev pub IsConsistent : (String → Bool) → List (String × Bool) → Type 0
  IsConsistent decide cache =
      (path : String) (allow : Bool)
      → lookup String_discrete path cache ≡ some allow
      → allow ≡ decide path

  insert-IsConsistent :
      (decide : String → Bool) (cache : List (String × Bool)) (path : String)
      → IsConsistent decide cache
      → IsConsistent decide (insert String_discrete path (decide path) cache)
  insert-IsConsistent decide cache path ok other allow e = elim (String_discrete path other) [
    | yes q ↦
        sym (
          some_injective (
            sym (lookup-insert_self String_discrete path (decide path) cache)
            ∙ (ap (λ k. lookup String_discrete k (insert String_discrete path (decide path) cache))
                  q
                ∙ e)))
        ∙ ap decide q
    | no n ↦
        ok other allow (sym (lookup-insert_ne String_discrete path other (decide path) cache n) ∙ e)
  ]

  -- The answers by what the filters decide.
  should_skip_all-decided :
      (f : PathFilter) (paths : List String)
      → IsConsistent (allows regex_search f) f.cache
      → should_skip_all regex_search f paths ≡ map (λ path. not (allows regex_search f path)) paths
  unfolding should_skip_all should_skip allows
  should_skip_all-decided f [] ok = refl
  should_skip_all-decided f (path ∷ paths) ok =
      elim (Option-cases (lookup String_discrete path f.cache)) [
        | inl new ↦
            ap (λ (a : Bool × PathFilter). a.0 ∷ should_skip_all regex_search a.1 paths)
              (ap (answer regex_search f path) new)
            ∙ ap (λ l. not (allows regex_search f path) ∷ l)
                (should_skip_all-decided
                  (record f {
                    cache = insert String_discrete path (allows regex_search f path) f.cache;
                  })
                  paths (insert-IsConsistent (allows regex_search f) f.cache path ok))
        | inr (allow, hit) ↦
            ap (λ (a : Bool × PathFilter). a.0 ∷ should_skip_all regex_search a.1 paths)
              (ap (answer regex_search f path) hit)
            ∙ ap (λ b. not b ∷ should_skip_all regex_search f paths) (ok path allow hit)
            ∙ ap (λ l. not (allows regex_search f path) ∷ l) (should_skip_all-decided f paths ok)
      ]

  -- Some filter is found in the path.
  abbrev pub IsMatched : String → List ℕ → Type 0
  IsMatched path filters = (r : ℕ) × IsIn r filters × (regex_search path r ≡ true)

  -- With include filters one of them has to match, and without them no exclude filter may.
  abbrev pub IsAllowed : PathFilter → String → Type 0
  IsAllowed f path =
      IsMatched path f.include_filters
      ⊎ ((f.include_filters ≡ []) × ¬ IsMatched path f.exclude_filters)

  matches_any-IsMatched :
      (path : String) (filters : List ℕ)
      → (matches_any regex_search path filters ≡ true) ↔ IsMatched path filters
  unfolding matches_any
  matches_any-IsMatched path [] = (λ e. cc (e), λ m. absurd m.1)
  matches_any-IsMatched path (r ∷ rs) =
      let rest = matches_any-IsMatched path rs in
      elim (Bool-cases (regex_search path r)) [
        | inl b ↦ rw b (λ e. (r, inl refl, b), λ m. refl)
        | inr b ↦ rw b (
          λ e. let (x, i, m) = rest.0 e in (x, inr i, m),
          λ m. elim m.1 [
            | inl same ↦ cc (b, m.2, ap (regex_search path) same)
            | inr i ↦ rest.1 (m.0, i, m.2)
          ],
        )
      ]

  allowed_without :
      (f : PathFilter) (path : String)
      → f.include_filters ≡ []
      → allows regex_search f path ≡ not (matches_any regex_search path f.exclude_filters)
  unfolding allows
  allowed_without f path e =
      ap
        (λ (l : List ℕ). elim l [
          | [] ↦ not (matches_any regex_search path f.exclude_filters)
          | x ∷ xs ↦ matches_any regex_search path (x ∷ xs)
        ])
        e

  allowed_with :
      (f : PathFilter) (path : String) (r : ℕ) (rs : List ℕ)
      → f.include_filters ≡ r ∷ rs
      → allows regex_search f path ≡ matches_any regex_search path f.include_filters
  unfolding allows
  allowed_with f path r rs e =
      ap
        (λ (l : List ℕ). elim l [
          | [] ↦ not (matches_any regex_search path f.exclude_filters)
          | x ∷ xs ↦ matches_any regex_search path (x ∷ xs)
        ])
        e
      ∙ ap (matches_any regex_search path) (sym e)

  allows-IsAllowed :
      (f : PathFilter) (path : String) → (allows regex_search f path ≡ true) ↔ IsAllowed f path
  unfolding allows
  allows-IsAllowed f path = by_cases f.include_filters refl
    where
      by_cases :
          (filters : List ℕ)
          → f.include_filters ≡ filters
          → (allows regex_search f path ≡ true) ↔ IsAllowed f path
      by_cases [] e =
          let excluded = matches_any-IsMatched path f.exclude_filters in
          let none_included : ¬ IsMatched path f.include_filters =
            λ m. subst (λ l. IsIn m.0 l) e m.1 in
          elim (Bool-cases (matches_any regex_search path f.exclude_filters)) [
            | inl b ↦ (
              λ h. cc (h, allowed_without f path e, b),
              λ d. elim d [
                | inl m ↦ absurd (none_included m)
                | inr m ↦ absurd (m.1 (excluded.0 b))
              ],
            )
            | inr b ↦
                (λ h. inr (e, λ m. cc (excluded.1 m, b)), λ d. allowed_without f path e ∙ ap not b)
          ]
      by_cases (r ∷ rs) e =
          let included = matches_any-IsMatched path f.include_filters in
          (
            λ h. inl (included.0 (sym (allowed_with f path r rs e) ∙ h)),
            λ d. elim d [ inl m ↦ allowed_with f path r rs e ∙ included.1 m | inr m ↦ cc (e, m.0) ],
          )

  -- From a cache that agrees with the filters, any sequence of queries is answered as the include and
  -- exclude filters decide, whatever was asked before: a path is let through exactly if an include
  -- filter matches it, or there are no include filters and no exclude filter matches it.
  pub should_skip_all-allows :
      (f : PathFilter) (paths : List String)
      → IsConsistent (allows regex_search f) f.cache
      → (should_skip_all regex_search f paths
          ≡ map (λ path. not (allows regex_search f path)) paths)
        × ((path : String) → (allows regex_search f path ≡ true) ↔ IsAllowed f path)
  should_skip_all-allows f paths ok = (should_skip_all-decided f paths ok, allows-IsAllowed f)
