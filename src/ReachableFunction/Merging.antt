-- ===== src/ReachableFunction/Merging.antt =====
-- `mergeReachableFunctions` (lib/ReachableFunction.cpp) groups by function, in the order of first
-- occurrence.
use mull.Base.{
  ℕ, ◌≡◌, refl, sym, ap, ◌∙◌, ◌≢◌, List, [], ◌∷◌, ◌++◌, Option, none, some, ◌==◌, ==_iff,
  if◌then◌else◌, map, append_assoc, append-nil, subst, ℕ_discrete, count, count-distinct, distinct,
  without, All, All-of_count, Bool-cases, inl, inr, Option-cases,
}
use mull.Base.Dict.{
  lookup, insert, erase, lookup-insert_self, lookup-insert_ne, lookup-erase_self, lookup-erase_ne,
}
use mull.ReachableFunction.{
  ReachableFunction, FunctionUnderTest, FunctionsMap, add_reachable_test, function_under_test,
  merge_one, merge_all, list_merged, merge_reachable_functions,
}

-- The tests, with distances, that reach the function `f`.
abbrev pub tests_of : ℕ → List ReachableFunction → List (ℕ × ℕ)
tests_of f [] = []
tests_of f (r ∷ rs) =
    if r.function == f then (r.test, r.distance) ∷ tests_of f rs else tests_of f rs

abbrev pub functions_of : List ReachableFunction → List ℕ
functions_of = map λ r. r.function

abbrev pub grouped : List ReachableFunction → ℕ → FunctionUnderTest
grouped rs f = record { function = f; reachable_tests = tests_of f rs; selected_instructions = [] }

abbrev get : FunctionsMap → ℕ → Option FunctionUnderTest
get m f = lookup ℕ_discrete f m

-- An entry of the map after some more tests reach its function.
abbrev extend : ℕ → Option FunctionUnderTest → List (ℕ × ℕ) → Option FunctionUnderTest
extend f (some u) tests = some (record u { reachable_tests = u.reachable_tests ++ tests })
extend f none [] = none
extend f none (t ∷ tests) =
    some (record { function = f; reachable_tests = t ∷ tests; selected_instructions = [] })

merge_one-insert :
    (r : ReachableFunction) (m : FunctionsMap)
    → (u : FunctionUnderTest) × (merge_one r m ≡ insert ℕ_discrete r.function u m)
      × (some u ≡ extend r.function (get m r.function) ((r.test, r.distance) ∷ []))
unfolding merge_one add_reachable_test function_under_test
merge_one-insert r m = elim (Option-cases (get m r.function)) [
  | inl e ↦ (function_under_test r.function r.test r.distance, rw (e, merge_one) refl, rw e refl)
  | inr (u, e) ↦ (add_reachable_test u r.test r.distance, rw (e, merge_one) refl, rw e refl)
]

merge_one-get_self :
    (r : ReachableFunction) (m : FunctionsMap)
    → get (merge_one r m) r.function
      ≡ extend r.function (get m r.function) ((r.test, r.distance) ∷ [])
merge_one-get_self r m =
    let (u, e, v) = merge_one-insert r m in rw e (lookup-insert_self ℕ_discrete r.function u m ∙ v)

merge_one-get_ne :
    (r : ReachableFunction) (m : FunctionsMap) (f : ℕ)
    → r.function ≢ f
    → get (merge_one r m) f ≡ get m f
merge_one-get_ne r m f h =
    let (u, e, _) = merge_one-insert r m in rw e (lookup-insert_ne ℕ_discrete r.function f u m h)

extend-append :
    (f : ℕ) (o : Option FunctionUnderTest) (xs ys : List (ℕ × ℕ))
    → extend f (extend f o xs) ys ≡ extend f o (xs ++ ys)
extend-append f (some u) xs ys =
    ap (λ l. some (record u { reachable_tests = l })) (append_assoc u.reachable_tests xs ys)
extend-append f none [] ys = refl
extend-append f none (x ∷ xs) ys = refl

extend-nil : (f : ℕ) (o : Option FunctionUnderTest) → extend f o [] ≡ o
extend-nil f none = refl
extend-nil f (some u) =
    ap (λ l. some (record u { reachable_tests = l })) (append-nil u.reachable_tests)

merge_all-get :
    (rs : List ReachableFunction) (m : FunctionsMap) (f : ℕ)
    → get (merge_all rs m) f ≡ extend f (get m f) (tests_of f rs)
unfolding merge_all
merge_all-get [] m f = sym (extend-nil f (get m f))
merge_all-get (r ∷ rs) m f = elim (Bool-cases (r.function == f)) [
  | inl same ↦
      let e : r.function ≡ f = (==_iff r.function f).0 same in
      rw same (
        merge_all-get rs (merge_one r m) f
        ∙ (ap (λ o. extend f o (tests_of f rs))
              (subst (λ k. get (merge_one r m) k ≡ extend k (get m k) ((r.test, r.distance) ∷ [])) e
                (merge_one-get_self r m))
            ∙ extend-append f (get m f) ((r.test, r.distance) ∷ []) (tests_of f rs)))
  | inr other ↦ rw other (
      merge_all-get rs (merge_one r m) f
      ∙ ap (λ o. extend f o (tests_of f rs))
          (merge_one-get_ne r m f (λ e. cc ((==_iff r.function f).1 e))))
]

-- The entries of `g` for the functions `fs`.
abbrev pick_one : Option FunctionUnderTest → List FunctionUnderTest → List FunctionUnderTest
pick_one none us = us
pick_one (some u) us = u ∷ us

abbrev pick : (ℕ → Option FunctionUnderTest) → List ℕ → List FunctionUnderTest
pick g [] = []
pick g (f ∷ fs) = pick_one (g f) (pick g fs)

pick-without :
    (g h : ℕ → Option FunctionUnderTest) (f : ℕ) (fs : List ℕ)
    → h f ≡ none
    → ((k : ℕ) → f ≢ k → h k ≡ g k)
    → pick h fs ≡ pick g (without f fs)
pick-without g h f [] e same = refl
pick-without g h f (k ∷ fs) e same = elim (Bool-cases (k == f)) [
  | inl hit ↦
      let q : k ≡ f = (==_iff k f).0 hit in
      rw hit (ap (λ o. pick_one o (pick h fs)) (ap h q ∙ e) ∙ pick-without g h f fs e same)
  | inr miss ↦ rw miss (
      ap (λ o. pick_one o (pick h fs)) (same k (λ q. cc ((==_iff k f).1 (sym q))))
      ∙ ap (pick_one (g k)) (pick-without g h f fs e same))
]

pick-empty : (fs : List ℕ) → pick (λ k. none) fs ≡ []
pick-empty [] = refl
pick-empty (f ∷ fs) = pick-empty fs

list_merged-pick :
    (rs : List ReachableFunction) (m : FunctionsMap)
    → list_merged rs m ≡ pick (get m) (distinct (functions_of rs))
unfolding list_merged lookup
list_merged-pick [] m = refl
list_merged-pick (r ∷ rs) [] = sym (pick-empty (distinct (functions_of (r ∷ rs))))
list_merged-pick (r ∷ rs) (entry ∷ m) = elim (Option-cases (get (entry ∷ m) r.function)) [
  | inl e ↦
      rw (e, list_merged)
        (list_merged-pick rs (entry ∷ m)
          ∙ pick-without (get (entry ∷ m)) (get (entry ∷ m)) r.function (distinct (functions_of rs))
              e (λ k h. refl))
  | inr (u, e) ↦
      rw (e, list_merged)
        (ap (λ l. u ∷ l)
          (list_merged-pick rs (erase ℕ_discrete r.function (entry ∷ m))
            ∙ pick-without (get (entry ∷ m)) (get (erase ℕ_discrete r.function (entry ∷ m)))
                r.function (distinct (functions_of rs))
                (lookup-erase_self ℕ_discrete r.function (entry ∷ m))
                (λ k h. lookup-erase_ne ℕ_discrete r.function k (entry ∷ m) h)))
]

extend-grouped :
    (f : ℕ) (rs : List ReachableFunction)
    → count f (functions_of rs) ≢ 0
    → extend f none (tests_of f rs) ≡ some (grouped rs f)
extend-grouped f [] h = absurd (h refl)
extend-grouped f (r ∷ rs) h = elim (Bool-cases (r.function == f)) [
  | inl same ↦ rw same refl
  | inr other ↦ rw other (extend-grouped f rs (λ e. h (rw (other, e) refl)))
]

pick-map :
    (g : ℕ → Option FunctionUnderTest) (h : ℕ → FunctionUnderTest) (fs : List ℕ)
    → All (λ f. g f ≡ some (h f)) fs
    → pick g fs ≡ map h fs
pick-map g h [] a = refl
pick-map g h (f ∷ fs) (e, a) =
    ap (λ o. pick_one o (pick g fs)) e ∙ ap (λ l. h f ∷ l) (pick-map g h fs a)

-- Merging gives one entry for each function that some test reaches, in the order in which the
-- functions first occur; its tests are all those that reach the function, in their order, and no
-- instruction is selected yet.
pub merge_reachable_functions-grouped :
    (rs : List ReachableFunction)
    → merge_reachable_functions rs ≡ map (grouped rs) (distinct (functions_of rs))
unfolding merge_reachable_functions lookup
merge_reachable_functions-grouped rs =
    list_merged-pick rs (merge_all rs [])
    ∙ pick-map (get (merge_all rs [])) (grouped rs) (distinct (functions_of rs)) (
        All-of_count (λ f. get (merge_all rs []) f ≡ some (grouped rs f))
          (distinct (functions_of rs))
          λ f h.
            merge_all-get rs [] f
            ∙ extend-grouped f rs (λ e. h (count-distinct f (functions_of rs) ∙ rw e refl)))
