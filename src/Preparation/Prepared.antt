-- ===== src/Preparation/Prepared.antt =====
-- The whole preparation of mutants.
use mull.Base.{List, [], some, String, ◌≡◌, inl, refl, arith, ◌∙◌, ap}
use mull.Preparation.{
  Block, MutationPoint, Bitcode, add_points, add_mutations, mutated_functions, prepare,
}
use mull.Preparation.Groups.{
  add_points-IsGrouped, add_points-Has, count-add_points, lookup-add_points-none,
}
use mull.Preparation.Originals.{IsMutated-lookup}
use mull.Preparation.Redirected.{IsPreparable, IsRedirected, add_mutations-points, redirect-applied}

module _ {Code : Type 0} (change : MutationPoint → List (Block Code) → List (Block Code)) where
  -- When the points have identities of their own and lie in functions in use, and the bitcode
  -- file has no points yet, the preparation fails no assertion; each original function with points
  -- calls through a pointer whose name is among those collected, its blocks stand in a copy, each
  -- point has a function of its own with these blocks as its mutator changes them, and functions
  -- without points are untouched.
  pub prepare-IsRedirected :
      (points : List MutationPoint) (b : Bitcode Code)
      → IsPreparable points b
      → (c : Bitcode Code) × (names : List String) × (prepare change points b ≡ some (c, names))
        × IsRedirected change points b c names
  unfolding prepare
  prepare-IsRedirected points b h =
      let g = add_points points [] in
      let start : add_mutations points b ≡ record b { mutation_points = g } =
        add_mutations-points points b
        ∙ ap (λ m. record b { mutation_points = add_points points m }) h.no_points in
      let s : Bitcode Code = record b { mutation_points = g } in
      let (c, run, r) =
        redirect-applied change points s g (λ p i. add_points-Has points p [] (inl i))
          (add_points-IsGrouped b.next points [] h.in_use tt)
          (λ i. omega (arith, count-add_points i points [], h.single i)) h.single
          (λ f out. IsMutated-lookup f g (lookup-add_points-none f points out))
          record {
            used = λ i k e. cc (h.no_mutants i, e);
            own = λ i j k e d. cc (h.no_mutants i, e);
          } in
      (
        c,
        mutated_functions g s,
        rw start (rw run refl),
        record {
          redirected = r.redirected;
          copied = r.copied;
          mutant = r.mutant;
          own = r.own;
          untouched = r.untouched;
        },
      )
