-- ===== src/Preparation/Redirected.antt =====
-- What a bitcode file holds when its mutants are about to be compiled, from the steps of the
-- preparation on a file whose points are grouped.
use mull.Base.{
  ℕ, ◌<◌, ◌≤◌, List, [], ◌∷◌, ◌++◌, Option, none, some, String, concat, ◌⊎◌, count, All, IsIn,
  IsIn-All, some_injective, ◌≡◌, ◌≢◌, inl, inr, refl, sym, arith, ◌∙◌, ap,
}
use mull.Preparation.{
  Block, indirect_call, MutationPoint, PointsMap, Bitcode, add_points, add_mutations,
  clone_functions, delete_functions, insert_trampolines, trampoline_name, original_function_name,
  mutated_functions, apply_mutations,
}
use mull.Preparation.Groups.{IsGrouped, Has, ids, group_ids, IsGrouped-mono}
use mull.Preparation.Clones.{
  IsOwned, Extends, IsCloned, clone_functions-IsOwned, clone_functions-Extends,
  clone_functions-IsCloned, original-AllOf,
}
use mull.Preparation.Applied.{Applied, apply_mutations-Applied}
use mull.Preparation.Trampolines.{insert_trampolines-Keeps, insert_trampolines-inserted}
use mull.Preparation.Originals.{
  IsCopied, Keeps, IsMutated, IsMutated-lt, Has-IsMutated, delete_functions-Keeps,
  delete_functions-deleted, delete_functions-IsCopied,
}

module _ {Code : Type 0} where
  -- What the points need: identities of their own, and functions that are in use.
  pub record IsPreparable (points : List MutationPoint) (b : Bitcode Code) : Type 0 where
    pub in_use : All (λ p. p.original_function < b.next) points
    pub single : (i : ℕ) → count i (ids points) ≤ 1
    pub no_points : b.mutation_points ≡ []
    pub no_mutants : (i : ℕ) → b.mutated_function i ≡ none

module _ {Code : Type 0} (change : MutationPoint → List (Block Code) → List (Block Code)) where
  -- The bitcode `c` calls the original functions of `b` through pointers, and has a copy of each
  -- and a function for each point.
  pub record IsRedirected (points : List MutationPoint) (b c : Bitcode Code) (names : List String)
      : Type 0 where
    pub redirected :
        (p : MutationPoint)
        → IsIn p points
        → ((c.functions p.original_function).blocks ≡ indirect_call (trampoline_name b p) ∷ [])
          × IsIn (trampoline_name b p) names
    pub copied :
        (p : MutationPoint)
        → IsIn p points
        → IsCopied b.next (b.functions p.original_function) (original_function_name b p) c
    pub mutant :
        (p : MutationPoint)
        → IsIn p points
        → (k : ℕ) × (c.mutated_function p.id ≡ some k)
          × (b.next ≤ k)
          × ((c.functions k).blocks ≡ change p (b.functions p.original_function).blocks)
    pub own : (i j k : ℕ) → c.mutated_function i ≡ some k → c.mutated_function j ≡ some k → i ≡ j
    pub untouched :
        (f : ℕ)
        → f < b.next
        → All (λ p. p.original_function ≢ f) points
        → c.functions f ≡ b.functions f

module _ {Code : Type 0} where
  pub add_mutations-points :
      (points : List MutationPoint) (b : Bitcode Code)
      → add_mutations points b ≡ record b { mutation_points = add_points points b.mutation_points }
  add_mutations-points [] b = refl
  add_mutations-points (p ∷ points) b = add_mutations-points points _

  mutated_functions-IsIn :
      (n : ℕ) (g : PointsMap) (b : Bitcode Code) (q : MutationPoint)
      → IsGrouped n g
      → Has q g
      → IsIn (trampoline_name b q) (mutated_functions g b)
  unfolding mutated_functions
  mutated_functions-IsIn n [] b q w h = absurd h
  mutated_functions-IsIn n ((f, (p, ps)) ∷ g) b q w (inl i) = inl (
      ap (λ o. concat (b.functions o).name (concat "_" (concat b.unique_identifier "_trampoline")))
        (w.2.0 ∙ sym (original-AllOf f p ps q w.2 i)))
  mutated_functions-IsIn n ((f, (p, ps)) ∷ g) b q w (inr h) =
      inr (mutated_functions-IsIn n g b q w.3 h)

  module _ (change : MutationPoint → List (Block Code) → List (Block Code)) where
    -- The steps on a bitcode whose points are grouped.
    module _ (points : List MutationPoint) (b : Bitcode Code) (g : PointsMap)
        (all_in : (p : MutationPoint) → IsIn p points → Has p g) (w : IsGrouped b.next g)
        (single : (i : ℕ) → count i (group_ids g) ≤ 1)
        (single_points : (i : ℕ) → count i (ids points) ≤ 1)
        (untouched_out : (f : ℕ) → All (λ p. p.original_function ≢ f) points → ¬ IsMutated f g)
        (o : IsOwned b) where
      abbrev pub redirect : Bitcode Code → Bitcode Code
      redirect x = insert_trampolines g (delete_functions g (clone_functions g x))

      abbrev cloned : Bitcode Code
      cloned = clone_functions g b

      abbrev deleted : Bitcode Code
      deleted = delete_functions g (clone_functions g b)

      x1 : Extends b cloned
      x1 = clone_functions-Extends g b

      x2 : Keeps g cloned deleted
      x2 = delete_functions-Keeps b.next g cloned w x1.grows

      x3 : Keeps g deleted (redirect b)
      x3 = insert_trampolines-Keeps g deleted

      o1 : IsOwned cloned
      o1 = clone_functions-IsOwned g b o

      same_mutants : (redirect b).mutated_function ≡ cloned.mutated_function
      same_mutants = x3.same_mutated ∙ x2.same_mutated

      point-lt : (p : MutationPoint) → IsIn p points → p.original_function < b.next
      point-lt p i =
          IsMutated-lt b.next p.original_function g w (Has-IsMutated b.next g p w (all_in p i))

      of_cloned :
          (p : MutationPoint)
          → IsIn p points
          → IsCloned b.next (b.functions p.original_function).blocks p cloned
      of_cloned p i = clone_functions-IsCloned b.next g b p single w (omega arith) (all_in p i)

      -- A function that is no mutant is the same after the mutations.
      module _ (c : Bitcode Code) (a : Applied change points (redirect b) c) where
        outside :
            (j : ℕ) → (j < b.next) ⊎ (cloned.next ≤ j) → c.functions j ≡ (redirect b).functions j
        outside j h = a.kept j (
            IsIn-All _ points (λ p i e.
              let (k, d, low, high, body) = of_cloned p i in
              let same : k ≡ j =
                some_injective (sym d ∙ sym (ap (λ (m : ℕ → Option ℕ). m p.id) same_mutants) ∙ e) in
              elim h [
                | inl l ↦ absurd (omega (arith, same, low, l))
                | inr l ↦ absurd (omega (arith, same, high, l))
              ]))

        -- A function with a number in use that has no points is untouched by the redirection.
        still :
            (k : ℕ)
            → k < cloned.next
            → ¬ IsMutated k g
            → (redirect b).functions k ≡ cloned.functions k
        still k h m = x3.kept k (omega (arith, h, x2.grows)) m ∙ x2.kept k h m

        redirected_lem :
            (p : MutationPoint)
            → IsIn p points
            → (c.functions p.original_function).blocks ≡ indirect_call (trampoline_name b p) ∷ []
        redirected_lem p i =
            let f = p.original_function in
            let l = point-lt p i in
            let name : trampoline_name deleted p ≡ trampoline_name b p = λ t.
              concat ((x2.names f (omega (arith, l, x1.grows)) ∙ ap (λ u. u.name) (x1.kept f l)) t)
                (concat "_" (concat ((x2.same_identifier ∙ x1.same_identifier) t) "_trampoline")) in
            ap (λ u. u.blocks) (outside f (inl l))
            ∙ insert_trampolines-inserted b.next g deleted p w (omega (arith, x1.grows, x2.grows))
                (all_in p i)
            ∙ ap (λ (u : List (Block Code)). u ++ indirect_call (trampoline_name deleted p) ∷ [])
                (delete_functions-deleted b.next g cloned f w x1.grows
                  (Has-IsMutated b.next g p w (all_in p i)))
            ∙ ap (λ (t : String). indirect_call t ∷ []) name

        mutant_lem :
            (p : MutationPoint)
            → IsIn p points
            → (k : ℕ) × (c.mutated_function p.id ≡ some k)
              × (b.next ≤ k)
              × ((c.functions k).blocks ≡ change p (b.functions p.original_function).blocks)
        mutant_lem p i =
            let (k, e, low, high, body) = of_cloned p i in
            let at : (redirect b).mutated_function p.id ≡ some k =
              ap (λ (m : ℕ → Option ℕ). m p.id) same_mutants ∙ e in
            let out : ¬ IsMutated k g =
              λ m. absurd (omega (arith, low, IsMutated-lt b.next k g w m)) in
            (
              k,
              ap (λ (m : ℕ → Option ℕ). m p.id) a.same_mutated ∙ at,
              low,
              a.changed p k i at
                  ∙ ap (λ u. change p u.blocks) (still k high out)
                  ∙ ap (change p) body,
            )

        copied_lem :
            (p : MutationPoint)
            → IsIn p points
            → IsCopied b.next (b.functions p.original_function) (original_function_name b p) c
        copied_lem p i =
            let f = p.original_function in
            let l = point-lt p i in
            let (k, low, high, name, body) =
              delete_functions-IsCopied cloned.next g cloned p
                (IsGrouped-mono b.next cloned.next g x1.grows w) (omega arith) (all_in p i) in
            let out : ¬ IsMutated k g =
              λ m. absurd (omega (arith, low, x1.grows, IsMutated-lt b.next k g w m)) in
            let last : c.functions k ≡ deleted.functions k =
              outside k (inr low) ∙ x3.kept k high out in
            let here : cloned.functions f ≡ b.functions f = x1.kept f l in
            let same : original_function_name cloned p ≡ original_function_name b p =
              λ t. concat (here t).name (concat "_" (concat (x1.same_identifier t) "_original")) in
            (
              k,
              omega (arith, low, x1.grows),
              rw a.same_next (omega (arith, high, x3.grows)),
              ap (λ u. u.name) last ∙ name ∙ same,
              ap (λ u. u.blocks) last ∙ body ∙ ap (λ u. u.blocks) here,
            )

        redirect-IsRedirected : IsRedirected change points b c (mutated_functions g b)
        redirect-IsRedirected = record {
          redirected =
              λ p i. (redirected_lem p i, mutated_functions-IsIn b.next g b p w (all_in p i));
          copied = copied_lem;
          mutant = mutant_lem;
          own = λ i j k d e.
              o1.own i j k
                (sym (ap (λ (m : ℕ → Option ℕ). m i) (a.same_mutated ∙ same_mutants)) ∙ d)
                (sym (ap (λ (m : ℕ → Option ℕ). m j) (a.same_mutated ∙ same_mutants)) ∙ e);
          untouched = λ f l h.
              outside f (inl l)
              ∙ still f (omega (arith, l, x1.grows)) (untouched_out f h)
              ∙ x1.kept f l;
        }

      pub redirect-applied :
          (c : Bitcode Code) × (apply_mutations change points (redirect b) ≡ some c)
          × IsRedirected change points b c (mutated_functions g b)
      redirect-applied =
          let (c, run, a) =
            apply_mutations-Applied change points (redirect b)
              (λ i j k d e.
                o1.own i j k (sym (ap (λ (m : ℕ → Option ℕ). m i) same_mutants) ∙ d)
                  (sym (ap (λ (m : ℕ → Option ℕ). m j) same_mutants) ∙ e))
              single_points
              (λ p i.
                let (k, e, low, high, body) = of_cloned p i in
                (k, ap (λ (m : ℕ → Option ℕ). m p.id) same_mutants ∙ e)) in
          (c, run, redirect-IsRedirected c a)
