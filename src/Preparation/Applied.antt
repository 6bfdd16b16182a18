-- ===== src/Preparation/Applied.antt =====
-- Applying the mutators: each point's own function is changed.
use mull.Base.{
  ℕ, ◌≤◌, List, [], ◌∷◌, some, count, All, IsIn, IsIn-All, All-IsIn, update_self, update_ne,
  some_injective, ◌≡◌, ◌≢◌, inl, inr, refl, sym, arith, ◌∙◌, ap, subst,
}
use mull.Preparation.{Block, MutationPoint, Bitcode, change_function, apply_mutations}
use mull.Preparation.Groups.{ids}
use mull.Preparation.Clones.{count-ids}

module _ {Code : Type 0} (change : MutationPoint → List (Block Code) → List (Block Code)) where
  -- Each point's function is changed by its mutator, and nothing else.
  pub record Applied (points : List MutationPoint) (b c : Bitcode Code) : Type 0 where
    pub same_next : c.next ≡ b.next
    pub same_mutated : c.mutated_function ≡ b.mutated_function
    pub kept :
        (j : ℕ) → All (λ p. b.mutated_function p.id ≢ some j) points → c.functions j ≡ b.functions j
    pub changed :
        (q : MutationPoint) (k : ℕ)
        → IsIn q points
        → b.mutated_function q.id ≡ some k
        → (c.functions k).blocks ≡ change q (b.functions k).blocks

  pub apply_mutations-Applied :
      (points : List MutationPoint) (b : Bitcode Code)
      → ((i j k : ℕ) → b.mutated_function i ≡ some k → b.mutated_function j ≡ some k → i ≡ j)
      → ((i : ℕ) → count i (ids points) ≤ 1)
      → ((p : MutationPoint) → IsIn p points → (k : ℕ) × (b.mutated_function p.id ≡ some k))
      → (c : Bitcode Code) × (apply_mutations change points b ≡ some c) × Applied points b c
  unfolding apply_mutations
  apply_mutations-Applied [] b own single has = (
    b,
    refl,
    record {
      same_next = refl;
      same_mutated = refl;
      kept = λ j h. refl;
      changed = λ q k i e. absurd i;
    },
  )
  apply_mutations-Applied (p ∷ points) b own single has =
      let (k, e) = has p (inl refl) in
      let b1 = change_function change p k b in
      let (c, run, a) =
        apply_mutations-Applied points b1 own (λ i. ground (arith, single i))
          (λ q i. has q (inr i)) in
      let others : All (λ q. b.mutated_function q.id ≢ some k) points =
        IsIn-All (λ q. b.mutated_function q.id ≢ some k) points
          (λ q i d.
            absurd (ground (arith, single p.id, count-ids q points i, own q.id p.id k d e))) in
      (
        c,
        rw e run,
        record {
          same_next = a.same_next;
          same_mutated = a.same_mutated;
          kept = λ j h.
              a.kept j h.1 ∙ update_ne b.functions k j _ (λ d. h.0 (e ∙ ap (λ (u : ℕ). some u) d));
          changed = λ q j i d. elim i [
            | inl here ↦
                let at : k ≡ j =
                  some_injective
                    (sym e ∙ ap (λ (r : MutationPoint). b.mutated_function r.id) here ∙ d) in
                subst (λ o. (c.functions o).blocks ≡ change q (b.functions o).blocks) at
                  (ap (λ u. u.blocks) (a.kept k others ∙ update_self b.functions k _)
                    ∙ ap (λ r. change r (b.functions k).blocks) here)
            | inr later ↦
                let apart : k ≢ j = λ f.
                  All-IsIn (λ r. b.mutated_function r.id ≢ some k) points q others later
                    (d ∙ ap (λ (u : ℕ). some u) (sym f)) in
                a.changed q j later d
                ∙ ap (λ u. change q u.blocks) (update_ne b.functions k j _ apart)
          ];
        },
      )
