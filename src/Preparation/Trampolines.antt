-- ===== src/Preparation/Trampolines.antt =====
-- The trampolines: a block that calls through a pointer is appended to each original.
use mull.Base.{
  ℕ, ◌≤◌, [], ◌∷◌, ◌++◌, String, concat, ℕ_discrete, update_self, update_ne, ◌≡◌, inl, inr, refl,
  sym, arith, ◌∙◌, ap, subst,
}
use mull.Preparation.{
  indirect_call, Function, MutationPoint, PointsMap, Bitcode, trampoline_name, insert_trampoline,
  insert_trampolines,
}
use mull.Preparation.Groups.{IsGrouped, Has}
use mull.Preparation.Clones.{original-AllOf}
use mull.Preparation.Originals.{IsMutated, Keeps, Has-IsMutated, IsMutated-lookup}

module _ {Code : Type 0} where
  pub insert_trampolines-Keeps :
      (g : PointsMap) (b : Bitcode Code) → Keeps g b (insert_trampolines g b)
  unfolding insert_trampolines
  insert_trampolines-Keeps [] b = record {
    grows = omega arith;
    kept = λ k h m. refl;
    names = λ k h. refl;
    same_identifier = refl;
    same_mutated = refl;
  }
  insert_trampolines-Keeps ((f, (p, ps)) ∷ g) b =
      let r = insert_trampolines-Keeps g (insert_trampoline f (trampoline_name b p) b) in
      record {
        grows = r.grows;
        kept = λ k h m. r.kept k h (λ i. m (inr i)) ∙ update_ne b.functions f k _ (λ e. m (inl e));
        names = λ k h. r.names k h ∙ insert_trampoline-names f k (trampoline_name b p) b;
        same_identifier = r.same_identifier;
        same_mutated = r.same_mutated;
      }
    where
      insert_trampoline-names :
          (f k : ℕ) (t : String) (b : Bitcode Code)
          → ((insert_trampoline f t b).functions k).name ≡ (b.functions k).name
      insert_trampoline-names f k t b = elim (ℕ_discrete f k) [
        | yes e ↦
            subst (λ j. ((insert_trampoline f t b).functions j).name ≡ (b.functions j).name) e
              (ap (λ u. u.name) (update_self b.functions f _))
        | no apart ↦ ap (λ u. u.name) (update_ne b.functions f k _ apart)
      ]

  pub insert_trampolines-inserted :
      (n : ℕ) (g : PointsMap) (b : Bitcode Code) (q : MutationPoint)
      → IsGrouped n g
      → n ≤ b.next
      → Has q g
      → ((insert_trampolines g b).functions q.original_function).blocks
        ≡ (b.functions q.original_function).blocks ++ indirect_call (trampoline_name b q) ∷ []
  unfolding insert_trampolines
  insert_trampolines-inserted n [] b q w l h = absurd h
  insert_trampolines-inserted n ((f, (p, ps)) ∷ g) b q w l (inl i) =
      let c = insert_trampoline f (trampoline_name b p) b in
      let r = insert_trampolines-Keeps g c in
      let there : q.original_function ≡ f = original-AllOf f p ps q w.2 i in
      let same : trampoline_name b p ≡ trampoline_name b q =
        ap
          (λ o. concat (b.functions o).name (concat "_" (concat b.unique_identifier "_trampoline")))
          (w.2.0 ∙ sym there) in
      subst
        (λ o.
          ((insert_trampolines g c).functions o).blocks
          ≡ (b.functions o).blocks ++ indirect_call (trampoline_name b q) ∷ [])
        (sym there)
        (ap (λ u. u.blocks)
            (r.kept f (omega (arith, w.0)) (IsMutated-lookup f g w.1) ∙ update_self b.functions f _)
          ∙ ap (λ t. (b.functions f).blocks ++ indirect_call t ∷ []) same)
  insert_trampolines-inserted n ((f, (p, ps)) ∷ g) b q w l (inr h) =
      let c = insert_trampoline f (trampoline_name b p) b in
      let m = Has-IsMutated n g q w.3 h in
      let here : c.functions q.original_function ≡ b.functions q.original_function =
        update_ne b.functions f q.original_function _
          (λ e. IsMutated-lookup f g w.1 (subst (λ o. IsMutated o g) (sym e) m)) in
      insert_trampolines-inserted n g c q w.3 l h
      ∙ ap
          (λ (u : Function Code).
            u.blocks
            ++ indirect_call (concat u.name (concat "_" (concat b.unique_identifier "_trampoline")))
              ∷ [])
          here
