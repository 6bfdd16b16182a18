-- ===== src/Preparation/Originals.antt =====
-- Originals: their blocks are kept in a copy and replaced by a call through a pointer.
use mull.Base.{
  ℕ, ◌<◌, ◌≤◌, [], ◌∷◌, none, String, concat, ℕ_discrete, update_self, update_ne, ◌≡◌, ◌≢◌, ◌⊎◌,
  inl, inr, refl, sym, arith, ◌∙◌, ap, subst,
}
use mull.Base.Dict.{lookup}
use mull.Preparation.{
  Function, MutationPoint, PointsMap, Bitcode, clone_function, delete_body, delete_functions,
  original_function_name,
}
use mull.Preparation.Groups.{IsGrouped, Has}
use mull.Preparation.Clones.{original-AllOf}

-- The function has a group of points.
abbrev pub IsMutated : ℕ → PointsMap → Type 0
IsMutated j [] = ⊥
IsMutated j ((f, v) ∷ g) = (f ≡ j) ⊎ IsMutated j g

pub Has-IsMutated :
    (n : ℕ) (g : PointsMap) (q : MutationPoint)
    → IsGrouped n g
    → Has q g
    → IsMutated q.original_function g
Has-IsMutated n [] q w h = absurd h
Has-IsMutated n ((f, (p, ps)) ∷ g) q w (inl i) = inl (sym (original-AllOf f p ps q w.2 i))
Has-IsMutated n ((f, (p, ps)) ∷ g) q w (inr h) = inr (Has-IsMutated n g q w.3 h)

pub IsMutated-lookup : (j : ℕ) (g : PointsMap) → lookup ℕ_discrete j g ≡ none → ¬ IsMutated j g
unfolding lookup
IsMutated-lookup j [] e m = m
IsMutated-lookup j ((f, v) ∷ g) e (inl h) = ground arith
IsMutated-lookup j ((f, v) ∷ g) e (inr m) = elim (ℕ_discrete f j) [
  | yes h ↦ ground arith
  | no h ↦ IsMutated-lookup j g (ground arith) m
]

pub IsMutated-lt : (n j : ℕ) (g : PointsMap) → IsGrouped n g → IsMutated j g → j < n
IsMutated-lt n j [] w m = absurd m
IsMutated-lt n j ((f, v) ∷ g) w (inl e) = omega (arith, e, w.0)
IsMutated-lt n j ((f, v) ∷ g) w (inr m) = IsMutated-lt n j g w.3 m

module _ {Code : Type 0} where
  -- The later bitcode keeps the functions in use that have no points, and all names.
  pub record Keeps (g : PointsMap) (b c : Bitcode Code) : Type 0 where
    pub grows : b.next ≤ c.next
    pub kept : (k : ℕ) → k < b.next → ¬ IsMutated k g → c.functions k ≡ b.functions k
    pub names : (k : ℕ) → k < b.next → (c.functions k).name ≡ (b.functions k).name
    pub same_identifier : c.unique_identifier ≡ b.unique_identifier
    pub same_mutated : c.mutated_function ≡ b.mutated_function

  abbrev delete_step : ℕ → MutationPoint → Bitcode Code → Bitcode Code
  delete_step f p b = delete_body f (clone_function f (original_function_name b p) b)

  delete_step-kept :
      (f k : ℕ) (p : MutationPoint) (b : Bitcode Code)
      → k < b.next
      → f ≢ k
      → (delete_step f p b).functions k ≡ b.functions k
  delete_step-kept f k p b h apart =
      update_ne (clone_function f (original_function_name b p) b).functions f k _ apart
      ∙ update_ne b.functions b.next k _ (λ e. absurd (omega (arith, e)))

  delete_step-deleted :
      (f : ℕ) (p : MutationPoint) (b : Bitcode Code)
      → f < b.next
      → (delete_step f p b).functions f ≡ record { name = (b.functions f).name; blocks = [] }
  delete_step-deleted f p b h =
      update_self (clone_function f (original_function_name b p) b).functions f _
      ∙ ap (λ (u : Function Code). record { name = u.name; blocks = [] })
          (update_ne b.functions b.next f _ (λ e. absurd (omega (arith, e))))

  delete_step-names :
      (f k : ℕ) (p : MutationPoint) (b : Bitcode Code)
      → f < b.next
      → k < b.next
      → ((delete_step f p b).functions k).name ≡ (b.functions k).name
  delete_step-names f k p b l h = elim (ℕ_discrete f k) [
    | yes e ↦
        subst (λ j. ((delete_step f p b).functions j).name ≡ (b.functions j).name) e
          (ap (λ u. u.name) (delete_step-deleted f p b l))
    | no apart ↦ ap (λ u. u.name) (delete_step-kept f k p b h apart)
  ]

  pub delete_functions-Keeps :
      (n : ℕ) (g : PointsMap) (b : Bitcode Code)
      → IsGrouped n g
      → n ≤ b.next
      → Keeps g b (delete_functions g b)
  unfolding delete_functions
  delete_functions-Keeps n [] b w l = record {
    grows = omega arith;
    kept = λ k h m. refl;
    names = λ k h. refl;
    same_identifier = refl;
    same_mutated = refl;
  }
  delete_functions-Keeps n ((f, (p, ps)) ∷ g) b w l =
      let r = delete_functions-Keeps n g (delete_step f p b) w.3 (omega arith) in
      record {
        grows = omega (arith, r.grows);
        kept = λ k h m.
            r.kept k (omega arith) (λ i. m (inr i)) ∙ delete_step-kept f k p b h (λ e. m (inl e));
        names = λ k h. r.names k (omega arith) ∙ delete_step-names f k p b (omega (arith, w.0)) h;
        same_identifier = r.same_identifier;
        same_mutated = r.same_mutated;
      }

  -- The copy of an original: its blocks under the name of the copy.
  abbrev pub IsCopied : ℕ → Function Code → String → Bitcode Code → Type 0
  IsCopied n original name b =
      (k : ℕ) × (n ≤ k)
      × (k < b.next)
      × ((b.functions k).name ≡ name)
      × ((b.functions k).blocks ≡ original.blocks)

  pub delete_functions-deleted :
      (n : ℕ) (g : PointsMap) (b : Bitcode Code) (j : ℕ)
      → IsGrouped n g
      → n ≤ b.next
      → IsMutated j g
      → ((delete_functions g b).functions j).blocks ≡ []
  unfolding delete_functions
  delete_functions-deleted n [] b j w l m = absurd m
  delete_functions-deleted n ((f, (p, ps)) ∷ g) b j w l (inl e) =
      let r = delete_functions-Keeps n g (delete_step f p b) w.3 (omega arith) in
      subst (λ o. ((delete_functions g (delete_step f p b)).functions o).blocks ≡ []) e
        (ap (λ u. u.blocks)
          (r.kept f (omega (arith, w.0)) (IsMutated-lookup f g w.1)
            ∙ delete_step-deleted f p b (omega (arith, w.0))))
  delete_functions-deleted n ((f, (p, ps)) ∷ g) b j w l (inr m) =
      delete_functions-deleted n g (delete_step f p b) j w.3 (omega arith) m

  pub delete_functions-IsCopied :
      (n : ℕ) (g : PointsMap) (b : Bitcode Code) (q : MutationPoint)
      → IsGrouped n g
      → n ≤ b.next
      → Has q g
      → IsCopied n
          (b.functions q.original_function)
          (original_function_name b q)
          (delete_functions g b)
  unfolding delete_functions
  delete_functions-IsCopied n [] b q w l h = absurd h
  delete_functions-IsCopied n ((f, (p, ps)) ∷ g) b q w l (inl i) =
      let c = delete_step f p b in
      let r = delete_functions-Keeps n g c w.3 (omega arith) in
      let e : p.original_function ≡ q.original_function =
        w.2.0 ∙ sym (original-AllOf f p ps q w.2 i) in
      let copy : c.functions b.next
          ≡ record { name = original_function_name b p; blocks = (b.functions f).blocks } =
        update_ne (clone_function f (original_function_name b p) b).functions f b.next _
          (λ d. absurd (omega (arith, d, w.0)))
        ∙ update_self b.functions b.next _ in
      let last : (delete_functions g c).functions b.next ≡ c.functions b.next =
        r.kept b.next (omega arith) (λ m. absurd (omega (arith, IsMutated-lt n b.next g w.3 m))) in
      (
        b.next,
        l,
        omega (arith, r.grows),
        ap (λ u. u.name) (last ∙ copy)
            ∙ ap
                (λ o.
                  concat (b.functions o).name (concat "_" (concat b.unique_identifier "_original")))
                e,
        ap (λ u. u.blocks) (last ∙ copy)
            ∙ ap (λ o. (b.functions o).blocks) (sym (original-AllOf f p ps q w.2 i)),
      )
  delete_functions-IsCopied n ((f, (p, ps)) ∷ g) b q w l (inr h) =
      let c = delete_step f p b in
      let m = Has-IsMutated n g q w.3 h in
      let here : c.functions q.original_function ≡ b.functions q.original_function =
        delete_step-kept f q.original_function p b
          (omega (arith, l, IsMutated-lt n q.original_function g w.3 m))
          (λ e. IsMutated-lookup f g w.1 (subst (λ o. IsMutated o g) (sym e) m)) in
      let (k, low, high, name, body) = delete_functions-IsCopied n g c q w.3 (omega arith) h in
      (
        k,
        low,
        high,
        name
            ∙ ap
                (λ (u : Function Code).
                  concat u.name (concat "_" (concat b.unique_identifier "_original")))
                here,
        body ∙ ap (λ u. u.blocks) here,
      )
