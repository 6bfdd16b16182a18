-- ===== src/Preparation/Clones.antt =====
-- Cloning: each point gets a function of its own, with the blocks of the one that it changes.
use mull.Base.{
  ℕ, ◌<◌, ◌≤◌, List, [], ◌∷◌, some, count, count-append, All-IsIn, IsIn, update_self, update_ne,
  ◌≡◌, inl, inr, refl, sym, arith, ◌∙◌, ap, subst,
}
use mull.Preparation.{
  Block, MutationPoint, PointsMap, Bitcode, clone_for, clone_points, clone_functions,
}
use mull.Preparation.Groups.{IsGrouped, AllOf, IsPointOf, Has, ids, group_ids}

module _ {Code : Type 0} where
  -- Only numbers in use are the function of a point, and no two points share one.
  pub record IsOwned (b : Bitcode Code) : Type 0 where
    pub used : (i k : ℕ) → b.mutated_function i ≡ some k → k < b.next
    pub own : (i j k : ℕ) → b.mutated_function i ≡ some k → b.mutated_function j ≡ some k → i ≡ j

  clone_for-IsOwned :
      (f : ℕ) (p : MutationPoint) (b : Bitcode Code) → IsOwned b → IsOwned (clone_for f p b)
  clone_for-IsOwned f p b o = record {
    used = λ i k e. ground (arith, o.used i k);
    own = λ i j k e d. ground (arith, o.own i j k, o.used i k, o.used j k);
  }

  clone_points-IsOwned :
      (f : ℕ) (ps : List MutationPoint) (b : Bitcode Code)
      → IsOwned b
      → IsOwned (clone_points f ps b)
  clone_points-IsOwned f [] b o = o
  clone_points-IsOwned f (p ∷ ps) b o =
      clone_points-IsOwned f ps (clone_for f p b) (clone_for-IsOwned f p b o)

  pub clone_functions-IsOwned :
      (g : PointsMap) (b : Bitcode Code) → IsOwned b → IsOwned (clone_functions g b)
  unfolding clone_functions
  clone_functions-IsOwned [] b o = o
  clone_functions-IsOwned ((f, (p, ps)) ∷ g) b o =
      clone_functions-IsOwned g (clone_points f (p ∷ ps) b) (clone_points-IsOwned f (p ∷ ps) b o)

  -- What the later bitcode keeps of the earlier one.
  pub record Extends (b c : Bitcode Code) : Type 0 where
    pub grows : b.next ≤ c.next
    pub kept : (k : ℕ) → k < b.next → c.functions k ≡ b.functions k
    pub same_identifier : c.unique_identifier ≡ b.unique_identifier

  Extends-trans : (b c d : Bitcode Code) → Extends b c → Extends c d → Extends b d
  Extends-trans b c d x y = record {
    grows = omega (arith, x.grows, y.grows);
    kept = λ k h. y.kept k (omega (arith, x.grows)) ∙ x.kept k h;
    same_identifier = y.same_identifier ∙ x.same_identifier;
  }

  clone_for-Extends : (f : ℕ) (p : MutationPoint) (b : Bitcode Code) → Extends b (clone_for f p b)
  clone_for-Extends f p b = record {
    grows = omega arith;
    kept = λ k h. update_ne b.functions b.next k _ (λ e. absurd (omega (arith, e)));
    same_identifier = refl;
  }

  clone_points-Extends :
      (f : ℕ) (ps : List MutationPoint) (b : Bitcode Code) → Extends b (clone_points f ps b)
  clone_points-Extends f [] b = record {
    grows = omega arith;
    kept = λ k h. refl;
    same_identifier = refl;
  }
  clone_points-Extends f (p ∷ ps) b =
      Extends-trans b (clone_for f p b) _ (clone_for-Extends f p b)
        (clone_points-Extends f ps (clone_for f p b))

  pub clone_functions-Extends : (g : PointsMap) (b : Bitcode Code) → Extends b (clone_functions g b)
  unfolding clone_functions
  clone_functions-Extends [] b = record {
    grows = omega arith;
    kept = λ k h. refl;
    same_identifier = refl;
  }
  clone_functions-Extends ((f, (p, ps)) ∷ g) b =
      Extends-trans b (clone_points f (p ∷ ps) b) _ (clone_points-Extends f (p ∷ ps) b)
        (clone_functions-Extends g (clone_points f (p ∷ ps) b))

  clone_points-other :
      (i f : ℕ) (ps : List MutationPoint) (b : Bitcode Code)
      → count i (ids ps) ≡ 0
      → (clone_points f ps b).mutated_function i ≡ b.mutated_function i
  clone_points-other i f [] b h = refl
  clone_points-other i f (p ∷ ps) b h =
      clone_points-other i f ps (clone_for f p b) (ground arith)
      ∙ update_ne b.mutated_function p.id i (some b.next) (λ e. absurd (ground arith))

  clone_functions-other :
      (i : ℕ) (g : PointsMap) (b : Bitcode Code)
      → count i (group_ids g) ≡ 0
      → (clone_functions g b).mutated_function i ≡ b.mutated_function i
  unfolding clone_functions
  clone_functions-other i [] b h = refl
  clone_functions-other i ((f, (p, ps)) ∷ g) b h =
      clone_functions-other i g (clone_points f (p ∷ ps) b)
        (omega (arith, h, count-append i (ids (p ∷ ps)) (group_ids g)))
      ∙ clone_points-other i f (p ∷ ps) b
          (omega (arith, h, count-append i (ids (p ∷ ps)) (group_ids g)))

  -- The function of a point is a new one, with the blocks of the one that the point changes.
  abbrev pub IsCloned : ℕ → List (Block Code) → MutationPoint → Bitcode Code → Type 0
  IsCloned n blocks p b =
      (k : ℕ) × (b.mutated_function p.id ≡ some k)
      × (n ≤ k)
      × (k < b.next)
      × ((b.functions k).blocks ≡ blocks)

  clone_points-IsCloned :
      (n f : ℕ) (ps : List MutationPoint) (b : Bitcode Code) (q : MutationPoint)
      → ((i : ℕ) → count i (ids ps) ≤ 1)
      → f < n
      → n ≤ b.next
      → IsIn q ps
      → IsCloned n (b.functions f).blocks q (clone_points f ps b)
  clone_points-IsCloned n f [] b q single h l i = absurd i
  clone_points-IsCloned n f (p ∷ ps) b q single h l (inl e) =
      let c = clone_for f p b in
      let x = clone_points-Extends f ps c in
      subst (λ r. IsCloned n (b.functions f).blocks r (clone_points f ps c)) e
        (
          b.next,
          clone_points-other p.id f ps c (ground (arith, single p.id))
              ∙ update_self b.mutated_function p.id (some b.next),
          l,
          omega (arith, x.grows),
          ap (λ u. u.blocks) (x.kept b.next (omega arith) ∙ update_self b.functions b.next _),
        )
  clone_points-IsCloned n f (p ∷ ps) b q single h l (inr i) =
      let c = clone_for f p b in
      let same : (c.functions f).blocks ≡ (b.functions f).blocks =
        ap (λ u. u.blocks) ((clone_for-Extends f p b).kept f (omega arith)) in
      subst (λ u. IsCloned n u q (clone_points f ps c)) same
        (clone_points-IsCloned n f ps c q (λ j. ground (arith, single j)) h (omega arith) i)

pub count-ids : (q : MutationPoint) (ps : List MutationPoint) → IsIn q ps → 1 ≤ count q.id (ids ps)
count-ids q [] i = absurd i
count-ids q (p ∷ ps) (inl e) = ground (arith, ap (λ r. r.id) e)
count-ids q (p ∷ ps) (inr i) = ground (arith, count-ids q ps i)

pub original-AllOf :
    (f : ℕ) (p : MutationPoint) (ps : List MutationPoint) (q : MutationPoint)
    → AllOf f (p, ps)
    → IsIn q (p ∷ ps)
    → q.original_function ≡ f
original-AllOf f p ps q all i = All-IsIn (IsPointOf f) (p ∷ ps) q all i

module _ {Code : Type 0} where
  pub clone_functions-IsCloned :
      (n : ℕ) (g : PointsMap) (b : Bitcode Code) (q : MutationPoint)
      → ((i : ℕ) → count i (group_ids g) ≤ 1)
      → IsGrouped n g
      → n ≤ b.next
      → Has q g
      → IsCloned n (b.functions q.original_function).blocks q (clone_functions g b)
  unfolding clone_functions
  clone_functions-IsCloned n [] b q single w l i = absurd i
  clone_functions-IsCloned n ((f, (p, ps)) ∷ g) b q single w l (inl i) =
      let c = clone_points f (p ∷ ps) b in
      let x = clone_functions-Extends g c in
      let count_split = λ (j : ℕ). count-append j (ids (p ∷ ps)) (group_ids g) in
      let (k, e, low, high, body) =
        clone_points-IsCloned n f (p ∷ ps) b q (λ j. omega (arith, count_split j, single j)) w.0 l
          i in
      (
        k,
        clone_functions-other q.id g c
              (omega (arith, count_split q.id, single q.id, count-ids q (p ∷ ps) i))
            ∙ e,
        low,
        omega (arith, high, x.grows),
        ap (λ u. u.blocks) (x.kept k high)
            ∙ body
            ∙ ap (λ o. (b.functions o).blocks) (sym (original-AllOf f p ps q w.2 i)),
      )
  clone_functions-IsCloned n ((f, (p, ps)) ∷ g) b q single w l (inr h) =
      let c = clone_points f (p ∷ ps) b in
      let x = clone_points-Extends f (p ∷ ps) b in
      let (k, e, low, high, body) =
        clone_functions-IsCloned n g c q
          (λ j. omega (arith, count-append j (ids (p ∷ ps)) (group_ids g), single j)) w.3
          (omega (arith, x.grows)) h in
      (
        k,
        e,
        low,
        high,
        body
            ∙ ap (λ u. u.blocks)
                (x.kept q.original_function (omega (arith, l, original-lt n g q w.3 h))),
      )
    where
      original-lt :
          (n : ℕ) (g : PointsMap) (q : MutationPoint)
          → IsGrouped n g
          → Has q g
          → q.original_function < n
      original-lt n [] q w h = absurd h
      original-lt n ((f, (p, ps)) ∷ g) q w (inl i) =
          subst (λ o. o < n) (sym (original-AllOf f p ps q w.2 i)) w.0
      original-lt n ((f, (p, ps)) ∷ g) q w (inr h) = original-lt n g q w.3 h
