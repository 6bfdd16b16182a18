-- ===== src/AstSearch/Recorded.antt =====
-- What a traversal of lib/AST/ASTVisitor.cpp records, against the expressions of the tree.
use mull.Base.{
  ℕ, String, some, List, [], ◌∷◌, Bool, true, false, if◌then◌else◌, ℕ_discrete, Bool-cases,
  Option-cases, some_injective, or_else, ◌≡◌, ◌↔◌, ◌⊎◌, inl, inr, refl, ap, ◌∙◌, subst,
}
use mull.Base.Dict.{
  lookup, emplace, lookup-insert_self, lookup-insert_ne, lookup-emplace_self, lookup-emplace_ne,
}
use mull.Mutators.Kind.{MutatorKind, mutator_kind_discrete}
use mull.AstStorage.{line_column_hash}
use mull.AstStorage.Mutations.{AstMutation, mutation, AstUnit, Bucket, or_empty, is_source}
use mull.AstSearch.{
  Location, Shape, binary_operator, call_expr, other_expr, Expr, Node, function_decl, expr, Visitor,
  is_text, store_in_unit, save_mutation_point,
}

-- A mutation of the kind is recorded under the hash.
abbrev pub IsRecorded : MutatorKind → ℕ → AstUnit → Type 0
IsRecorded kind h unit =
    (m : AstMutation) × (lookup ℕ_discrete h (or_empty (lookup mutator_kind_discrete kind unit))
      ≡ some m)

store_in_unit-IsRecorded :
    (k kind : MutatorKind) (h hash : ℕ) (m : AstMutation) (u : AstUnit)
    → IsRecorded k h (store_in_unit kind hash m u) ↔ (IsRecorded k h u ⊎ ((kind ≡ k) × (hash ≡ h)))
store_in_unit-IsRecorded k kind h hash m u =
    let bucket : Bucket = or_empty (lookup mutator_kind_discrete kind u) in
    elim (mutator_kind_discrete kind k) [
      | no apart ↦
          let same =
            lookup-insert_ne mutator_kind_discrete kind k (emplace ℕ_discrete hash m bucket) u
              apart in
          rw same (λ r. inl r, λ d. elim d [ inl r ↦ r | inr p ↦ absurd (apart p.0) ])
      | yes e ↦
          let at =
            lookup-insert_self mutator_kind_discrete kind (emplace ℕ_discrete hash m bucket) u in
          subst
            (λ j.
              IsRecorded j h (store_in_unit kind hash m u)
              ↔ (IsRecorded j h u ⊎ ((kind ≡ j) × (hash ≡ h))))
            e
            (rw at (elim (ℕ_discrete hash h) [
              | no apart ↦
                  rw (lookup-emplace_ne ℕ_discrete hash h m bucket apart)
                    (λ r. inl r, λ d. elim d [ inl r ↦ r | inr p ↦ absurd (apart p.1) ])
              | yes f ↦ (
                λ r. inr (refl, f),
                λ d.
                    subst
                      (λ x.
                        (w : AstMutation) × (lookup ℕ_discrete x (emplace ℕ_discrete hash m bucket)
                          ≡ some w))
                      f
                      (elim (Option-cases (lookup ℕ_discrete hash bucket)) [
                        | inl n ↦ (
                          m,
                          lookup-emplace_self ℕ_discrete hash m bucket
                              ∙ ap (λ o. or_else o (some m)) n,
                        )
                        | inr s ↦ (
                          s.0,
                          lookup-emplace_self ℕ_discrete hash m bucket
                              ∙ ap (λ o. or_else o (some m)) s.1,
                        )
                      ]),
              )
            ]))
    ]

-- The expressions before which the function declared last is not `main`.
abbrev pub unskipped : (in_main : Bool) → List Node → List Expr
unskipped in_main [] = []
unskipped in_main (function_decl name ∷ nodes) = unskipped (is_text name "main") nodes
unskipped in_main (expr e ∷ nodes) =
    let rest = unskipped in_main nodes in if in_main then rest else e ∷ rest

-- The hash of a location that is in a file.
abbrev pub HasHash : Location → ℕ → Type 0
HasHash at h = (is_text at.file "" ≡ false) × (line_column_hash at.line at.column ≡ some h)

module _ (is_regular_file should_skip_path : String → Bool) where
  -- The location is in no file, or in a source file and has a hash.
  abbrev pub IsReadable : Location → Type 0
  IsReadable at =
      (is_text at.file "" ≡ true)
      ⊎ ((is_source is_regular_file at.file ≡ true)
          × ((h : ℕ) × (line_column_hash at.line at.column ≡ some h)))

  abbrev pub OperatorReadable : Shape → Type 0
  OperatorReadable (binary_operator opcode operator_loc) = IsReadable operator_loc
  OperatorReadable (call_expr type) = Unit
  OperatorReadable other_expr = Unit

  abbrev pub NodeReadable : Node → Type 0
  NodeReadable (function_decl name) = Unit
  NodeReadable (expr e) = IsReadable e.begin_loc × OperatorReadable e.shape

  pub save_mutation_point-IsRecorded :
      (kind : MutatorKind) (statement : ℕ) (at : Location) (v : Visitor)
      → IsReadable at
      → (w : Visitor) × (save_mutation_point is_regular_file should_skip_path kind statement at v
          ≡ some w)
        × (w.should_skip_current_function ≡ v.should_skip_current_function)
        × ((k : MutatorKind) (h : ℕ)
            → IsRecorded k h w.single_unit_mutations
              ↔ (IsRecorded k h v.single_unit_mutations ⊎ ((kind ≡ k) × HasHash at h)))
  unfolding save_mutation_point
  save_mutation_point-IsRecorded kind statement at v (inl nowhere) =
      rw nowhere (v, refl, refl, λ k h. (inl, λ d. elim d [ inl r ↦ r | inr p ↦ cc ]))
  save_mutation_point-IsRecorded kind statement at v (inr (source, (hash, e))) =
      elim (Bool-cases (is_text at.file "")) [
        | inl nowhere ↦
            rw nowhere (v, refl, refl, λ k h. (inl, λ d. elim d [ inl r ↦ r | inr p ↦ cc ]))
        | inr somewhere ↦
            let m = mutation kind statement at.line at.column in
            let w : Visitor = record v {
              single_unit_mutations = store_in_unit kind hash m v.single_unit_mutations;
            } in
            rw somewhere (
              rw source (
                rw e (
                  w,
                  refl,
                  refl,
                  λ k h.
                      let s = store_in_unit-IsRecorded k kind h hash m v.single_unit_mutations in
                      (
                        λ r. elim (s.0 r) [
                          | inl o ↦ inl o
                          | inr p ↦ inr (p.0, (refl, ap (λ (x : ℕ). some x) p.1))
                        ],
                        λ d. elim d [
                          | inl o ↦ s.1 (inl o)
                          | inr p ↦ s.1 (inr (p.0, some_injective p.1.1))
                        ],
                      ),
                )))
      ]
