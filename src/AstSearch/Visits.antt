-- ===== src/AstSearch/Visits.antt =====
-- What lib/AST/ASTVisitor.cpp records for one expression.
use mull.Base.{
  ℕ, String, Option, none, some, List, Bool, true, false, ◌||◌, IsIn, Bool-cases, some_injective,
  ◌≡◌, ◌↔◌, ◌⊎◌, inl, inr, refl, sym, ap, ◌∙◌, subst, arith,
}
use mull.Mutators.Kind.{MutatorKind}
use mull.AstSearch.{
  Opcode, binary_mutations, includes_mutator, Location, Shape, binary_operator, call_expr,
  other_expr, Expr, expr, Visitor, is_text, first_mutation, is_void_call, save_mutation_point,
  save_first, visit_shape, visit_expr,
}
use mull.AstSearch.Recorded.{
  IsRecorded, IsReadable, OperatorReadable, NodeReadable, HasHash, save_mutation_point-IsRecorded,
}

-- The kind under which an expression is mutated, with the location that is recorded: an operator by
-- the first pair of the table whose kind is wanted; a call that is void by removing it, when that is
-- wanted; any call by replacing it, when that is wanted and removing calls is not.
abbrev pub IsMutated : List MutatorKind → Expr → Shape → MutatorKind → Location → Type 0
IsMutated set e (binary_operator opcode operator_loc) kind at =
    (first_mutation set opcode binary_mutations ≡ some kind) × (operator_loc ≡ at)
IsMutated set e (call_expr type) kind at =
    (((includes_mutator MutatorKind.remove_void_function_mutator set ≡ true)
        × (type ≡ some true)
        × (MutatorKind.remove_void_function_mutator ≡ kind))
      ⊎ ((includes_mutator MutatorKind.remove_void_function_mutator set ≡ false)
          × (includes_mutator MutatorKind.replace_call_mutator set ≡ true)
          × (MutatorKind.replace_call_mutator ≡ kind)))
    × (e.begin_loc ≡ at)
IsMutated set e other_expr kind at = ⊥

module _ (is_regular_file should_skip_path : String → Bool) (set : List MutatorKind) where
  -- The expression is in a file of the user that the filter of paths lets through.
  abbrev pub IsSearched : Expr → Type 0
  IsSearched e =
      (e.begin_loc.in_system_header ≡ false)
      × (is_text e.begin_loc.file "" ≡ false)
      × (should_skip_path e.begin_loc.file ≡ false)

  abbrev pub Gives : Expr → MutatorKind → ℕ → Type 0
  Gives e kind h = (at : Location) × IsMutated set e e.shape kind at × HasHash at h

  abbrev pub IsFound : MutatorKind → ℕ → List Expr → Type 0
  IsFound kind h es = (e : Expr) × IsIn e es × IsSearched e × Gives e kind h

  -- `w` is the visitor after something that gives what `Q` says.
  pub record Adds (v w : Visitor) (Q : MutatorKind → ℕ → Type 0) : Type 0 where
    pub same_skip : w.should_skip_current_function ≡ v.should_skip_current_function
    pub adds :
        (k : MutatorKind) (h : ℕ)
        → IsRecorded k h w.single_unit_mutations ↔ (IsRecorded k h v.single_unit_mutations ⊎ Q k h)

  Adds-nothing :
      (v : Visitor) (Q : MutatorKind → ℕ → Type 0)
      → ((k : MutatorKind) (h : ℕ) → ¬ Q k h)
      → Adds v v Q
  Adds-nothing v Q n = record {
    same_skip = refl;
    adds = λ k h. (inl, λ d. elim d [ inl r ↦ r | inr q ↦ absurd (n k h q) ]);
  }

  Saves : MutatorKind → ℕ → Location → Visitor → (MutatorKind → ℕ → Type 0) → Type 0
  Saves kind statement at v Q =
      (w : Visitor) × (save_mutation_point is_regular_file should_skip_path kind statement at v
        ≡ some w)
      × Adds v w Q

  save_mutation_point-Saves :
      (kind : MutatorKind) (statement : ℕ) (at : Location) (v : Visitor)
      (Q : MutatorKind → ℕ → Type 0)
      → IsReadable is_regular_file should_skip_path at
      → ((k : MutatorKind) (h : ℕ) → ((kind ≡ k) × HasHash at h) ↔ Q k h)
      → Saves kind statement at v Q
  unfolding Saves
  save_mutation_point-Saves kind statement at v Q readable same =
      let (w, run, skip, r) =
        save_mutation_point-IsRecorded is_regular_file should_skip_path kind statement at v
          readable in
      (
        w,
        run,
        record {
          same_skip = skip;
          adds = λ k h. (
            λ x. elim ((r k h).0 x) [ inl o ↦ inl o | inr p ↦ inr ((same k h).0 p) ],
            λ d. (r k h).1 (elim d [ inl o ↦ inl o | inr q ↦ inr ((same k h).1 q) ]),
          );
        },
      )

  abbrev pub Visits : Option Visitor → Visitor → (MutatorKind → ℕ → Type 0) → Type 0
  Visits run v Q = (w : Visitor) × (run ≡ some w) × Adds v w Q

  visit_operator :
      (e : Expr) (opcode : Opcode) (at : Location) (v : Visitor) (o : Option MutatorKind)
      → first_mutation set opcode binary_mutations ≡ o
      → IsReadable is_regular_file should_skip_path at
      → Visits
          (save_first is_regular_file should_skip_path o e.statement at v)
          v
          (λ k h. (l : Location) × IsMutated set e (binary_operator opcode at) k l × HasHash l h)
  unfolding Saves
  visit_operator e opcode at v none eq readable =
      (v, refl, Adds-nothing v _ (λ k h g. cc (eq, g.1.0)))
  visit_operator e opcode at v (some kind) eq readable =
      save_mutation_point-Saves kind e.statement at v _ readable (λ k h. (
        λ p. (at, (eq ∙ ap (λ (x : MutatorKind). some x) p.0, refl), p.1),
        λ g. (some_injective (sym eq ∙ g.1.0), subst (λ l. HasHash l h) (sym g.1.1) g.2),
      ))

  visit_call :
      (e : Expr) (type : Option Bool) (v : Visitor)
      → IsReadable is_regular_file should_skip_path e.begin_loc
      → Visits
          (visit_shape is_regular_file should_skip_path set e (call_expr type) v)
          v
          (λ k h. (l : Location) × IsMutated set e (call_expr type) k l × HasHash l h)
  unfolding visit_shape Saves
  visit_call e type v readable =
      elim (Bool-cases (includes_mutator MutatorKind.remove_void_function_mutator set)) [
        | inl removes ↦ rw removes (elim (Bool-cases (is_void_call type)) [
          | inl void ↦ rw void (
              save_mutation_point-Saves MutatorKind.remove_void_function_mutator e.statement
                e.begin_loc v _ readable
                (λ k h. (
                  λ p. (e.begin_loc, (inl (refl, is_void type void, p.0), refl), p.1),
                  λ g. elim g.1.0 [
                    | inl r ↦ (r.2, subst (λ l. HasHash l h) (sym g.1.1) g.2)
                    | inr r ↦ cc (r.0)
                  ],
                )))
          | inr typed ↦ rw typed (
            v,
            refl,
            Adds-nothing v _ (λ k h g. elim g.1.0 [
              | inl r ↦ cc (ap is_void_call r.1, typed)
              | inr r ↦ cc (r.0)
            ]),
          )
        ])
        | inr keeps ↦
            rw keeps (elim (Bool-cases (includes_mutator MutatorKind.replace_call_mutator set)) [
              | inl replaces ↦ rw replaces (
                  save_mutation_point-Saves MutatorKind.replace_call_mutator e.statement e.begin_loc
                    v _ readable
                    (λ k h. (
                      λ p. (e.begin_loc, (inr (refl, refl, p.0), refl), p.1),
                      λ g. elim g.1.0 [
                        | inl r ↦ cc (r.0)
                        | inr r ↦ (r.2, subst (λ l. HasHash l h) (sym g.1.1) g.2)
                      ],
                    )))
              | inr neither ↦ rw neither (
                v,
                refl,
                Adds-nothing v _ (λ k h g. elim g.1.0 [ inl r ↦ cc (r.0) | inr r ↦ cc (r.1) ]),
              )
            ])
      ]
    where
      is_void : (t : Option Bool) → is_void_call t ≡ true → t ≡ some true
      is_void none b = cc
      is_void (some true) b = refl
      is_void (some false) b = cc

  visit_shape-Visits :
      (e : Expr) (shape : Shape) (v : Visitor)
      → IsReadable is_regular_file should_skip_path e.begin_loc
      → OperatorReadable is_regular_file should_skip_path shape
      → Visits
          (visit_shape is_regular_file should_skip_path set e shape v)
          v
          (λ k h. (l : Location) × IsMutated set e shape k l × HasHash l h)
  unfolding visit_shape
  visit_shape-Visits e (binary_operator opcode at) v readable op =
      visit_operator e opcode at v (first_mutation set opcode binary_mutations) refl op
  visit_shape-Visits e (call_expr type) v readable op = visit_call e type v readable
  visit_shape-Visits e other_expr v readable op = (v, refl, Adds-nothing v _ (λ k h g. g.1))

  -- The condition under which `VisitExpr` does nothing.
  abbrev is_left_out : Bool → Expr → Bool
  is_left_out in_main e =
      in_main
      || e.begin_loc.in_system_header
      || is_text e.begin_loc.file ""
      || should_skip_path e.begin_loc.file

  is_left_out-IsSearched :
      (in_main : Bool) (e : Expr)
      → (is_left_out in_main e ≡ false) ↔ ((in_main ≡ false) × IsSearched e)
  is_left_out-IsSearched in_main e = (
    λ h. (ground arith, (ground arith, ground arith, ground arith)),
    λ h. ground (arith, h.0, h.1.0, h.1.1, h.1.2),
  )

  pub visit_expr-Visits :
      (e : Expr) (v : Visitor)
      → NodeReadable is_regular_file should_skip_path (expr e)
      → Visits
          (visit_expr is_regular_file should_skip_path set e v)
          v
          (λ k h. ((v.should_skip_current_function ≡ false) × IsSearched e) × Gives e k h)
  unfolding visit_expr
  visit_expr-Visits e v readable =
      let same = is_left_out-IsSearched v.should_skip_current_function e in
      elim (Bool-cases (is_left_out v.should_skip_current_function e)) [
        | inl out ↦ rw out (v, refl, Adds-nothing v _ (λ k h g. cc (same.1 g.0, out)))
        | inr at ↦
            let (w, run, a) = visit_shape-Visits e e.shape v readable.0 readable.1 in
            rw at (
              w,
              run,
              record {
                same_skip = a.same_skip;
                adds = λ k h. (
                  λ r. elim ((a.adds k h).0 r) [ inl o ↦ inl o | inr g ↦ inr (same.0 at, g) ],
                  λ d. (a.adds k h).1 (elim d [ inl o ↦ inl o | inr g ↦ inr g.1 ]),
                );
              },
            )
      ]
