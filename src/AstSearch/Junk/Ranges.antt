-- ===== src/AstSearch/Junk/Ranges.antt =====
-- The visitors of ranges keep a smallest expression around the location of the point.
use mathlib.Core.Logic.{ite}
use mull.Base.{
  ℕ, Option, none, some, List, [], ◌∷◌, Bool, true, false, leb, if◌then◌else◌, IsIn, Bool-cases,
  some_injective, ◌≤◌, ◌↔◌, ◌≡◌, inl, inr, refl, sym, ap, subst, arith,
}
use mull.AstSearch.Junk.{
  JunkVisitor, replace_call_visitor, negate_condition_visitor, scalar_value_visitor, Event, binary,
  unary, call, var_decl, children, UnaryOpcode, uo_l_not, unary_opcode_discrete, MutantLocation,
  Expression, better, range_length, is_range_smaller_than_range, location_in_range,
  visit_range_with_ast_expr, visit_children, visit_in_range, best_match, found_mutant,
}
use mull.AstSearch.Junk.Smallest.{Keeps, Keeps-nothing, Keeps-trans}

-- The expression of an event that a visitor of ranges looks at: calls of a real type, negated
-- conditions, and expressions with a constant child.
abbrev pub IsOffered : JunkVisitor → Event → Expression → Type 0
IsOffered replace_call_visitor (call void real location x) e = (real ≡ true) × (x ≡ e)
IsOffered negate_condition_visitor (unary o location x) e = (o ≡ uo_l_not) × (x ≡ e)
IsOffered scalar_value_visitor (children constants x) e = IsIn true constants × (x ≡ e)
IsOffered visitor event e = ⊥

-- The range is valid, and holds the location, ends included, which is no macro's and in its file.
abbrev pub IsAround : MutantLocation → Expression → Type 0
IsAround l e =
    (e.range.is_valid ≡ true)
    × (l.is_file_id ≡ true)
    × (l.file ≡ e.range.file)
    × (e.range.begin_offset ≤ l.offset)
    × (l.offset ≤ e.range.end_offset)

-- Some event offers the expression, and the location is in its range.
abbrev pub IsCandidate : JunkVisitor → MutantLocation → List Event → Expression → Type 0
IsCandidate visitor l events e =
    ((event : Event) × IsIn event events × IsOffered visitor event e) × IsAround l e

abbrev pub IsTested : MutantLocation → Expression → Type 0
IsTested l e = (e.range.is_valid ≡ true) × (location_in_range e.range l ≡ true)

-- Some event offers the expression, and it passes the tests of the visitor.
abbrev pub IsTestedIn : JunkVisitor → MutantLocation → List Event → Expression → Type 0
IsTestedIn visitor l events e =
    ((event : Event) × IsIn event events × IsOffered visitor event e) × IsTested l e

-- One expression that is looked at.
visit_range-Keeps :
    (l : MutantLocation) (e : Expression) (best : Option Expression)
    → Keeps best (visit_range_with_ast_expr l e best) (λ c. (e ≡ c) × IsTested l c)
unfolding visit_range_with_ast_expr is_range_smaller_than_range
visit_range-Keeps l e best = elim (Bool-cases e.range.is_valid) [
  | inr invalid ↦
      simp invalid
        (Keeps-nothing best _ (λ c q. cc (ap (λ x. x.range.is_valid) q.0, q.1.0, invalid)))
  | inl valid ↦ elim (Bool-cases (location_in_range e.range l)) [
    | inr out ↦
        simp (valid, out)
          (Keeps-nothing best _ (λ c q. cc (ap (λ x. location_in_range x.range l) q.0, q.1.1, out)))
    | inl around ↦ simp (valid, around) (inside best valid around)
  ]
]
  where
    inside :
        (best : Option Expression)
        → e.range.is_valid ≡ true
        → location_in_range e.range l ≡ true
        → Keeps best (better e best) (λ c. (e ≡ c) × IsTested l c)
    inside none valid around = (
      inr (refl, (valid, around)),
      λ c d. elim d [ inl f ↦ cc (f) | inr q ↦ omega (arith, ap (λ x. range_length x.range) q.0) ],
    )
    inside (some b) valid around =
        elim (Bool-cases (leb (range_length e.range) (range_length b.range))) [
          | inl smaller ↦ rw smaller (
            inr (refl, (valid, around)),
            λ c d. elim d [
              | inl f ↦ ground (arith, ap (λ x. range_length x.range) (some_injective f))
              | inr q ↦ omega (arith, ap (λ x. range_length x.range) q.0)
            ],
          )
          | inr larger ↦ rw larger (
            inl refl,
            λ c d. elim d [
              | inl f ↦ omega (arith, ap (λ x. range_length x.range) (some_injective f))
              | inr q ↦ ground (arith, ap (λ x. range_length x.range) q.0)
            ],
          )
        ]

visit_children-Keeps :
    (l : MutantLocation) (constants : List Bool) (e : Expression) (best : Option Expression)
    → Keeps best
        (visit_children l constants e best)
        (λ c. (IsIn true constants × (e ≡ c)) × IsTested l c)
visit_children-Keeps l [] e best = Keeps-nothing best _ (λ c q. q.0.0)
visit_children-Keeps l (true ∷ rest) e best =
    Keeps-trans best _ _ _ _ _ (visit_range-Keeps l e best)
      (visit_children-Keeps l rest e (visit_range_with_ast_expr l e best))
      (λ c. (
        λ d. elim d [ inl q ↦ ((inl refl, q.0), q.1) | inr q ↦ ((inr q.0.0, q.0.1), q.1) ],
        λ r. inl (r.0.1, r.1),
      ))
visit_children-Keeps l (false ∷ rest) e best =
    Keeps-trans best best _ (λ c. ⊥) _ _ (Keeps-nothing best (λ c. ⊥) (λ c q. q))
      (visit_children-Keeps l rest e best)
      (λ c. (
        λ d. elim d [ inl q ↦ absurd q | inr q ↦ ((inr q.0.0, q.0.1), q.1) ],
        λ r. elim r.0.0 [ inl f ↦ cc (f) | inr i ↦ inr ((i, r.0.1), r.1) ],
      ))

abbrev pub IsRangeVisitor : JunkVisitor → Type 0
IsRangeVisitor replace_call_visitor = Unit
IsRangeVisitor negate_condition_visitor = Unit
IsRangeVisitor scalar_value_visitor = Unit
IsRangeVisitor visitor = ⊥

abbrev Gives : JunkVisitor → MutantLocation → Event → Expression → Type 0
Gives visitor l event c = IsOffered visitor event c × IsTested l c

call-Keeps :
    (l : MutantLocation) (void real : Bool) (at : ℕ) (x : Expression) (best : Option Expression)
    → Keeps best
        (visit_in_range replace_call_visitor l (call void real at x) best)
        (Gives replace_call_visitor l (call void real at x))
unfolding visit_in_range
call-Keeps l void true at x best =
    Keeps-trans best best _ (λ c. ⊥) _ _ (Keeps-nothing best (λ c. ⊥) (λ c q. q))
      (visit_range-Keeps l x best)
      (λ c. (λ d. elim d [ inl q ↦ absurd q | inr q ↦ ((refl, q.0), q.1) ], λ r. inr (r.0.1, r.1)))
call-Keeps l void false at x best = Keeps-nothing best _ (λ c q. cc (q.0.0))

unary-Keeps :
    (l : MutantLocation) (o : UnaryOpcode) (at : ℕ) (x : Expression) (best : Option Expression)
    → Keeps best
        (visit_in_range negate_condition_visitor l (unary o at x) best)
        (Gives negate_condition_visitor l (unary o at x))
unfolding visit_in_range
unary-Keeps l o at x best =
    elim (unary_opcode_discrete o uo_l_not)
      as (λ d.
        Keeps best (if ite d true false then visit_range_with_ast_expr l x best else best)
          (Gives negate_condition_visitor l (unary o at x))) [
            | yes same ↦
                Keeps-trans best best _ (λ c. ⊥) _ _ (Keeps-nothing best (λ c. ⊥) (λ c q. q))
                  (visit_range-Keeps l x best)
                  (λ c. (
                    λ d. elim d [ inl q ↦ absurd q | inr q ↦ ((same, q.0), q.1) ],
                    λ r. inr (r.0.1, r.1),
                  ))
            | no apart ↦ Keeps-nothing best _ (λ c q. apart q.0.0)
          ]

visit_in_range-Keeps :
    (visitor : JunkVisitor) (l : MutantLocation) (event : Event) (best : Option Expression)
    → IsRangeVisitor visitor
    → Keeps best (visit_in_range visitor l event best) (Gives visitor l event)
unfolding visit_in_range
visit_in_range-Keeps replace_call_visitor l (call void real at x) best r =
    call-Keeps l void real at x best
visit_in_range-Keeps replace_call_visitor l (binary o at x) best r =
    Keeps-nothing best _ (λ c q. q.0)
visit_in_range-Keeps replace_call_visitor l (unary o at x) best r =
    Keeps-nothing best _ (λ c q. q.0)
visit_in_range-Keeps replace_call_visitor l (var_decl o at x) best r =
    Keeps-nothing best _ (λ c q. q.0)
visit_in_range-Keeps replace_call_visitor l (children o x) best r =
    Keeps-nothing best _ (λ c q. q.0)
visit_in_range-Keeps negate_condition_visitor l (unary o at x) best r = unary-Keeps l o at x best
visit_in_range-Keeps negate_condition_visitor l (binary o at x) best r =
    Keeps-nothing best _ (λ c q. q.0)
visit_in_range-Keeps negate_condition_visitor l (call o p at x) best r =
    Keeps-nothing best _ (λ c q. q.0)
visit_in_range-Keeps negate_condition_visitor l (var_decl o at x) best r =
    Keeps-nothing best _ (λ c q. q.0)
visit_in_range-Keeps negate_condition_visitor l (children o x) best r =
    Keeps-nothing best _ (λ c q. q.0)
visit_in_range-Keeps scalar_value_visitor l (children constants x) best r =
    visit_children-Keeps l constants x best
visit_in_range-Keeps scalar_value_visitor l (binary o at x) best r =
    Keeps-nothing best _ (λ c q. q.0)
visit_in_range-Keeps scalar_value_visitor l (unary o at x) best r =
    Keeps-nothing best _ (λ c q. q.0)
visit_in_range-Keeps scalar_value_visitor l (call o p at x) best r =
    Keeps-nothing best _ (λ c q. q.0)
visit_in_range-Keeps scalar_value_visitor l (var_decl o at x) best r =
    Keeps-nothing best _ (λ c q. q.0)
visit_in_range-Keeps JunkVisitor.remove_void_function_visitor l event best r = absurd r
visit_in_range-Keeps JunkVisitor.var_decl_visitor l event best r = absurd r
visit_in_range-Keeps (JunkVisitor.binary_visitor o) l event best r = absurd r
visit_in_range-Keeps (JunkVisitor.unary_visitor o) l event best r = absurd r

best_match-Keeps :
    (visitor : JunkVisitor) (l : MutantLocation) (events : List Event) (best : Option Expression)
    → IsRangeVisitor visitor
    → Keeps best (best_match visitor l events best) (IsTestedIn visitor l events)
unfolding best_match
best_match-Keeps visitor l [] best r = Keeps-nothing best _ (λ c q. q.0.1)
best_match-Keeps visitor l (event ∷ events) best r =
    Keeps-trans best _ _ _ _ _ (visit_in_range-Keeps visitor l event best r)
      (best_match-Keeps visitor l events (visit_in_range visitor l event best) r)
      (λ c. (
        λ d. elim d [
          | inl q ↦ ((event, inl refl, q.0), q.1)
          | inr q ↦ ((q.0.0, inr q.0.1, q.0.2), q.1)
        ],
        λ q. elim q.0.1 [
          | inl here ↦ inl (subst (λ x. IsOffered visitor x c) (sym here) q.0.2, q.1)
          | inr later ↦ inr ((q.0.0, later, q.0.2), q.1)
        ],
      ))

-- What the visitors of ranges keep, by their tests.
found_mutant-tested :
    (visitor : JunkVisitor) (l : MutantLocation) (events : List Event)
    → IsRangeVisitor visitor
    → Keeps none (found_mutant visitor l events) (IsTestedIn visitor l events)
unfolding found_mutant
found_mutant-tested replace_call_visitor l events r =
    best_match-Keeps replace_call_visitor l events none r
found_mutant-tested negate_condition_visitor l events r =
    best_match-Keeps negate_condition_visitor l events none r
found_mutant-tested scalar_value_visitor l events r =
    best_match-Keeps scalar_value_visitor l events none r
found_mutant-tested JunkVisitor.remove_void_function_visitor l events r = absurd r
found_mutant-tested JunkVisitor.var_decl_visitor l events r = absurd r
found_mutant-tested (JunkVisitor.binary_visitor o) l events r = absurd r
found_mutant-tested (JunkVisitor.unary_visitor o) l events r = absurd r

IsTested-IsAround : (l : MutantLocation) (e : Expression) → IsTested l e ↔ IsAround l e
unfolding location_in_range
IsTested-IsAround l e = (
  λ (valid, inside). (valid, ground arith, ground arith, ground arith, ground arith),
  λ (valid, no_macro, same, begins, ends). (valid, ground arith),
)

-- The visitors of replaced calls, negated conditions and scalar values find nothing exactly if no
-- event offers an expression whose valid range holds the location of the point, in its file and in no
-- macro, and otherwise such an expression whose range is as short as that of any other one.
pub found_mutant-Keeps :
    (visitor : JunkVisitor) (l : MutantLocation) (events : List Event)
    → IsRangeVisitor visitor
    → Keeps none (found_mutant visitor l events) (IsCandidate visitor l events)
found_mutant-Keeps visitor l events r =
    Keeps-trans none none _ (λ c. ⊥) _ _ (Keeps-nothing none (λ c. ⊥) (λ c q. q))
      (found_mutant-tested visitor l events r)
      (λ c. (
        λ d. elim d [ inl q ↦ absurd q | inr q ↦ (q.0, (IsTested-IsAround l c).0 q.1) ],
        λ q. inr (q.0, (IsTested-IsAround l c).1 q.1),
      ))
