-- ===== src/AstSearch/Junk/Tests.antt =====
-- A declaration with a comparison, a negated condition and nested calls.
use mull.Base.{ℕ, none, some, List, [], ◌∷◌, true, false, ◌≡◌, inl, inr, refl, IsIn}
use mull.AstSearch.{Opcode}
use mull.AstSearch.Junk.{
  replace_call_visitor, junk_visitor, Event, binary, call, Expression, MutantLocation,
  location_in_range, is_range_smaller_than_range, visit_range_with_ast_expr, visit_in_range,
  best_match, found_mutant,
}
use mull.AstSearch.Junk.Smallest.{Keeps}
use mull.AstSearch.Junk.Ranges.{IsCandidate, found_mutant-Keeps}
use mull.AstSearch.Junk.Tables.{found_mutant-binary_mutations}
use mull.Mutators.Kind.{MutatorKind}

abbrev spanning : ℕ → ℕ → ℕ → Expression
spanning statement b e = record {
  statement = statement;
  range = record { is_valid = true; file = 1; begin_offset = b; end_offset = e };
}

abbrev point : MutantLocation
point = record { id = 40; is_file_id = true; file = 1; offset = 12 }

abbrev events : List Event
events =
    call false true 30 (spanning 1 5 30)
    ∷ call false true 31 (spanning 2 10 15)
    ∷ call false true 32 (spanning 3 20 22)
    ∷ binary Opcode.bo_gt 40 (spanning 4 8 14)
    ∷ []

inner_call : found_mutant replace_call_visitor point events ≡ some (spanning 2 10 15)
unfolding found_mutant best_match visit_in_range visit_range_with_ast_expr location_in_range
    is_range_smaller_than_range
inner_call = refl

found_mutant-Keeps_example :
    Keeps none
      (found_mutant replace_call_visitor point events)
      (IsCandidate replace_call_visitor point events)
found_mutant-Keeps_example = found_mutant-Keeps replace_call_visitor point events tt

found_mutant-binary_mutations_example :
    (e : Expression) × (found_mutant
        (junk_visitor MutatorKind.cxx_greater_than_to_greater_or_equal)
        point
        events
      ≡ some e)
    × IsIn (binary Opcode.bo_gt 40 e) events
found_mutant-binary_mutations_example =
    found_mutant-binary_mutations Opcode.bo_gt MutatorKind.cxx_greater_than_to_greater_or_equal
      point events (spanning 4 8 14)
      (inr (
        inr (
          inr (
            inr
              (inr (inr (inr (inr (inr (inr (inr (inr (inr (inr (inr (inr (inl refl)))))))))))))))))
      (inr (inr (inr (inl refl))))
