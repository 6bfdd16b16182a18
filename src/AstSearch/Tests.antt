-- ===== src/AstSearch/Tests.antt =====
-- A tree with a comparison in `main` and a comparison and a call in another function.
use mull.Base.{
  ℕ, String, Option, none, some, List, [], ◌∷◌, Bool, true, false, String_discrete, ℕ_discrete, ◌≡◌,
  refl,
}
use mull.Base.Dict.{lookup, insert}
use mull.Mutators.Kind.{MutatorKind, mutator_kind_discrete}
use mull.AstStorage.{line_column_hash}
use mull.AstStorage.Mutations.{AstUnit, Storage, is_source, mutation_exists}
use mull.AstSearch.{
  Opcode, opcode_discrete, Location, Shape, Expr, Node, Visitor, empty_visitor, includes_mutator,
  is_text, first_mutation, visit_function_decl, save_mutation_point, visit_shape, visit_expr, visit,
  traverse, should_skip,
}
use mull.AstSearch.Lexical.{Tree, done, function, expression, preorder}

abbrev is_file : String → Bool
is_file s = true

abbrev skips_no_path : String → Bool
skips_no_path s = false

abbrev at_line : ℕ → Location
at_line line = record { in_system_header = false; file = "a.cpp"; line = line; column = 5 }

abbrev comparison : ℕ → ℕ → Expr
comparison statement line = record {
  statement = statement;
  begin_loc = at_line line;
  shape = Shape.binary_operator Opcode.bo_gt (at_line line);
}

abbrev call : Expr
call = record { statement = 3; begin_loc = at_line 4; shape = Shape.call_expr (some true) }

abbrev tree : Tree
tree =
    function "main" (expression (comparison 1 2) done)
      (function "max" (expression (comparison 2 3) (expression call done)) done)

abbrev nodes : List Node
nodes = preorder tree

abbrev kinds : List MutatorKind
kinds =
    MutatorKind.cxx_greater_than_to_greater_or_equal ∷ MutatorKind.cxx_greater_than_to_less_or_equal
    ∷ MutatorKind.remove_void_function_mutator ∷ []

abbrev unit_of : Option Visitor → AstUnit
unit_of none = []
unit_of (some v) = v.single_unit_mutations

abbrev answer_at : MutatorKind → ℕ → Option Bool
answer_at kind line =
    should_skip is_file kind (some record { file_path = "a.cpp"; line = line; column = 5 })
      (("a.cpp", unit_of (traverse is_file skips_no_path kinds nodes empty_visitor)) ∷ [])

-- The comparison of `max` is recorded, that of `main` is not; the second kind of the same operator
-- has no bucket.
kept : answer_at MutatorKind.cxx_greater_than_to_less_or_equal 3 ≡ some false
unfolding should_skip mutation_exists is_source traverse visit visit_function_decl visit_expr
    visit_shape save_mutation_point first_mutation includes_mutator is_text line_column_hash lookup
    insert String_discrete ℕ_discrete mutator_kind_discrete opcode_discrete
kept = refl

left_out : answer_at MutatorKind.cxx_greater_than_to_less_or_equal 2 ≡ some true
unfolding should_skip mutation_exists is_source traverse visit visit_function_decl visit_expr
    visit_shape save_mutation_point first_mutation includes_mutator is_text line_column_hash lookup
    insert String_discrete ℕ_discrete mutator_kind_discrete opcode_discrete
left_out = refl

no_bucket : answer_at MutatorKind.cxx_greater_than_to_greater_or_equal 3 ≡ none
unfolding should_skip mutation_exists is_source traverse visit visit_function_decl visit_expr
    visit_shape save_mutation_point first_mutation includes_mutator is_text line_column_hash lookup
    insert String_discrete ℕ_discrete mutator_kind_discrete opcode_discrete
no_bucket = refl

abbrev storage : Storage
storage = ("a.cpp", unit_of (traverse is_file skips_no_path kinds nodes empty_visitor)) ∷ []

-- What the flag does where `HasFlatFunctions` does not hold: the initializer of a variable after `main`
-- is left out, and an expression in `main` after a function that is declared there is recorded.
abbrev answer_in : Tree → Option Bool
answer_in t =
    should_skip is_file MutatorKind.cxx_greater_than_to_less_or_equal
      (some record { file_path = "a.cpp"; line = 3; column = 5 })
      (("a.cpp", unit_of (traverse is_file skips_no_path kinds (preorder t) empty_visitor)) ∷ [])

global_after_main :
    answer_in (
      function "f"
        (expression (comparison 1 2) done)
        (function "main" done (expression (comparison 2 3) done)))
    ≡ some true
unfolding should_skip mutation_exists is_source traverse visit visit_function_decl visit_expr
    visit_shape save_mutation_point first_mutation includes_mutator is_text line_column_hash lookup
    insert String_discrete ℕ_discrete mutator_kind_discrete opcode_discrete
global_after_main = refl

declared_in_main :
    answer_in (function "main" (function "f" done (expression (comparison 2 3) done)) done)
    ≡ some false
unfolding should_skip mutation_exists is_source traverse visit visit_function_decl visit_expr
    visit_shape save_mutation_point first_mutation includes_mutator is_text line_column_hash lookup
    insert String_discrete ℕ_discrete mutator_kind_discrete opcode_discrete
declared_in_main = refl
