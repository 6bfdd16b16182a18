-- ===== src/AstSearch/Junk.antt =====
-- lib/JunkDetection/CXX/CXXJunkDetector.cpp with the visitors of lib/JunkDetection/CXX/Visitors: whether
-- the syntax tree has what a mutation point changes. What clang reports while it walks a declaration is
-- a list of events, one for each callback; a visitor that returns false stops the walk. File offsets
-- are `unsigned`, so lengths are taken modulo 2^32. A failed assertion is `none`.
mod Ranges
mod Smallest
mod Tables
mod Tests
use mathlib.Core.Logic.{ite}
use mull.Base.{
  ℕ, ◌+◌, ◌-◌, ◌%◌, ◌^◌, String, Option, none, some, List, [], ◌∷◌, Bool, true, false, ◌&&◌, ◌||◌,
  not, leb, ◌==◌, if◌then◌else◌, assert, ◌>>=◌, ◌>>◌,
}
use mull.Mutators.Kind.{MutatorKind}
use mull.AstStorage.Mutations.{Storage, save_mutation}
use mull.AstSearch.{Opcode, opcode_discrete}

pub data UnaryOpcode : Type 0 where
  uo_pre_inc uo_post_inc uo_pre_dec uo_post_dec uo_not uo_minus uo_l_not : UnaryOpcode

unfoldable pub unary_opcode_discrete : Discrete UnaryOpcode
unary_opcode_discrete = hlevel

-- The visitor that a kind is looked for with.
pub data JunkVisitor : Type 0 where
  remove_void_function_visitor replace_call_visitor negate_condition_visitor scalar_value_visitor
        var_decl_visitor :
      JunkVisitor
  binary_visitor : Opcode → JunkVisitor
  unary_visitor : UnaryOpcode → JunkVisitor

unfoldable pub junk_visitor : MutatorKind → JunkVisitor
junk_visitor MutatorKind.remove_void_function_mutator = remove_void_function_visitor
junk_visitor MutatorKind.replace_call_mutator = replace_call_visitor
junk_visitor MutatorKind.negate_mutator = negate_condition_visitor
junk_visitor MutatorKind.scalar_value_mutator = scalar_value_visitor
junk_visitor MutatorKind.cxx_less_than_to_less_or_equal = binary_visitor Opcode.bo_lt
junk_visitor MutatorKind.cxx_less_or_equal_to_less_than = binary_visitor Opcode.bo_le
junk_visitor MutatorKind.cxx_greater_than_to_greater_or_equal = binary_visitor Opcode.bo_gt
junk_visitor MutatorKind.cxx_greater_or_equal_to_greater_than = binary_visitor Opcode.bo_ge
junk_visitor MutatorKind.cxx_equal_to_not_equal = binary_visitor Opcode.bo_eq
junk_visitor MutatorKind.cxx_not_equal_to_equal = binary_visitor Opcode.bo_ne
junk_visitor MutatorKind.cxx_greater_than_to_less_or_equal = binary_visitor Opcode.bo_gt
junk_visitor MutatorKind.cxx_greater_or_equal_to_less_than = binary_visitor Opcode.bo_ge
junk_visitor MutatorKind.cxx_less_than_to_greater_or_equal = binary_visitor Opcode.bo_lt
junk_visitor MutatorKind.cxx_less_or_equal_to_greater_than = binary_visitor Opcode.bo_le
junk_visitor MutatorKind.cxx_add_to_sub = binary_visitor Opcode.bo_add
junk_visitor MutatorKind.cxx_add_assign_to_sub_assign = binary_visitor Opcode.bo_add_assign
junk_visitor MutatorKind.cxx_pre_inc_to_pre_dec = unary_visitor uo_pre_inc
junk_visitor MutatorKind.cxx_post_inc_to_post_dec = unary_visitor uo_post_inc
junk_visitor MutatorKind.cxx_sub_to_add = binary_visitor Opcode.bo_sub
junk_visitor MutatorKind.cxx_sub_assign_to_add_assign = binary_visitor Opcode.bo_sub_assign
junk_visitor MutatorKind.cxx_pre_dec_to_pre_inc = unary_visitor uo_pre_dec
junk_visitor MutatorKind.cxx_post_dec_to_post_inc = unary_visitor uo_post_dec
junk_visitor MutatorKind.cxx_mul_to_div = binary_visitor Opcode.bo_mul
junk_visitor MutatorKind.cxx_mul_assign_to_div_assign = binary_visitor Opcode.bo_mul_assign
junk_visitor MutatorKind.cxx_div_to_mul = binary_visitor Opcode.bo_div
junk_visitor MutatorKind.cxx_div_assign_to_mul_assign = binary_visitor Opcode.bo_div_assign
junk_visitor MutatorKind.cxx_rem_to_div = binary_visitor Opcode.bo_rem
junk_visitor MutatorKind.cxx_rem_assign_to_div_assign = binary_visitor Opcode.bo_rem_assign
junk_visitor MutatorKind.cxx_bitwise_not_to_noop = unary_visitor uo_not
junk_visitor MutatorKind.cxx_unary_minus_to_noop = unary_visitor uo_minus
junk_visitor MutatorKind.cxx_l_shift_to_r_shift = binary_visitor Opcode.bo_shl
junk_visitor MutatorKind.cxx_l_shift_assign_to_r_shift_assign = binary_visitor Opcode.bo_shl_assign
junk_visitor MutatorKind.cxx_r_shift_to_l_shift = binary_visitor Opcode.bo_shr
junk_visitor MutatorKind.cxx_r_shift_assign_to_l_shift_assign = binary_visitor Opcode.bo_shr_assign
junk_visitor MutatorKind.cxx_bitwise_and_to_or = binary_visitor Opcode.bo_and
junk_visitor MutatorKind.cxx_bitwise_and_assign_to_or_assign = binary_visitor Opcode.bo_and_assign
junk_visitor MutatorKind.cxx_bitwise_or_to_and = binary_visitor Opcode.bo_or
junk_visitor MutatorKind.cxx_bitwise_or_assign_to_and_assign = binary_visitor Opcode.bo_or_assign
junk_visitor MutatorKind.cxx_bitwise_xor_to_or = binary_visitor Opcode.bo_xor
junk_visitor MutatorKind.cxx_bitwise_xor_assign_to_or_assign = binary_visitor Opcode.bo_xor_assign
junk_visitor MutatorKind.cxx_assign_const = binary_visitor Opcode.bo_assign
junk_visitor MutatorKind.cxx_init_const = var_decl_visitor
junk_visitor MutatorKind.cxx_logical_and_to_or = binary_visitor Opcode.bo_l_and
junk_visitor MutatorKind.cxx_logical_or_to_and = binary_visitor Opcode.bo_l_or

-- A source range, as file and offsets.
pub record SourceRange : Type 0 where
  pub is_valid : Bool
  pub file : ℕ
  pub begin_offset : ℕ
  pub end_offset : ℕ

-- The location of a point: its encoding, and its file and offset.
pub record MutantLocation : Type 0 where
  pub id : ℕ
  pub is_file_id : Bool
  pub file : ℕ
  pub offset : ℕ

pub record Expression : Type 0 where
  pub statement : ℕ
  pub range : SourceRange

-- `call` is one of the three callbacks for calls, with the location that the callback looks at and
-- whether the type is there and void or real; `var_decl` tells whether it is only a declaration;
-- `children` tells for each child of an expression whether it is there and constant.
pub data Event : Type 0 where
  binary : Opcode → (operator_loc : ℕ) → Expression → Event
  unary : UnaryOpcode → (operator_loc : ℕ) → Expression → Event
  call : (is_void is_real : Bool) → (location : ℕ) → Expression → Event
  var_decl : (declaration_only : Bool) → (location : ℕ) → (init : Option Expression) → Event
  children : List Bool → Expression → Event

unfoldable pub location_in_range : SourceRange → MutantLocation → Bool
location_in_range r l =
    l.is_file_id && (l.file == r.file) && leb r.begin_offset l.offset && leb l.offset r.end_offset

abbrev pub range_length : SourceRange → ℕ
range_length r = (r.end_offset + 2 ^ 32 - r.begin_offset) % 2 ^ 32

unfoldable pub is_range_smaller_than_range : (first second : SourceRange) → Bool
is_range_smaller_than_range first second = leb (range_length first) (range_length second)

abbrev pub better : Expression → Option Expression → Option Expression
better e none = some e
better e (some best) = if is_range_smaller_than_range e.range best.range then some e else some best

unfoldable pub visit_range_with_ast_expr :
    MutantLocation → Expression → (best : Option Expression) → Option Expression
unfolding is_range_smaller_than_range location_in_range
visit_range_with_ast_expr l e best =
    if not e.range.is_valid
    then best
    else if location_in_range e.range l
    then better e best
    else best

-- A visitor of ranges is called once for each constant child.
abbrev pub visit_children :
    MutantLocation → List Bool → Expression → (best : Option Expression) → Option Expression
visit_children l [] e best = best
visit_children l (constant ∷ rest) e best =
    visit_children l rest e (if constant then visit_range_with_ast_expr l e best else best)

-- What the visitors of ranges do at an event.
unfoldable pub visit_in_range :
    JunkVisitor → MutantLocation → Event → (best : Option Expression) → Option Expression
unfolding visit_range_with_ast_expr
visit_in_range replace_call_visitor l (call void is_real location e) best =
    if is_real then visit_range_with_ast_expr l e best else best
visit_in_range negate_condition_visitor l (unary opcode location e) best =
    if ite (unary_opcode_discrete opcode uo_l_not) true false
    then visit_range_with_ast_expr l e best
    else best
visit_in_range scalar_value_visitor l (children constants e) best =
    visit_children l constants e best
visit_in_range visitor l event best = best

-- What the visitors of exact locations find at an event, which ends the walk.
unfoldable pub match_at : JunkVisitor → MutantLocation → Event → Option Expression
match_at (binary_visitor opcode) l (binary o location e) =
    if ite (opcode_discrete o opcode) true false && (location == l.id) then some e else none
match_at (unary_visitor opcode) l (unary o location e) =
    if ite (unary_opcode_discrete o opcode) true false && (location == l.id) then some e else none
match_at remove_void_function_visitor l (call is_void real location e) =
    if is_void && (location == l.id) then some e else none
match_at var_decl_visitor l (var_decl declaration_only location init) =
    if declaration_only then none else if location == l.id then init else none
match_at visitor l event = none

unfoldable pub first_match : JunkVisitor → MutantLocation → List Event → Option Expression
unfolding match_at
first_match visitor l [] = none
first_match visitor l (event ∷ events) = elim (match_at visitor l event) [
  | none ↦ first_match visitor l events
  | some e ↦ some e
]

unfoldable pub best_match :
    JunkVisitor → MutantLocation → List Event → (best : Option Expression) → Option Expression
unfolding visit_in_range
best_match visitor l [] best = best
best_match visitor l (event ∷ events) best =
    best_match visitor l events (visit_in_range visitor l event best)

-- `TraverseDecl` and `foundMutant`.
unfoldable pub found_mutant : JunkVisitor → MutantLocation → List Event → Option Expression
unfolding first_match best_match
found_mutant (binary_visitor opcode) l events = first_match (binary_visitor opcode) l events
found_mutant (unary_visitor opcode) l events = first_match (unary_visitor opcode) l events
found_mutant remove_void_function_visitor l events =
    first_match remove_void_function_visitor l events
found_mutant var_decl_visitor l events = first_match var_decl_visitor l events
found_mutant visitor l events = best_match visitor l events none

-- What the syntax tree of the point's unit gives: the location of the point with its line and
-- column, whether that is in a system header, and the walk of the declaration around it.
pub record MutantAst : Type 0 where
  pub location : MutantLocation
  pub line : ℕ
  pub column : ℕ
  pub in_system_header : Bool
  pub declaration : Option (List Event)

-- A point: its kind, whether its source location is null, and the path of its unit.
pub record JunkPoint : Type 0 where
  pub kind : MutatorKind
  pub is_null : Bool
  pub unit_file_path : String

module _ (is_regular_file : String → Bool) where
  abbrev pub save_found :
      JunkPoint → MutantAst → Option Expression → Storage → Option (Bool × Storage)
  save_found p ast none storage = some (true, storage)
  save_found p ast (some e) storage = do
    saved ←
        save_mutation is_regular_file p.unit_file_path p.kind e.statement ast.line ast.column
          storage
    some (false, saved)

  abbrev pub junk_in :
      JunkPoint → MutantAst → Option (List Event) → Storage → Option (Bool × Storage)
  junk_in p ast none storage = some (true, storage)
  junk_in p ast (some events) storage =
      save_found p ast (found_mutant (junk_visitor p.kind) ast.location events) storage

  unfoldable pub is_junk_mutation : JunkPoint → MutantAst → Storage → Option (Bool × Storage)
  unfolding junk_visitor found_mutant save_mutation
  is_junk_mutation p ast storage =
      if ast.in_system_header then some (true, storage) else junk_in p ast ast.declaration storage

  unfoldable pub is_junk : JunkPoint → MutantAst → Storage → Option (Bool × Storage)
  unfolding is_junk_mutation
  is_junk p ast storage = if p.is_null then some (true, storage) else is_junk_mutation p ast storage
