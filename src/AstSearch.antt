-- ===== src/AstSearch.antt =====
-- The search for mutations in syntax trees: lib/AST/ASTVisitor.cpp, ASTSearchTask.cpp, ASTFinder.cpp
-- and ASTMutationFilter.cpp, and MutatorKindSet of lib/Mutators/MutatorKind.cpp. The order in which clang
-- visits the nodes of a tree is the order of a list; the file system and the filter of paths are
-- parameters. A failed assertion, an overflow of `int` and an error that ends the program are `none`.
pub mod Junk
mod Recorded
mod Lexical
mod Traversal
mod Visits
mod Filtered
mod Tests
use mathlib.Core.Logic.{ite}
use mull.Base.{
  ℕ, String, Option, none, some, List, [], ◌∷◌, ◌++◌, Bool, true, false, not, ◌&&◌, if◌then◌else◌,
  String_discrete, ℕ_discrete, assert, ◌>>=◌, ◌>>◌, ◌==◌, ◌||◌,
}
use mull.Base.Dict.{lookup, insert, emplace}
use mull.Mutators.Kind.{MutatorKind, mutator_kind_discrete}
use mull.AstStorage.{line_column_hash}
use mull.AstStorage.Mutations.{
  AstMutation, mutation, AstUnit, Storage, or_empty, is_source, mutation_exists,
}

-- The binary operators of clang that the search knows, and plain assignment.
pub data Opcode : Type 0 where
  bo_add bo_sub bo_mul bo_div bo_rem bo_add_assign bo_sub_assign bo_mul_assign bo_div_assign
        bo_rem_assign bo_eq bo_ne bo_gt bo_lt bo_ge bo_le bo_and bo_or bo_xor bo_shl bo_shr
        bo_and_assign bo_or_assign bo_xor_assign bo_shl_assign bo_shr_assign bo_l_and bo_l_or
        bo_assign :
      Opcode

unfoldable pub opcode_discrete : Discrete Opcode
opcode_discrete = hlevel

abbrev pub binary_mutations : List (Opcode × MutatorKind)
binary_mutations =
    (bo_add, MutatorKind.cxx_add_to_sub)
    ∷ (bo_sub, MutatorKind.cxx_sub_to_add)
    ∷ (bo_mul, MutatorKind.cxx_mul_to_div)
    ∷ (bo_div, MutatorKind.cxx_div_to_mul)
    ∷ (bo_rem, MutatorKind.cxx_rem_to_div)
    ∷ (bo_add_assign, MutatorKind.cxx_add_assign_to_sub_assign)
    ∷ (bo_sub_assign, MutatorKind.cxx_sub_assign_to_add_assign)
    ∷ (bo_mul_assign, MutatorKind.cxx_mul_assign_to_div_assign)
    ∷ (bo_div_assign, MutatorKind.cxx_div_assign_to_mul_assign)
    ∷ (bo_rem_assign, MutatorKind.cxx_rem_assign_to_div_assign)
    ∷ (bo_eq, MutatorKind.cxx_equal_to_not_equal)
    ∷ (bo_ne, MutatorKind.cxx_not_equal_to_equal)
    ∷ (bo_gt, MutatorKind.cxx_greater_than_to_less_or_equal)
    ∷ (bo_lt, MutatorKind.cxx_less_than_to_greater_or_equal)
    ∷ (bo_ge, MutatorKind.cxx_greater_or_equal_to_less_than)
    ∷ (bo_le, MutatorKind.cxx_less_or_equal_to_greater_than)
    ∷ (bo_gt, MutatorKind.cxx_greater_than_to_greater_or_equal)
    ∷ (bo_lt, MutatorKind.cxx_less_than_to_less_or_equal)
    ∷ (bo_ge, MutatorKind.cxx_greater_or_equal_to_greater_than)
    ∷ (bo_le, MutatorKind.cxx_less_or_equal_to_less_than)
    ∷ (bo_and, MutatorKind.cxx_bitwise_and_to_or)
    ∷ (bo_or, MutatorKind.cxx_bitwise_or_to_and)
    ∷ (bo_xor, MutatorKind.cxx_bitwise_xor_to_or)
    ∷ (bo_shl, MutatorKind.cxx_l_shift_to_r_shift)
    ∷ (bo_shr, MutatorKind.cxx_r_shift_to_l_shift)
    ∷ (bo_and_assign, MutatorKind.cxx_bitwise_and_assign_to_or_assign)
    ∷ (bo_or_assign, MutatorKind.cxx_bitwise_or_assign_to_and_assign)
    ∷ (bo_xor_assign, MutatorKind.cxx_bitwise_xor_assign_to_or_assign)
    ∷ (bo_shl_assign, MutatorKind.cxx_l_shift_assign_to_r_shift_assign)
    ∷ (bo_shr_assign, MutatorKind.cxx_r_shift_assign_to_l_shift_assign)
    ∷ (bo_l_and, MutatorKind.cxx_logical_and_to_or)
    ∷ (bo_l_or, MutatorKind.cxx_logical_or_to_and)
    ∷ []

-- `MutatorKindSet::includesMutator`.
unfoldable pub includes_mutator : MutatorKind → List MutatorKind → Bool
includes_mutator kind [] = false
includes_mutator kind (k ∷ set) =
    ite (mutator_kind_discrete k kind) true (includes_mutator kind set)

-- A location as the source manager of clang knows it.
pub record Location : Type 0 where
  pub in_system_header : Bool
  pub file : String
  pub line : ℕ
  pub column : ℕ

-- `call_expr` tells whether the call has a type, and whether that is void.
pub data Shape : Type 0 where
  binary_operator : (opcode : Opcode) → (operator_loc : Location) → Shape
  call_expr : (is_void : Option Bool) → Shape
  other_expr : Shape

-- `statement` stands for the pointer.
pub record Expr : Type 0 where
  pub statement : ℕ
  pub begin_loc : Location
  pub shape : Shape

pub data Node : Type 0 where
  function_decl : (name : String) → Node
  expr : Expr → Node

pub record Visitor : Type 0 where
  pub single_unit_mutations : AstUnit
  pub should_skip_current_function : Bool

-- The visitor that the constructor makes.
abbrev pub empty_visitor : Visitor
empty_visitor = record { single_unit_mutations = []; should_skip_current_function = false }

unfoldable pub is_text : (s t : String) → Bool
unfolding String_discrete
is_text s t = ite (String_discrete s t) true false

abbrev pub is_void_call : (is_void : Option Bool) → Bool
is_void_call none = false
is_void_call (some void) = void

-- The loop over the table: the first pair with the opcode and a kind of the set.
unfoldable pub first_mutation :
    List MutatorKind → Opcode → List (Opcode × MutatorKind) → Option MutatorKind
unfolding includes_mutator
first_mutation set opcode [] = none
first_mutation set opcode ((o, kind) ∷ table) =
    if ite (opcode_discrete opcode o) true false && includes_mutator kind set
    then some kind
    else first_mutation set opcode table

-- `count`, `emplace` of an empty bucket, and `emplace` of the mutation.
abbrev pub store_in_unit : MutatorKind → (hash : ℕ) → AstMutation → AstUnit → AstUnit
store_in_unit kind hash m unit =
    insert mutator_kind_discrete kind
      (emplace ℕ_discrete hash m (or_empty (lookup mutator_kind_discrete kind unit))) unit

unfoldable pub visit_function_decl : String → Visitor → Visitor
unfolding is_text
visit_function_decl name v = record v { should_skip_current_function = is_text name "main" }

module _ (is_regular_file should_skip_path : String → Bool) where
  unfoldable pub save_mutation_point :
      MutatorKind → (statement : ℕ) → Location → Visitor → Option Visitor
  unfolding is_text is_source
  save_mutation_point kind statement location v = if is_text location.file "" then some v else do
    assert (is_source is_regular_file location.file)
    hash ← line_column_hash location.line location.column
    some record v {
      single_unit_mutations =
          store_in_unit kind hash (mutation kind statement location.line location.column)
            v.single_unit_mutations;
    }

  abbrev pub save_first : Option MutatorKind → (statement : ℕ) → Location → Visitor → Option Visitor
  save_first none statement location v = some v
  save_first (some kind) statement location v = save_mutation_point kind statement location v

  module _ (set : List MutatorKind) where
    unfoldable pub visit_shape : Expr → Shape → Visitor → Option Visitor
    unfolding first_mutation save_mutation_point
    visit_shape e (binary_operator opcode operator_loc) v =
        save_first (first_mutation set opcode binary_mutations) e.statement operator_loc v
    visit_shape e (call_expr type) v =
        if includes_mutator MutatorKind.remove_void_function_mutator set
        then (if is_void_call type
            then save_mutation_point MutatorKind.remove_void_function_mutator e.statement
                e.begin_loc v
            else some v)
        else if includes_mutator MutatorKind.replace_call_mutator set
        then save_mutation_point MutatorKind.replace_call_mutator e.statement e.begin_loc v
        else some v
    visit_shape e other_expr v = some v

    unfoldable pub visit_expr : Expr → Visitor → Option Visitor
    unfolding visit_shape is_text
    visit_expr e v =
        if v.should_skip_current_function
          || e.begin_loc.in_system_header
          || is_text e.begin_loc.file ""
          || should_skip_path e.begin_loc.file
        then some v
        else visit_shape e e.shape v

    unfoldable pub visit : Node → Visitor → Option Visitor
    unfolding visit_expr visit_function_decl
    visit (function_decl name) v = some (visit_function_decl name v)
    visit (expr e) v = visit_expr e v

    unfoldable pub traverse : List Node → Visitor → Option Visitor
    unfolding visit
    traverse [] v = some v
    traverse (n ∷ nodes) v = visit n v >>= traverse nodes

    -- A bitcode file's source and the nodes of its syntax tree, which `findAST` gives.
    pub record Source : Type 0 where
      pub source_file_name : String
      pub nodes : List Node

    unfoldable pub search_unit : Source → Option (List (String × AstUnit))
    unfolding traverse is_source
    search_unit s = if should_skip_path s.source_file_name then some [] else do
      assert (is_source is_regular_file s.source_file_name)
      v ← traverse s.nodes empty_visitor
      some ((s.source_file_name, v.single_unit_mutations) ∷ [])

    unfoldable pub search_task :
        List Source → (storage : List (String × AstUnit)) → Option (List (String × AstUnit))
    unfolding search_unit
    search_task [] storage = some storage
    search_task (s ∷ sources) storage = do
      units ← search_unit s
      search_task sources (storage ++ units)

-- `findMutations` after the search: of two units of one path the first is kept.
unfoldable pub emplace_units : List (String × AstUnit) → Storage → Storage
emplace_units [] mutations = mutations
emplace_units ((file, unit) ∷ units) mutations =
    emplace_units units (emplace String_discrete file unit mutations)

-- A mutation point as `ASTMutationFilter` uses it: its kind, and the file, line and column of its
-- instruction, if that has debug information.
pub record DebugLocation : Type 0 where
  pub file_path : String
  pub line : ℕ
  pub column : ℕ

unfoldable pub should_skip :
    (is_regular_file : String → Bool) → MutatorKind → Option DebugLocation → Storage → Option Bool
unfolding mutation_exists
should_skip is_regular_file kind none storage = some true
should_skip is_regular_file kind (some at) storage = do
  assert (not ((at.line == 0) || (at.column == 0)))
  assert (is_regular_file at.file_path)
  exists ← mutation_exists is_regular_file at.file_path kind at.line at.column storage
  some (not exists)
