-- ===== src/Mutators/Special.antt =====
-- The mutators with a `getMutations` of their own (lib/Mutators/NegateConditionMutator.cpp,
-- RemoveVoidFunctionMutator.cpp, ReplaceCallMutator.cpp, ScalarValueMutator.cpp and the unary minus of
-- CXX/ArithmeticMutators.cpp). The name of the function that an instruction calls, empty where it
-- has none, and whether its first operand is zero are parameters beside `can_mutate`.
use mull.Base.{ℕ, List, [], ◌∷◌, Bool, ◌&&◌, String, concat}
use mull.Mutators.Irm.{
  Predicate, icmp_eq, icmp_ne, fcmp_oeq, fcmp_one, fcmp_ueq, fcmp_une, IrMutation,
  predicate_replacement, remove_void_function_call, remove_void_intrinsics_call, swap_sub_operands,
  swap_f_sub_operands, int_call_replacement, float_call_replacement, double_call_replacement,
  const_int_replacement, const_float_replacement,
}
use mull.Mutators.Trivial.{MutationPoint, mutate_loop}

abbrev pub negate_condition_id : String
negate_condition_id = "negate_mutator"

abbrev pub negate_condition_description : String
negate_condition_description = "Negates conditionals !x to x and x to !x"

-- The predicates of each low-level mutation, from and to.
abbrev pub negate_condition_low_level : List (Predicate × Predicate)
negate_condition_low_level =
    (icmp_eq, icmp_ne)
    ∷ (fcmp_oeq, fcmp_one)
    ∷ (fcmp_ueq, fcmp_une)
    ∷ (icmp_ne, icmp_eq)
    ∷ (fcmp_one, fcmp_oeq)
    ∷ (fcmp_une, fcmp_ueq)
    ∷ []

unfoldable pub describe_predicate : Predicate → String
describe_predicate fcmp_oeq = "=="
describe_predicate fcmp_ueq = "=="
describe_predicate icmp_eq = "=="
describe_predicate fcmp_one = "!="
describe_predicate fcmp_une = "!="
describe_predicate icmp_ne = "!="
describe_predicate _ = "TODO"

unfoldable pub get_diagnostics : Predicate → Predicate → String
get_diagnostics original negated =
    concat "Negate Condition: replaced "
      (concat (describe_predicate original) (concat " with " (describe_predicate negated)))

unfoldable pub negate_condition_point : ℕ → Predicate × Predicate → MutationPoint
negate_condition_point i (original, negated) = record {
  mutator = negate_condition_id;
  ir_mutator = predicate_replacement original negated;
  instruction = i;
  replacement = describe_predicate negated;
  diagnostics = get_diagnostics original negated;
}

unfoldable pub negate_condition_mutations :
    (can_mutate : IrMutation → ℕ → Bool) → List ℕ → List MutationPoint
negate_condition_mutations can_mutate instructions =
    mutate_loop (λ low i. can_mutate (predicate_replacement low.0 low.1) i) negate_condition_point
      negate_condition_low_level instructions []

abbrev pub remove_void_function_id : String
remove_void_function_id = "remove_void_function_mutator"

abbrev pub remove_void_function_description : String
remove_void_function_description = "Removes calls to a function returning void"

abbrev pub remove_void_function_low_level : List IrMutation
remove_void_function_low_level = remove_void_function_call ∷ remove_void_intrinsics_call ∷ []

unfoldable pub remove_void_function_point : (ℕ → String) → ℕ → IrMutation → MutationPoint
remove_void_function_point called_function i low = record {
  mutator = remove_void_function_id;
  ir_mutator = low;
  instruction = i;
  replacement = "🚫";
  diagnostics = concat "Remove Void Call: removed " (called_function i);
}

unfoldable pub remove_void_function_mutations :
    (can_mutate : IrMutation → ℕ → Bool) → (ℕ → String) → List ℕ → List MutationPoint
remove_void_function_mutations can_mutate called_function instructions =
    mutate_loop can_mutate (remove_void_function_point called_function)
      remove_void_function_low_level instructions []

abbrev pub replace_call_id : String
replace_call_id = "replace_call_mutator"

abbrev pub replace_call_description : String
replace_call_description = "Replaces call to a function with 42"

abbrev pub replace_call_low_level : List IrMutation
replace_call_low_level =
    int_call_replacement 42 ∷ float_call_replacement 42 ∷ double_call_replacement 42 ∷ []

unfoldable pub replace_call_point : (ℕ → String) → ℕ → IrMutation → MutationPoint
replace_call_point called_function i low = record {
  mutator = replace_call_id;
  ir_mutator = low;
  instruction = i;
  replacement = "42";
  diagnostics =
      concat "Replace Call: replaced a call to function " (concat (called_function i) " with 42");
}

unfoldable pub replace_call_mutations :
    (can_mutate : IrMutation → ℕ → Bool) → (ℕ → String) → List ℕ → List MutationPoint
replace_call_mutations can_mutate called_function instructions =
    mutate_loop can_mutate (replace_call_point called_function) replace_call_low_level instructions
      []

abbrev pub scalar_value_id : String
scalar_value_id = "scalar_value_mutator"

abbrev pub scalar_value_description : String
scalar_value_description = "Replaces zeros with 42, and non-zeros with 0"

-- The loop over the positions of the first five operands, written out.
abbrev pub scalar_value_low_level : List IrMutation
scalar_value_low_level =
    const_int_replacement 42 0
    ∷ const_float_replacement 42 0
    ∷ const_int_replacement 42 1
    ∷ const_float_replacement 42 1
    ∷ const_int_replacement 42 2
    ∷ const_float_replacement 42 2
    ∷ const_int_replacement 42 3
    ∷ const_float_replacement 42 3
    ∷ const_int_replacement 42 4
    ∷ const_float_replacement 42 4
    ∷ []

unfoldable pub scalar_value_point : ℕ → IrMutation → MutationPoint
scalar_value_point i low = record {
  mutator = scalar_value_id;
  ir_mutator = low;
  instruction = i;
  replacement = "0 or 42";
  diagnostics = "Replacing scalar with 0 or 42";
}

unfoldable pub scalar_value_mutations :
    (can_mutate : IrMutation → ℕ → Bool) → List ℕ → List MutationPoint
scalar_value_mutations can_mutate instructions =
    mutate_loop can_mutate scalar_value_point scalar_value_low_level instructions []

abbrev pub unary_minus_to_noop_id : String
unary_minus_to_noop_id = "cxx_minus_to_noop"

abbrev pub unary_minus_to_noop_description : String
unary_minus_to_noop_description = "Replaces -x with x"

abbrev pub unary_minus_to_noop_low_level : List IrMutation
unary_minus_to_noop_low_level = swap_sub_operands ∷ swap_f_sub_operands ∷ []

unfoldable pub unary_minus_to_noop_point : ℕ → IrMutation → MutationPoint
unary_minus_to_noop_point i low = record {
  mutator = unary_minus_to_noop_id;
  ir_mutator = low;
  instruction = i;
  replacement = "";
  diagnostics = "Replaced -x with x";
}

-- `is_zero i` is `isZero` of the first operand of the instruction.
unfoldable pub unary_minus_to_noop_mutations :
    (can_mutate : IrMutation → ℕ → Bool) → (is_zero : ℕ → Bool) → List ℕ → List MutationPoint
unary_minus_to_noop_mutations can_mutate is_zero instructions =
    mutate_loop (λ low i. can_mutate low i && is_zero i) unary_minus_to_noop_point
      unary_minus_to_noop_low_level instructions []
