-- ===== src/Mutators/Factory/Registry.antt =====
-- The tables of lib/Mutators/MutatorsFactory.cpp: the groups that the constructor fills in and the
-- mutators that `init` adds.
use mull.Base.{List, [], ◌∷◌, String, String_discrete}
use mull.Base.Dict.{insert}
use mull.Mutators.Kind.{
  MutatorKind, cxx_logical_and_to_or, cxx_logical_or_to_and, cxx_unary_minus_to_noop,
  negate_mutator, remove_void_function_mutator, replace_call_mutator, scalar_value_mutator,
}
use mull.Mutators.Trivial.{TrivialCxxMutator}
use mull.Mutators.Arithmetic.{
  add_to_sub_mutator, add_assign_to_sub_assign_mutator, post_inc_to_post_dec_mutator,
  pre_inc_to_pre_dec_mutator, sub_to_add_mutator, sub_assign_to_add_assign_mutator,
  post_dec_to_post_inc_mutator, pre_dec_to_pre_inc_mutator, mul_to_div_mutator,
  mul_assign_to_div_assign_mutator, div_to_mul_mutator, div_assign_to_mul_assign_mutator,
  rem_to_div_mutator, rem_assign_to_div_assign_mutator, bitwise_not_to_noop_mutator,
}
use mull.Mutators.Bitwise.{
  l_shift_to_r_shift_mutator, l_shift_assign_to_r_shift_assign_mutator, r_shift_to_l_shift_mutator,
  r_shift_assign_to_l_shift_assign_mutator, bitwise_or_to_and_mutator,
  or_assign_to_and_assign_mutator, bitwise_and_to_or_mutator, and_assign_to_or_assign_mutator,
  xor_to_or_mutator, xor_assign_to_or_assign_mutator,
}
use mull.Mutators.Relational.{
  less_than_to_less_or_equal_mutator, less_or_equal_to_less_than_mutator,
  greater_than_to_greater_or_equal_mutator, greater_or_equal_to_greater_than_mutator,
  equal_to_not_equal_mutator, not_equal_to_equal_mutator, greater_than_to_less_or_equal_mutator,
  greater_or_equal_to_less_than_mutator, less_than_to_greater_or_equal_mutator,
  less_or_equal_to_greater_than_mutator,
}
use mull.Mutators.Number.{number_assign_const_mutator, number_init_const_mutator}
use mull.Mutators.Special.{
  negate_condition_description, negate_condition_id, remove_void_function_description,
  remove_void_function_id, replace_call_description, replace_call_id, scalar_value_description,
  scalar_value_id, unary_minus_to_noop_description, unary_minus_to_noop_id,
}

-- What the register keeps of a mutator: `getUniqueIdentifier`, `mutatorKind` and `getDescription`.
pub record Mutator : Type 0 where
  pub unique_identifier : String
  pub kind : MutatorKind
  pub description : String

abbrev trivial : TrivialCxxMutator → Mutator
trivial m = record { unique_identifier = m.id; kind = m.kind; description = m.description }

abbrev logical_and_to_or_id : String
logical_and_to_or_id = "cxx_logical_and_to_or"

abbrev logical_or_to_and_id : String
logical_or_to_and_id = "cxx_logical_or_to_and"

abbrev logical_and_to_or_description : String
logical_and_to_or_description = "Replaces && with ||"

abbrev logical_or_to_and_description : String
logical_or_to_and_description = "Replaces || with &&"

abbrev experimental : String
experimental = "experimental"

abbrev pub all_mutators_group : String
all_mutators_group = "all"

abbrev cxx_assignment : String
cxx_assignment = "cxx_assignment"

abbrev cxx_const_assignment : String
cxx_const_assignment = "cxx_const_assignment"

abbrev cxx_arithmetic_assignment : String
cxx_arithmetic_assignment = "cxx_arithmetic_assignment"

abbrev cxx_bitwise_assignment : String
cxx_bitwise_assignment = "cxx_bitwise_assignment"

abbrev cxx_increment : String
cxx_increment = "cxx_increment"

abbrev cxx_decrement : String
cxx_decrement = "cxx_decrement"

abbrev cxx_arithmetic : String
cxx_arithmetic = "cxx_arithmetic"

abbrev cxx_bitwise : String
cxx_bitwise = "cxx_bitwise"

abbrev cxx_logical : String
cxx_logical = "cxx_logical"

abbrev cxx_comparison : String
cxx_comparison = "cxx_comparison"

abbrev cxx_boundary : String
cxx_boundary = "cxx_boundary"

abbrev cxx_all : String
cxx_all = "cxx_all"

abbrev pub cxx_default : String
cxx_default = "cxx_default"

-- `groupsMapping` after the constructor, which assigns the groups in this order.
abbrev pub group_members : List (String × List String)
group_members =
    (cxx_const_assignment, number_assign_const_mutator.id ∷ number_init_const_mutator.id ∷ [])
    ∷ (
      cxx_bitwise_assignment,
      and_assign_to_or_assign_mutator.id ∷ or_assign_to_and_assign_mutator.id
          ∷ xor_assign_to_or_assign_mutator.id ∷ l_shift_assign_to_r_shift_assign_mutator.id
          ∷ r_shift_assign_to_l_shift_assign_mutator.id ∷ [],
    )
    ∷ (
      cxx_arithmetic_assignment,
      add_assign_to_sub_assign_mutator.id ∷ sub_assign_to_add_assign_mutator.id
          ∷ mul_assign_to_div_assign_mutator.id ∷ div_assign_to_mul_assign_mutator.id
          ∷ rem_assign_to_div_assign_mutator.id ∷ [],
    )
    ∷ (cxx_increment, pre_inc_to_pre_dec_mutator.id ∷ post_inc_to_post_dec_mutator.id ∷ [])
    ∷ (cxx_decrement, pre_dec_to_pre_inc_mutator.id ∷ post_dec_to_post_inc_mutator.id ∷ [])
    ∷ (
      cxx_arithmetic,
      unary_minus_to_noop_id ∷ add_to_sub_mutator.id ∷ sub_to_add_mutator.id ∷ mul_to_div_mutator.id
          ∷ div_to_mul_mutator.id ∷ rem_to_div_mutator.id ∷ [],
    )
    ∷ (
      cxx_bitwise,
      bitwise_not_to_noop_mutator.id ∷ bitwise_and_to_or_mutator.id ∷ bitwise_or_to_and_mutator.id
          ∷ xor_to_or_mutator.id ∷ l_shift_to_r_shift_mutator.id ∷ r_shift_to_l_shift_mutator.id
          ∷ [],
    )
    ∷ (cxx_logical, logical_and_to_or_id ∷ logical_or_to_and_id ∷ [])
    ∷ (
      cxx_comparison,
      equal_to_not_equal_mutator.id ∷ not_equal_to_equal_mutator.id
          ∷ less_or_equal_to_greater_than_mutator.id ∷ less_than_to_greater_or_equal_mutator.id
          ∷ greater_or_equal_to_less_than_mutator.id ∷ greater_than_to_less_or_equal_mutator.id
          ∷ [],
    )
    ∷ (
      cxx_boundary,
      less_or_equal_to_less_than_mutator.id ∷ less_than_to_less_or_equal_mutator.id
          ∷ greater_or_equal_to_greater_than_mutator.id
          ∷ greater_than_to_greater_or_equal_mutator.id ∷ [],
    )
    ∷ (
      cxx_assignment,
      cxx_bitwise_assignment ∷ cxx_arithmetic_assignment ∷ cxx_const_assignment ∷ [],
    )
    ∷ (
      cxx_all,
      cxx_assignment ∷ cxx_increment ∷ cxx_decrement ∷ cxx_arithmetic ∷ cxx_comparison
          ∷ cxx_boundary ∷ cxx_bitwise ∷ [],
    )
    ∷ (cxx_default, cxx_increment ∷ cxx_arithmetic ∷ cxx_comparison ∷ cxx_boundary ∷ [])
    ∷ (
      experimental,
      negate_condition_id ∷ remove_void_function_id ∷ scalar_value_id ∷ replace_call_id
          ∷ cxx_logical ∷ [],
    )
    ∷ (all_mutators_group, cxx_all ∷ experimental ∷ [])
    ∷ []

abbrev assign_all :
    List (String × List String) → List (String × List String) → List (String × List String)
assign_all [] mapping = mapping
assign_all ((group, members) ∷ rest) mapping =
    assign_all rest (insert String_discrete group members mapping)

unfoldable pub groups_mapping : List (String × List String)
unfolding insert
groups_mapping = assign_all group_members []

-- The mutators that `init` makes, in its order.
abbrev pub registered : List Mutator
registered =
    record {
      unique_identifier = negate_condition_id;
      kind = negate_mutator;
      description = negate_condition_description;
    }
    ∷ record {
      unique_identifier = replace_call_id;
      kind = replace_call_mutator;
      description = replace_call_description;
    }
    ∷ record {
      unique_identifier = remove_void_function_id;
      kind = remove_void_function_mutator;
      description = remove_void_function_description;
    }
    ∷ record {
      unique_identifier = scalar_value_id;
      kind = scalar_value_mutator;
      description = scalar_value_description;
    }
    ∷ trivial number_assign_const_mutator
    ∷ trivial number_init_const_mutator
    ∷ trivial add_assign_to_sub_assign_mutator
    ∷ trivial sub_assign_to_add_assign_mutator
    ∷ trivial mul_assign_to_div_assign_mutator
    ∷ trivial div_assign_to_mul_assign_mutator
    ∷ trivial rem_assign_to_div_assign_mutator
    ∷ trivial and_assign_to_or_assign_mutator
    ∷ trivial or_assign_to_and_assign_mutator
    ∷ trivial xor_assign_to_or_assign_mutator
    ∷ trivial l_shift_assign_to_r_shift_assign_mutator
    ∷ trivial r_shift_assign_to_l_shift_assign_mutator
    ∷ trivial pre_inc_to_pre_dec_mutator
    ∷ trivial post_inc_to_post_dec_mutator
    ∷ trivial pre_dec_to_pre_inc_mutator
    ∷ trivial post_dec_to_post_inc_mutator
    ∷ record {
      unique_identifier = unary_minus_to_noop_id;
      kind = cxx_unary_minus_to_noop;
      description = unary_minus_to_noop_description;
    }
    ∷ trivial add_to_sub_mutator
    ∷ trivial sub_to_add_mutator
    ∷ trivial mul_to_div_mutator
    ∷ trivial div_to_mul_mutator
    ∷ trivial rem_to_div_mutator
    ∷ trivial bitwise_not_to_noop_mutator
    ∷ trivial bitwise_and_to_or_mutator
    ∷ trivial bitwise_or_to_and_mutator
    ∷ trivial xor_to_or_mutator
    ∷ trivial l_shift_to_r_shift_mutator
    ∷ trivial r_shift_to_l_shift_mutator
    ∷ record {
      unique_identifier = logical_and_to_or_id;
      kind = cxx_logical_and_to_or;
      description = logical_and_to_or_description;
    }
    ∷ record {
      unique_identifier = logical_or_to_and_id;
      kind = cxx_logical_or_to_and;
      description = logical_or_to_and_description;
    }
    ∷ trivial equal_to_not_equal_mutator
    ∷ trivial not_equal_to_equal_mutator
    ∷ trivial less_or_equal_to_greater_than_mutator
    ∷ trivial less_than_to_greater_or_equal_mutator
    ∷ trivial greater_or_equal_to_less_than_mutator
    ∷ trivial greater_than_to_less_or_equal_mutator
    ∷ trivial less_or_equal_to_less_than_mutator
    ∷ trivial less_than_to_less_or_equal_mutator
    ∷ trivial greater_or_equal_to_greater_than_mutator
    ∷ trivial greater_than_to_greater_or_equal_mutator
    ∷ []
