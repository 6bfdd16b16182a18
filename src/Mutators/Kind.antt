-- ===== src/Mutators/Kind.antt =====
-- lib/Mutators/MutatorKind.cpp: the kinds of mutators.
use mull.Base.{String}

pub data MutatorKind : Type 0 where
  negate_mutator remove_void_function_mutator replace_call_mutator scalar_value_mutator
        cxx_add_to_sub cxx_add_assign_to_sub_assign cxx_pre_inc_to_pre_dec cxx_post_inc_to_post_dec
        cxx_sub_to_add cxx_sub_assign_to_add_assign cxx_pre_dec_to_pre_inc cxx_post_dec_to_post_inc
        cxx_mul_to_div cxx_mul_assign_to_div_assign cxx_div_to_mul cxx_div_assign_to_mul_assign
        cxx_rem_to_div cxx_rem_assign_to_div_assign cxx_bitwise_not_to_noop cxx_unary_minus_to_noop
        cxx_l_shift_to_r_shift cxx_l_shift_assign_to_r_shift_assign cxx_r_shift_to_l_shift
        cxx_r_shift_assign_to_l_shift_assign cxx_logical_and_to_or cxx_logical_or_to_and
        cxx_bitwise_or_to_and cxx_bitwise_or_assign_to_and_assign cxx_bitwise_and_to_or
        cxx_bitwise_and_assign_to_or_assign cxx_bitwise_xor_to_or
        cxx_bitwise_xor_assign_to_or_assign cxx_less_than_to_less_or_equal
        cxx_less_or_equal_to_less_than cxx_greater_than_to_greater_or_equal
        cxx_greater_or_equal_to_greater_than cxx_greater_than_to_less_or_equal
        cxx_greater_or_equal_to_less_than cxx_less_than_to_greater_or_equal
        cxx_less_or_equal_to_greater_than cxx_equal_to_not_equal cxx_not_equal_to_equal
        cxx_assign_const cxx_init_const :
      MutatorKind

unfoldable pub mutation_kind_to_string : MutatorKind → String
mutation_kind_to_string negate_mutator = "Negate"
mutation_kind_to_string remove_void_function_mutator = "Remove Void"
mutation_kind_to_string replace_call_mutator = "Replace Call"
mutation_kind_to_string scalar_value_mutator = "Scalar Value"
mutation_kind_to_string cxx_add_to_sub = "Add to Sub"
mutation_kind_to_string cxx_add_assign_to_sub_assign = "Add-Assign to Sub-Assign"
mutation_kind_to_string cxx_pre_inc_to_pre_dec = "Pre-Inc to Pre-Dec"
mutation_kind_to_string cxx_post_inc_to_post_dec = "Post-Inc to Post-Dec"
mutation_kind_to_string cxx_sub_to_add = "Sub to Add"
mutation_kind_to_string cxx_sub_assign_to_add_assign = "Sub-Assign to Add-Assign"
mutation_kind_to_string cxx_pre_dec_to_pre_inc = "Pre-Dec to Pre-Inc"
mutation_kind_to_string cxx_post_dec_to_post_inc = "Post-Dec to Post-Inc"
mutation_kind_to_string cxx_mul_to_div = "Mul to Div"
mutation_kind_to_string cxx_mul_assign_to_div_assign = "Mul-Assign to Div-Assign"
mutation_kind_to_string cxx_div_to_mul = "Div to Mul"
mutation_kind_to_string cxx_div_assign_to_mul_assign = "Div-Assign to Mul-Assign"
mutation_kind_to_string cxx_rem_to_div = "Rem to Div"
mutation_kind_to_string cxx_rem_assign_to_div_assign = "Rem-Assign to Div-Assign"
mutation_kind_to_string cxx_bitwise_not_to_noop = "Bitwise Not to Noop"
mutation_kind_to_string cxx_unary_minus_to_noop = "Unary Minus to Noop"
mutation_kind_to_string cxx_l_shift_to_r_shift = "Left Shift to Right Shift"
mutation_kind_to_string cxx_l_shift_assign_to_r_shift_assign =
    "Left Shift-Assign to Right Shift-Assign"
mutation_kind_to_string cxx_r_shift_to_l_shift = "Right Shift to Left Shift"
mutation_kind_to_string cxx_r_shift_assign_to_l_shift_assign =
    "Right Shift-Assign to Left Shift-Assign"
mutation_kind_to_string cxx_logical_and_to_or = "Logical And to Or"
mutation_kind_to_string cxx_logical_or_to_and = "Logical Or to And"
mutation_kind_to_string cxx_bitwise_or_to_and = "Bitwise Or to And"
mutation_kind_to_string cxx_bitwise_or_assign_to_and_assign = "Bitwise Or-Assign to And-Assign"
mutation_kind_to_string cxx_bitwise_and_to_or = "Bitwise And to Or"
mutation_kind_to_string cxx_bitwise_and_assign_to_or_assign = "Bitwise And-Assign to Or-Assign"
mutation_kind_to_string cxx_bitwise_xor_to_or = "Bitwise Xor to Or"
mutation_kind_to_string cxx_bitwise_xor_assign_to_or_assign = "Bitwise Xor-Assign to Or-Assign"
mutation_kind_to_string cxx_less_than_to_less_or_equal = "Less Than to Less Or Equal"
mutation_kind_to_string cxx_less_or_equal_to_less_than = "Less Or Equal to Less Than"
mutation_kind_to_string cxx_greater_than_to_greater_or_equal = "Greater Than to Greater or Equal"
mutation_kind_to_string cxx_greater_or_equal_to_greater_than = "Greater Or Equal to Greater Than"
mutation_kind_to_string cxx_greater_than_to_less_or_equal = "Greater Than to Less Or Equal"
mutation_kind_to_string cxx_greater_or_equal_to_less_than = "Greater Or Equal to Less Than"
mutation_kind_to_string cxx_less_than_to_greater_or_equal = "Less Than to Greater Or Equal"
mutation_kind_to_string cxx_less_or_equal_to_greater_than = "Less Or Equal To Greater Than"
mutation_kind_to_string cxx_equal_to_not_equal = "Equal to Not Equal"
mutation_kind_to_string cxx_not_equal_to_equal = "Not Equal to Equal"
mutation_kind_to_string cxx_assign_const = "Assign Const"
mutation_kind_to_string cxx_init_const = "Init Const"

unfoldable pub mutator_kind_discrete : Discrete MutatorKind
mutator_kind_discrete = hlevel
