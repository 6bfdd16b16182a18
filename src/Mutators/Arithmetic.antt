-- ===== src/Mutators/Arithmetic.antt =====
-- lib/Mutators/CXX/ArithmeticMutators.cpp: the mutators it defines, each with its low-level mutations.
use mull.Base.{List, [], ◌∷◌}
use mull.Mutators.Kind.{
  cxx_add_assign_to_sub_assign, cxx_add_to_sub, cxx_bitwise_not_to_noop,
  cxx_div_assign_to_mul_assign, cxx_div_to_mul, cxx_mul_assign_to_div_assign, cxx_mul_to_div,
  cxx_post_dec_to_post_inc, cxx_post_inc_to_post_dec, cxx_pre_dec_to_pre_inc,
  cxx_pre_inc_to_pre_dec, cxx_rem_assign_to_div_assign, cxx_rem_to_div,
  cxx_sub_assign_to_add_assign, cxx_sub_to_add,
}
use mull.Mutators.Irm.{
  IrMutation, add_to_sub, f_add_to_f_sub, f_div_to_f_mul, f_mul_to_f_div, f_rem_to_f_div,
  f_sub_to_f_add, mul_to_s_div, s_div_to_mul, s_rem_to_s_div,
  sadd_with_overflow_to_ssub_with_overflow, ssub_with_overflow_to_sadd_with_overflow, sub_to_add,
  u_div_to_mul, u_rem_to_u_div, xor_to_and,
}
use mull.Mutators.Trivial.{TrivialCxxMutator}

abbrev get_add_to_sub : List IrMutation
get_add_to_sub = add_to_sub ∷ f_add_to_f_sub ∷ sadd_with_overflow_to_ssub_with_overflow ∷ []

abbrev pub add_to_sub_mutator : TrivialCxxMutator
add_to_sub_mutator = record {
  low_level_mutators = get_add_to_sub;
  kind = cxx_add_to_sub;
  id = "cxx_add_to_sub";
  description = "Replaces + with -";
  replacement = "-";
  diagnostics = "Replaced + with -";
}

abbrev pub add_assign_to_sub_assign_mutator : TrivialCxxMutator
add_assign_to_sub_assign_mutator = record {
  low_level_mutators = get_add_to_sub;
  kind = cxx_add_assign_to_sub_assign;
  id = "cxx_add_assign_to_sub_assign";
  description = "Replaces += with -=";
  replacement = "-=";
  diagnostics = "Replaced += with -=";
}

abbrev pub post_inc_to_post_dec_mutator : TrivialCxxMutator
post_inc_to_post_dec_mutator = record {
  low_level_mutators = get_add_to_sub;
  kind = cxx_post_inc_to_post_dec;
  id = "cxx_post_inc_to_post_dec";
  description = "Replaces x++ with x--";
  replacement = "--";
  diagnostics = "Replaced x++ with x--";
}

abbrev pub pre_inc_to_pre_dec_mutator : TrivialCxxMutator
pre_inc_to_pre_dec_mutator = record {
  low_level_mutators = get_add_to_sub;
  kind = cxx_pre_inc_to_pre_dec;
  id = "cxx_pre_inc_to_pre_dec";
  description = "Replaces ++x with --x";
  replacement = "--";
  diagnostics = "Replaced ++x with --x";
}

abbrev get_sub_to_add : List IrMutation
get_sub_to_add = sub_to_add ∷ f_sub_to_f_add ∷ ssub_with_overflow_to_sadd_with_overflow ∷ []

abbrev pub sub_to_add_mutator : TrivialCxxMutator
sub_to_add_mutator = record {
  low_level_mutators = get_sub_to_add;
  kind = cxx_sub_to_add;
  id = "cxx_sub_to_add";
  description = "Replaces - with +";
  replacement = "+";
  diagnostics = "Replaced - with +";
}

abbrev pub sub_assign_to_add_assign_mutator : TrivialCxxMutator
sub_assign_to_add_assign_mutator = record {
  low_level_mutators = get_sub_to_add;
  kind = cxx_sub_assign_to_add_assign;
  id = "cxx_sub_assign_to_add_assign";
  description = "Replaces -= with +=";
  replacement = "+=";
  diagnostics = "Replaced -= with +=";
}

abbrev get_dec_to_inc : List IrMutation
get_dec_to_inc =
    sub_to_add ∷ f_sub_to_f_add ∷ ssub_with_overflow_to_sadd_with_overflow ∷ add_to_sub ∷ []

abbrev pub post_dec_to_post_inc_mutator : TrivialCxxMutator
post_dec_to_post_inc_mutator = record {
  low_level_mutators = get_dec_to_inc;
  kind = cxx_post_dec_to_post_inc;
  id = "cxx_post_dec_to_post_inc";
  description = "Replaces x-- with x++";
  replacement = "++";
  diagnostics = "Replaced x-- with x++";
}

abbrev pub pre_dec_to_pre_inc_mutator : TrivialCxxMutator
pre_dec_to_pre_inc_mutator = record {
  low_level_mutators = get_dec_to_inc;
  kind = cxx_pre_dec_to_pre_inc;
  id = "cxx_pre_dec_to_pre_inc";
  description = "Replaces --x with ++x";
  replacement = "++";
  diagnostics = "Replaced --x with ++x";
}

abbrev get_mul_to_div : List IrMutation
get_mul_to_div = mul_to_s_div ∷ f_mul_to_f_div ∷ []

abbrev pub mul_to_div_mutator : TrivialCxxMutator
mul_to_div_mutator = record {
  low_level_mutators = get_mul_to_div;
  kind = cxx_mul_to_div;
  id = "cxx_mul_to_div";
  description = "Replaces * with /";
  replacement = "/";
  diagnostics = "Replaced * with /";
}

abbrev pub mul_assign_to_div_assign_mutator : TrivialCxxMutator
mul_assign_to_div_assign_mutator = record {
  low_level_mutators = get_mul_to_div;
  kind = cxx_mul_assign_to_div_assign;
  id = "cxx_mul_assign_to_div_assign";
  description = "Replaces *= with /=";
  replacement = "/=";
  diagnostics = "Replaced *= with /=";
}

abbrev get_div_to_mul : List IrMutation
get_div_to_mul = f_div_to_f_mul ∷ s_div_to_mul ∷ u_div_to_mul ∷ []

abbrev pub div_to_mul_mutator : TrivialCxxMutator
div_to_mul_mutator = record {
  low_level_mutators = get_div_to_mul;
  kind = cxx_div_to_mul;
  id = "cxx_div_to_mul";
  description = "Replaces / with *";
  replacement = "*";
  diagnostics = "Replaced / with *";
}

abbrev pub div_assign_to_mul_assign_mutator : TrivialCxxMutator
div_assign_to_mul_assign_mutator = record {
  low_level_mutators = get_div_to_mul;
  kind = cxx_div_assign_to_mul_assign;
  id = "cxx_div_assign_to_mul_assign";
  description = "Replaces /= with *=";
  replacement = "*=";
  diagnostics = "Replaced /= with *=";
}

abbrev get_rem_to_div : List IrMutation
get_rem_to_div = f_rem_to_f_div ∷ s_rem_to_s_div ∷ u_rem_to_u_div ∷ []

abbrev pub rem_to_div_mutator : TrivialCxxMutator
rem_to_div_mutator = record {
  low_level_mutators = get_rem_to_div;
  kind = cxx_rem_to_div;
  id = "cxx_rem_to_div";
  description = "Replaces % with /";
  replacement = "/";
  diagnostics = "Replaced % with /";
}

abbrev pub rem_assign_to_div_assign_mutator : TrivialCxxMutator
rem_assign_to_div_assign_mutator = record {
  low_level_mutators = get_rem_to_div;
  kind = cxx_rem_assign_to_div_assign;
  id = "cxx_rem_assign_to_div_assign";
  description = "Replaces %= with /=";
  replacement = "/=";
  diagnostics = "Replaced %= with /=";
}

abbrev get_bit_not_to_noop : List IrMutation
get_bit_not_to_noop = xor_to_and ∷ []

abbrev pub bitwise_not_to_noop_mutator : TrivialCxxMutator
bitwise_not_to_noop_mutator = record {
  low_level_mutators = get_bit_not_to_noop;
  kind = cxx_bitwise_not_to_noop;
  id = "cxx_bitwise_not_to_noop";
  description = "Replaces ~x with x";
  replacement = "";
  diagnostics = "Replaced ~x with x";
}
