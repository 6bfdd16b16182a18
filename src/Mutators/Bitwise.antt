-- ===== src/Mutators/Bitwise.antt =====
-- lib/Mutators/CXX/BitwiseMutators.cpp: the mutators it defines, each with its low-level mutations.
use mull.Base.{List, [], ◌∷◌}
use mull.Mutators.Kind.{
  cxx_bitwise_and_assign_to_or_assign, cxx_bitwise_and_to_or, cxx_bitwise_or_assign_to_and_assign,
  cxx_bitwise_or_to_and, cxx_bitwise_xor_assign_to_or_assign, cxx_bitwise_xor_to_or,
  cxx_l_shift_assign_to_r_shift_assign, cxx_l_shift_to_r_shift,
  cxx_r_shift_assign_to_l_shift_assign, cxx_r_shift_to_l_shift,
}
use mull.Mutators.Irm.{
  IrMutation, a_shr_to_shl, and_to_or, l_shr_to_shl, or_to_and, shl_to_l_shr, xor_to_or,
}
use mull.Mutators.Trivial.{TrivialCxxMutator}

abbrev get_ll_shift_to_lr_shift : List IrMutation
get_ll_shift_to_lr_shift = shl_to_l_shr ∷ []

abbrev pub l_shift_to_r_shift_mutator : TrivialCxxMutator
l_shift_to_r_shift_mutator = record {
  low_level_mutators = get_ll_shift_to_lr_shift;
  kind = cxx_l_shift_to_r_shift;
  id = "cxx_lshift_to_rshift";
  description = "Replaces << with >>";
  replacement = ">>";
  diagnostics = "Replaced << with >>";
}

abbrev pub l_shift_assign_to_r_shift_assign_mutator : TrivialCxxMutator
l_shift_assign_to_r_shift_assign_mutator = record {
  low_level_mutators = get_ll_shift_to_lr_shift;
  kind = cxx_l_shift_assign_to_r_shift_assign;
  id = "cxx_lshift_assign_to_rshift_assign";
  description = "Replaces <<= with >>=";
  replacement = ">>=";
  diagnostics = "Replaced <<= with >>=";
}

abbrev get_r_shift_to_l_shift : List IrMutation
get_r_shift_to_l_shift = l_shr_to_shl ∷ a_shr_to_shl ∷ []

abbrev pub r_shift_to_l_shift_mutator : TrivialCxxMutator
r_shift_to_l_shift_mutator = record {
  low_level_mutators = get_r_shift_to_l_shift;
  kind = cxx_r_shift_to_l_shift;
  id = "cxx_rshift_to_lshift";
  description = "Replaces << with >>";
  replacement = ">>";
  diagnostics = "Replaced >> with <<";
}

abbrev pub r_shift_assign_to_l_shift_assign_mutator : TrivialCxxMutator
r_shift_assign_to_l_shift_assign_mutator = record {
  low_level_mutators = get_r_shift_to_l_shift;
  kind = cxx_r_shift_assign_to_l_shift_assign;
  id = "cxx_rshift_assign_to_lshift_assign";
  description = "Replaces >>= with <<=";
  replacement = "<<=";
  diagnostics = "Replaced >>= with <<=";
}

abbrev get_or_to_and : List IrMutation
get_or_to_and = or_to_and ∷ []

abbrev pub bitwise_or_to_and_mutator : TrivialCxxMutator
bitwise_or_to_and_mutator = record {
  low_level_mutators = get_or_to_and;
  kind = cxx_bitwise_or_to_and;
  id = "cxx_or_to_and";
  description = "Replaces | with &";
  replacement = "&";
  diagnostics = "Replaced | with &";
}

abbrev pub or_assign_to_and_assign_mutator : TrivialCxxMutator
or_assign_to_and_assign_mutator = record {
  low_level_mutators = get_or_to_and;
  kind = cxx_bitwise_or_assign_to_and_assign;
  id = "cxx_or_assign_to_and_assign";
  description = "Replaces |= with &=";
  replacement = "&=";
  diagnostics = "Replaced |= with &=";
}

abbrev get_and_to_or : List IrMutation
get_and_to_or = and_to_or ∷ []

abbrev pub bitwise_and_to_or_mutator : TrivialCxxMutator
bitwise_and_to_or_mutator = record {
  low_level_mutators = get_and_to_or;
  kind = cxx_bitwise_and_to_or;
  id = "cxx_and_to_or";
  description = "Replaces & with |";
  replacement = "|";
  diagnostics = "Replaced & with |";
}

abbrev pub and_assign_to_or_assign_mutator : TrivialCxxMutator
and_assign_to_or_assign_mutator = record {
  low_level_mutators = get_and_to_or;
  kind = cxx_bitwise_and_assign_to_or_assign;
  id = "cxx_and_assign_to_or_assign";
  description = "Replaces &= with |=";
  replacement = "|=";
  diagnostics = "Replaced &= with |=";
}

abbrev get_xor_to_or : List IrMutation
get_xor_to_or = xor_to_or ∷ []

abbrev pub xor_to_or_mutator : TrivialCxxMutator
xor_to_or_mutator = record {
  low_level_mutators = get_xor_to_or;
  kind = cxx_bitwise_xor_to_or;
  id = "cxx_xor_to_or";
  description = "Replaces ^ with |";
  replacement = "|";
  diagnostics = "Replaced ^ with |";
}

abbrev pub xor_assign_to_or_assign_mutator : TrivialCxxMutator
xor_assign_to_or_assign_mutator = record {
  low_level_mutators = get_xor_to_or;
  kind = cxx_bitwise_xor_assign_to_or_assign;
  id = "cxx_xor_assign_to_or_assign";
  description = "Replaces ^= with |=";
  replacement = "|=";
  diagnostics = "Replaced ^= with |=";
}
