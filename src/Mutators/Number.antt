-- ===== src/Mutators/Number.antt =====
-- lib/Mutators/CXX/NumberMutators.cpp: the mutators it defines, each with its low-level mutations.
use mull.Base.{List, [], ◌∷◌}
use mull.Mutators.Kind.{cxx_assign_const, cxx_init_const}
use mull.Mutators.Irm.{
  IrMutation, store_double_replacement, store_float_replacement, store_int_replacement,
}
use mull.Mutators.Trivial.{TrivialCxxMutator}

abbrev get_number_mutators : List IrMutation
get_number_mutators =
    store_int_replacement 42 ∷ store_double_replacement 42 ∷ store_float_replacement 42 ∷ []

abbrev pub number_assign_const_mutator : TrivialCxxMutator
number_assign_const_mutator = record {
  low_level_mutators = get_number_mutators;
  kind = cxx_assign_const;
  id = "cxx_assign_const";
  description = "Replaces 'a = b' with 'a = 42'";
  replacement = "42";
  diagnostics = "Replaced 'a = b' with 'a = 42'";
}

abbrev pub number_init_const_mutator : TrivialCxxMutator
number_init_const_mutator = record {
  low_level_mutators = get_number_mutators;
  kind = cxx_init_const;
  id = "cxx_init_const";
  description = "Replaces 'T a = b' with 'T a = 42'";
  replacement = "42";
  diagnostics = "Replaced 'T a = b' with 'T a = 42'";
}
