-- ===== src/Mutators/Relational.antt =====
-- lib/Mutators/CXX/RelationalMutators.cpp: the mutators it defines, each with its low-level mutations.
use mull.Base.{List, [], ◌∷◌}
use mull.Mutators.Kind.{
  cxx_equal_to_not_equal, cxx_greater_or_equal_to_greater_than, cxx_greater_or_equal_to_less_than,
  cxx_greater_than_to_greater_or_equal, cxx_greater_than_to_less_or_equal,
  cxx_less_or_equal_to_greater_than, cxx_less_or_equal_to_less_than,
  cxx_less_than_to_greater_or_equal, cxx_less_than_to_less_or_equal, cxx_not_equal_to_equal,
}
use mull.Mutators.Irm.{
  IrMutation, fcmp_oeq, fcmp_oge, fcmp_ogt, fcmp_ole, fcmp_olt, fcmp_one, fcmp_ueq, fcmp_uge,
  fcmp_ugt, fcmp_ule, fcmp_ult, fcmp_une, icmp_eq, icmp_ne, icmp_sge, icmp_sgt, icmp_sle, icmp_slt,
  icmp_uge, icmp_ugt, icmp_ule, icmp_ult, predicate_replacement,
}
use mull.Mutators.Trivial.{TrivialCxxMutator}

abbrev get_less_than_to_less_or_equal : List IrMutation
get_less_than_to_less_or_equal =
    predicate_replacement icmp_slt icmp_sle
    ∷ predicate_replacement icmp_ult icmp_ule
    ∷ predicate_replacement fcmp_olt fcmp_ole
    ∷ predicate_replacement fcmp_ult fcmp_ule
    ∷ []

abbrev pub less_than_to_less_or_equal_mutator : TrivialCxxMutator
less_than_to_less_or_equal_mutator = record {
  low_level_mutators = get_less_than_to_less_or_equal;
  kind = cxx_less_than_to_less_or_equal;
  id = "cxx_lt_to_le";
  description = "Replaces < with <=";
  replacement = "<=";
  diagnostics = "Replaced < with <=";
}

abbrev get_less_or_equal_to_less_than : List IrMutation
get_less_or_equal_to_less_than =
    predicate_replacement icmp_sle icmp_slt
    ∷ predicate_replacement icmp_ule icmp_ult
    ∷ predicate_replacement fcmp_ole fcmp_olt
    ∷ predicate_replacement fcmp_ule fcmp_ult
    ∷ []

abbrev pub less_or_equal_to_less_than_mutator : TrivialCxxMutator
less_or_equal_to_less_than_mutator = record {
  low_level_mutators = get_less_or_equal_to_less_than;
  kind = cxx_less_or_equal_to_less_than;
  id = "cxx_le_to_lt";
  description = "Replaces <= with <";
  replacement = "<";
  diagnostics = "Replaced <= with <";
}

abbrev get_greater_than_to_greater_or_equal : List IrMutation
get_greater_than_to_greater_or_equal =
    predicate_replacement icmp_sgt icmp_sge
    ∷ predicate_replacement icmp_ugt icmp_uge
    ∷ predicate_replacement fcmp_ogt fcmp_oge
    ∷ predicate_replacement fcmp_ugt fcmp_uge
    ∷ []

abbrev pub greater_than_to_greater_or_equal_mutator : TrivialCxxMutator
greater_than_to_greater_or_equal_mutator = record {
  low_level_mutators = get_greater_than_to_greater_or_equal;
  kind = cxx_greater_than_to_greater_or_equal;
  id = "cxx_gt_to_ge";
  description = "Replaces > with >=";
  replacement = ">=";
  diagnostics = "Replaced > with >=";
}

abbrev get_greater_or_equal_to_greater_than : List IrMutation
get_greater_or_equal_to_greater_than =
    predicate_replacement icmp_sge icmp_sgt
    ∷ predicate_replacement icmp_uge icmp_ugt
    ∷ predicate_replacement fcmp_oge fcmp_ogt
    ∷ predicate_replacement fcmp_uge fcmp_ugt
    ∷ []

abbrev pub greater_or_equal_to_greater_than_mutator : TrivialCxxMutator
greater_or_equal_to_greater_than_mutator = record {
  low_level_mutators = get_greater_or_equal_to_greater_than;
  kind = cxx_greater_or_equal_to_greater_than;
  id = "cxx_ge_to_gt";
  description = "Replaces >= with >";
  replacement = ">";
  diagnostics = "Replaced >= with >";
}

abbrev get_equal_to_not_equal : List IrMutation
get_equal_to_not_equal =
    predicate_replacement icmp_eq icmp_ne
    ∷ predicate_replacement fcmp_oeq fcmp_one
    ∷ predicate_replacement fcmp_ueq fcmp_une
    ∷ []

abbrev pub equal_to_not_equal_mutator : TrivialCxxMutator
equal_to_not_equal_mutator = record {
  low_level_mutators = get_equal_to_not_equal;
  kind = cxx_equal_to_not_equal;
  id = "cxx_eq_to_ne";
  description = "Replaces == with !=";
  replacement = "!=";
  diagnostics = "Replaced == with !=";
}

abbrev get_not_equal_to_equal : List IrMutation
get_not_equal_to_equal =
    predicate_replacement icmp_ne icmp_eq
    ∷ predicate_replacement fcmp_one fcmp_oeq
    ∷ predicate_replacement fcmp_une fcmp_ueq
    ∷ []

abbrev pub not_equal_to_equal_mutator : TrivialCxxMutator
not_equal_to_equal_mutator = record {
  low_level_mutators = get_not_equal_to_equal;
  kind = cxx_not_equal_to_equal;
  id = "cxx_ne_to_eq";
  description = "Replaces != with ==";
  replacement = "==";
  diagnostics = "Replaced != with ==";
}

abbrev get_greater_than_to_less_or_equal : List IrMutation
get_greater_than_to_less_or_equal =
    predicate_replacement icmp_sgt icmp_sle
    ∷ predicate_replacement icmp_ugt icmp_ule
    ∷ predicate_replacement fcmp_ogt fcmp_ole
    ∷ predicate_replacement fcmp_ugt fcmp_ule
    ∷ []

abbrev pub greater_than_to_less_or_equal_mutator : TrivialCxxMutator
greater_than_to_less_or_equal_mutator = record {
  low_level_mutators = get_greater_than_to_less_or_equal;
  kind = cxx_greater_than_to_less_or_equal;
  id = "cxx_gt_to_le";
  description = "Replaces > with <=";
  replacement = "<=";
  diagnostics = "Replaced > with <=";
}

abbrev get_greater_or_equal_to_less_than : List IrMutation
get_greater_or_equal_to_less_than =
    predicate_replacement icmp_sge icmp_slt
    ∷ predicate_replacement icmp_uge icmp_ult
    ∷ predicate_replacement fcmp_oge fcmp_olt
    ∷ predicate_replacement fcmp_uge fcmp_ult
    ∷ []

abbrev pub greater_or_equal_to_less_than_mutator : TrivialCxxMutator
greater_or_equal_to_less_than_mutator = record {
  low_level_mutators = get_greater_or_equal_to_less_than;
  kind = cxx_greater_or_equal_to_less_than;
  id = "cxx_ge_to_lt";
  description = "Replaces >= with <";
  replacement = "<";
  diagnostics = "Replaced >= with <";
}

abbrev get_less_than_to_greater_or_equal : List IrMutation
get_less_than_to_greater_or_equal =
    predicate_replacement icmp_slt icmp_sge
    ∷ predicate_replacement icmp_ult icmp_uge
    ∷ predicate_replacement fcmp_olt fcmp_oge
    ∷ predicate_replacement fcmp_ult fcmp_uge
    ∷ []

abbrev pub less_than_to_greater_or_equal_mutator : TrivialCxxMutator
less_than_to_greater_or_equal_mutator = record {
  low_level_mutators = get_less_than_to_greater_or_equal;
  kind = cxx_less_than_to_greater_or_equal;
  id = "cxx_lt_to_ge";
  description = "Replaces < with >=";
  replacement = ">=";
  diagnostics = "Replaced < with >=";
}

abbrev get_less_or_equal_to_greater_than : List IrMutation
get_less_or_equal_to_greater_than =
    predicate_replacement icmp_sle icmp_sgt
    ∷ predicate_replacement icmp_ule icmp_ugt
    ∷ predicate_replacement fcmp_ole fcmp_ogt
    ∷ predicate_replacement fcmp_ule fcmp_ugt
    ∷ []

abbrev pub less_or_equal_to_greater_than_mutator : TrivialCxxMutator
less_or_equal_to_greater_than_mutator = record {
  low_level_mutators = get_less_or_equal_to_greater_than;
  kind = cxx_less_or_equal_to_greater_than;
  id = "cxx_le_to_gt";
  description = "Replaces <= with >";
  replacement = ">";
  diagnostics = "Replaced <= with >";
}
