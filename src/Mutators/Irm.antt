-- ===== src/Mutators/Irm.antt =====
-- The low-level mutations of the library irm that the mutators are made of, by the names of their
-- classes. What they match and change is irm's.
use mull.Base.{ℕ}

-- `llvm::CmpInst::Predicate`, as far as the mutators use it.
pub data Predicate : Type 0 where
  icmp_slt icmp_sle icmp_ult icmp_ule fcmp_olt fcmp_ole fcmp_ult fcmp_ule icmp_sgt icmp_sge icmp_ugt
        icmp_uge fcmp_ogt fcmp_oge fcmp_ugt fcmp_uge icmp_eq icmp_ne fcmp_oeq fcmp_one fcmp_ueq
        fcmp_une :
      Predicate

-- `predicate_replacement from to` stands for the class named after both predicates.
pub data IrMutation : Type 0 where
  predicate_replacement : (from to : Predicate) → IrMutation
  add_to_sub : IrMutation
  f_add_to_f_sub : IrMutation
  sadd_with_overflow_to_ssub_with_overflow : IrMutation
  sub_to_add : IrMutation
  f_sub_to_f_add : IrMutation
  ssub_with_overflow_to_sadd_with_overflow : IrMutation
  mul_to_s_div : IrMutation
  f_mul_to_f_div : IrMutation
  f_div_to_f_mul : IrMutation
  s_div_to_mul : IrMutation
  u_div_to_mul : IrMutation
  f_rem_to_f_div : IrMutation
  s_rem_to_s_div : IrMutation
  u_rem_to_u_div : IrMutation
  xor_to_and : IrMutation
  shl_to_l_shr : IrMutation
  l_shr_to_shl : IrMutation
  a_shr_to_shl : IrMutation
  or_to_and : IrMutation
  and_to_or : IrMutation
  xor_to_or : IrMutation
  store_int_replacement : (value : ℕ) → IrMutation
  store_double_replacement : (value : ℕ) → IrMutation
  store_float_replacement : (value : ℕ) → IrMutation
  remove_void_function_call : IrMutation
  remove_void_intrinsics_call : IrMutation
  swap_sub_operands : IrMutation
  swap_f_sub_operands : IrMutation
  int_call_replacement : (value : ℕ) → IrMutation
  float_call_replacement : (value : ℕ) → IrMutation
  double_call_replacement : (value : ℕ) → IrMutation
  const_int_replacement : (value operand : ℕ) → IrMutation
  const_float_replacement : (value operand : ℕ) → IrMutation
