-- ===== src/Mutators/Trivial.antt =====
-- lib/Mutators/CXX/TrivialCXXMutator.cpp: mutators that replace one operation by another, and the
-- mutation points they find. Instructions are numbers; whether a low-level mutation can mutate an
-- instruction is a parameter.
use mull.Base.{ℕ, List, [], ◌∷◌, ◌++◌, Bool, if◌then◌else◌, String}
use mull.Mutators.Kind.{MutatorKind}
use mull.Mutators.Irm.{IrMutation}

pub record TrivialCxxMutator : Type 0 where
  pub low_level_mutators : List IrMutation
  pub kind : MutatorKind
  pub id : String
  pub description : String
  pub replacement : String
  pub diagnostics : String

-- What tells one mutation point from another; the bitcode module is the same for all points of a
-- call of `get_mutations`.
pub record MutationPoint : Type 0 where
  pub mutator : String
  pub ir_mutator : IrMutation
  pub instruction : ℕ
  pub replacement : String
  pub diagnostics : String

-- The loops that every `getMutations` consists of: over the selected instructions and, in each,
-- over the low-level mutations. `accepts` is the condition and `point` the mutation point made.
module _ {L : Type 0} (accepts : L → ℕ → Bool) (point : ℕ → L → MutationPoint) where
  unfoldable pub mutate_instruction : List L → ℕ → List MutationPoint → List MutationPoint
  mutate_instruction [] i mutations = mutations
  mutate_instruction (low ∷ rest) i mutations =
      mutate_instruction rest i (if accepts low i then mutations ++ point i low ∷ [] else mutations)

  unfoldable pub mutate_loop : List L → List ℕ → List MutationPoint → List MutationPoint
  mutate_loop lows [] mutations = mutations
  mutate_loop lows (i ∷ rest) mutations =
      mutate_loop lows rest (mutate_instruction lows i mutations)

unfoldable pub trivial_point : TrivialCxxMutator → ℕ → IrMutation → MutationPoint
trivial_point m i low = record {
  mutator = m.id;
  ir_mutator = low;
  instruction = i;
  replacement = m.replacement;
  diagnostics = m.diagnostics;
}

unfoldable pub get_mutations :
    (can_mutate : IrMutation → ℕ → Bool) → TrivialCxxMutator → List ℕ → List MutationPoint
get_mutations can_mutate m instructions =
    mutate_loop can_mutate (trivial_point m) m.low_level_mutators instructions []
