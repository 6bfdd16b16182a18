-- ===== src/MutationPoint.antt =====
-- lib/MutationPoint.cpp: the address of an instruction in a module, and finding the instruction again.
-- Objects are known by numbers that stand for their identity. A position that `int` does not hold, and
-- an iterator advanced past the end, are `none`.
pub mod Address
mod Tests
use mull.Base.{
  ℕ, zero, suc, ◌+◌, ◌^◌, List, [], ◌∷◌, Option, none, some, ◌==◌, ltb, if◌then◌else◌, map,
  get_elem?, ◌>>=◌,
}

pub record BasicBlock : Type 0 where
  pub id : ℕ
  pub instructions : List ℕ

pub record Function : Type 0 where
  pub id : ℕ
  pub blocks : List BasicBlock

abbrev pub Module : Type 0
Module = List Function

pub record MutationPointAddress : Type 0 where
  pub function_index : ℕ
  pub basic_block_index : ℕ
  pub instruction_index : ℕ

-- `getIndex`, the length when the value is not there.
pub get_index : List ℕ → (value : ℕ) → ℕ
get_index [] value = 0
get_index (x ∷ xs) value = let rest = get_index xs value in if x == value then 0 else suc rest

abbrev pub to_int : ℕ → Option ℕ
to_int n = if ltb n (2 ^ 31) then some n else none

-- An instruction with the function and the block that it stands in, `getFunction` and `getParent`.
pub record Instruction : Type 0 where
  pub function : Function
  pub parent : BasicBlock
  pub id : ℕ

pub address_from_instruction : Module → Instruction → Option MutationPointAddress
unfolding get_index
address_from_instruction m i = do
  fn ← to_int (get_index (map (λ f. f.id) m) i.function.id)
  bb ← to_int (get_index (map (λ b. b.id) i.function.blocks) i.parent.id)
  at ← to_int (get_index i.parent.instructions i.id)
  some record { function_index = fn; basic_block_index = bb; instruction_index = at }

-- `findInstruction` in a function, which may be a copy of the one that the address comes from.
pub find_in_function : Function → MutationPointAddress → Option ℕ
find_in_function f a = do
  bb ← get_elem? f.blocks a.basic_block_index
  get_elem? bb.instructions a.instruction_index

-- `findInstruction` in a module.
pub find_instruction : Module → MutationPointAddress → Option ℕ
unfolding find_in_function
find_instruction m a = do
  f ← get_elem? m a.function_index
  bb ← get_elem? f.blocks a.basic_block_index
  get_elem? bb.instructions a.instruction_index
