-- ===== src/Mutators/Logical.antt =====
-- What lib/Mutators/CXX/LogicalAndToOr.cpp and LogicalOrToAnd.cpp read and change of an
-- `llvm::Function`: its blocks in order, each a name and its instructions. The parts that both
-- mutators share stand here.
pub mod Control
pub mod Phis
pub mod AndToOr
pub mod OrToAnd
mod Tests
use mull.Base.{
  ℕ, List, [], ◌∷◌, ◌++◌, Option, none, some, Bool, true, false, not, ◌==◌, if◌then◌else◌,
  ℕ_discrete,
}
use mull.Base.Dict.{lookup}

-- A truth value: a constant, or a value that some instruction or argument holds.
pub data Value : Type 0 where
  constant : Bool → Value
  local : ℕ → Value

-- A conditional `llvm::BranchInst`. The left block, operand 2, is taken when the condition, operand
-- 0, is true; the right one is operand 1. `id` is the instruction's identity.
pub record Branch : Type 0 where
  pub id : ℕ
  pub parent : ℕ
  pub condition : Value
  pub left : ℕ
  pub right : ℕ

-- The incoming values of a phi node stand with the blocks that they come from.
pub data Instruction : Type 0 where
  conditional : Branch → Instruction
  jump : (target : ℕ) → Instruction
  phi : (id : ℕ) → (incoming : List (Value × ℕ)) → Instruction
  other : (id : ℕ) → Instruction

abbrev pub Block : Type 0
Block = List Instruction

abbrev pub Function : Type 0
Function = List (ℕ × Block)

abbrev pub block_at : ℕ → Function → Option Block
block_at n f = lookup ℕ_discrete n f

-- The function with one block changed in place.
unfoldable pub modify : ℕ → (Block → Block) → Function → Function
modify n g [] = []
modify n g ((k, is) ∷ f) = (k, if k == n then g is else is) ∷ modify n g f

-- `getTerminator`: branches stand only at the end of a block.
pub terminator : Block → Option Instruction
terminator [] = none
terminator (conditional b ∷ is) = some (conditional b)
terminator (jump target ∷ is) = some (jump target)
terminator (phi id incoming ∷ is) = terminator is
terminator (other id ∷ is) = terminator is

abbrev pub successors_of : Option Instruction → List ℕ
successors_of (some (conditional b)) = b.left ∷ b.right ∷ []
successors_of (some (jump target)) = target ∷ []
successors_of _ = []

abbrev pub terminator_at : Option Block → Option Instruction
terminator_at none = none
terminator_at (some is) = terminator is

-- The successors of a block, in the order of `getSuccessor`.
abbrev pub successors : ℕ → Function → List ℕ
successors n f = successors_of (terminator_at (block_at n f))

-- `insertAfter` and `eraseFromParent`: the replacement takes the branch's place.
pub replace_branch : ℕ → Branch → Block → Block
replace_branch id b [] = []
replace_branch id b (conditional c ∷ is) =
    (if c.id == id then conditional b else conditional c) ∷ replace_branch id b is
replace_branch id b (jump target ∷ is) = jump target ∷ replace_branch id b is
replace_branch id b (phi i incoming ∷ is) = phi i incoming ∷ replace_branch id b is
replace_branch id b (other i ∷ is) = other i ∷ replace_branch id b is

-- The value that a phi node has for a block.
abbrev pub incoming_value : ℕ → List (Value × ℕ) → Option Value
incoming_value from [] = none
incoming_value from ((v, block) ∷ rest) = if block == from then some v else incoming_value from rest

abbrev pub add_incoming : Option Value → ℕ → List (Value × ℕ) → List (Value × ℕ)
add_incoming none to incoming = incoming
add_incoming (some v) to incoming = incoming ++ (v, to) ∷ []

-- The loop over the instructions of a successor: for each phi node, up to the first other
-- instruction, the value from the block `from` is also taken from the block `to`.
pub accept_in_block : (from to : ℕ) → Block → Block
accept_in_block from to [] = []
accept_in_block from to (phi id incoming ∷ is) =
    phi id (add_incoming (incoming_value from incoming) to incoming) ∷ accept_in_block from to is
accept_in_block from to (conditional b ∷ is) = conditional b ∷ is
accept_in_block from to (jump target ∷ is) = jump target ∷ is
accept_in_block from to (other id ∷ is) = other id ∷ is

-- The loop over the successors of the second branch's block; only `target` is updated.
pub accept_jumps : (target from to : ℕ) → List ℕ → Function → Function
unfolding modify accept_in_block
accept_jumps target from to [] f = f
accept_jumps target from to (s ∷ rest) f =
    accept_jumps target from to rest
      (if s == target then modify s (accept_in_block from to) f else f)

-- A phi node has an incoming block other than the branch's own.
pub has_other_incoming : ℕ → List (Value × ℕ) → Bool
has_other_incoming own [] = false
has_other_incoming own ((v, block) ∷ rest) =
    if block == own then has_other_incoming own rest else true

-- The loop over the phi nodes of the candidate's block, which `joins` when it is the block that
-- the first branch jumps to.
pub phi_joins : (own : ℕ) → (joins : Bool) → Block → Bool
unfolding has_other_incoming
phi_joins own joins [] = false
phi_joins own joins (phi id incoming ∷ is) =
    if has_other_incoming own incoming
    then (if joins then true else phi_joins own joins is)
    else phi_joins own joins is
phi_joins own joins (conditional b ∷ is) = phi_joins own joins is
phi_joins own joins (jump target ∷ is) = phi_joins own joins is
phi_joins own joins (other id ∷ is) = phi_joins own joins is

-- The conditional branches of a block, each with the block it stands in.
abbrev branches_in : Block → Block → List (Branch × Block)
branches_in whole [] = []
branches_in whole (conditional b ∷ is) = (b, whole) ∷ branches_in whole is
branches_in whole (jump target ∷ is) = branches_in whole is
branches_in whole (phi id incoming ∷ is) = branches_in whole is
branches_in whole (other id ∷ is) = branches_in whole is

-- The conditional branches of a function, in the order of its blocks and instructions.
abbrev pub branches : Function → List (Branch × Block)
branches [] = []
branches ((n, is) ∷ f) = branches_in is is ++ branches f

-- The first phi node of a block gets the opposite constant as its first incoming value; `none`
-- when there is no phi node or its first value is no constant.
pub flip_first_phi : Block → Option Block
flip_first_phi [] = none
flip_first_phi (phi id [] ∷ is) = none
flip_first_phi (phi id ((local v, from) ∷ incoming) ∷ is) = none
flip_first_phi (phi id ((constant c, from) ∷ incoming) ∷ is) =
    some (phi id ((constant (not c), from) ∷ incoming) ∷ is)
flip_first_phi (conditional b ∷ is) = elim (flip_first_phi is) [
  | none ↦ none
  | some js ↦ some (conditional b ∷ js)
]
flip_first_phi (jump target ∷ is) = elim (flip_first_phi is) [
  | none ↦ none
  | some js ↦ some (jump target ∷ js)
]
flip_first_phi (other id ∷ is) = elim (flip_first_phi is) [
  | none ↦ none
  | some js ↦ some (other id ∷ js)
]

-- The three patterns that both mutators tell apart.
pub data Pattern : Type 0 where
  pattern1 pattern2 pattern3 : Pattern

-- The first branch with other targets, in its own place.
abbrev pub redirect : Branch → (left right : ℕ) → Function → Function
redirect b left right f =
    modify b.parent (replace_branch b.id (record b { left = left; right = right })) f

abbrev pub flip_then : (first second : Branch) → Function → Option Block → Option Function
flip_then first second f none = none
flip_then first second f (some js) =
    some (redirect first first.right first.left (modify second.parent (λ is. js) f))

abbrev pub flip_at : Option Block → Option Block
flip_at none = none
flip_at (some is) = flip_first_phi is
