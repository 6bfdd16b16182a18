-- ===== src/Mutators/Logical/Control.antt =====
-- Where control goes in a function, and that updating phi nodes does not change it.
use mull.Base.{
  ℕ, ◌≡◌, refl, ap, ◌∙◌, List, [], ◌∷◌, Option, none, some, Bool, true, false, ◌==◌, ==_iff,
  if◌then◌else◌, arith, Bool-cases, inl, inr,
}
use mull.Base.Dict.{lookup}
use mull.Mutators.Logical.{
  Value, constant, local, Branch, Instruction, conditional, jump, phi, other, Block, Function,
  block_at, modify, terminator, terminator_at, replace_branch, accept_in_block, accept_jumps,
  redirect,
}

-- What a value holds, when `env` gives the locals.
abbrev pub truth : (ℕ → Bool) → Value → Bool
truth env (constant b) = b
truth env (local x) = env x

abbrev pub taken : (ℕ → Bool) → Option Instruction → Option ℕ
taken env (some (conditional b)) = some (if truth env b.condition then b.left else b.right)
taken env (some (jump target)) = some target
taken env _ = none

-- The block that control reaches from the block `n`.
abbrev pub next : (ℕ → Bool) → Function → ℕ → Option ℕ
next env f n = taken env (terminator_at (block_at n f))

-- The branch is the terminator of its block.
abbrev pub Ends : Function → Branch → Type 0
Ends f b = terminator_at (block_at b.parent f) ≡ some (conditional b)

abbrev pub map_block : Bool → (Block → Block) → Option Block → Option Block
map_block hit g none = none
map_block hit g (some is) = some (if hit then g is else is)

pub block_at-modify :
    (n k : ℕ) (g : Block → Block) (f : Function)
    → block_at k (modify n g f) ≡ map_block (k == n) g (block_at k f)
unfolding modify lookup
block_at-modify n k g [] = refl
block_at-modify n k g ((j, is) ∷ f) = ground (arith, block_at-modify n k g f)

pub terminator-replace_branch :
    (b c : Branch) (is : Block)
    → terminator is ≡ some (conditional b)
    → terminator (replace_branch b.id c is) ≡ some (conditional c)
unfolding terminator replace_branch
terminator-replace_branch b c [] e = cc
terminator-replace_branch b c (conditional d ∷ is) e = ground arith
terminator-replace_branch b c (jump target ∷ is) e = cc
terminator-replace_branch b c (phi i incoming ∷ is) e = terminator-replace_branch b c is e
terminator-replace_branch b c (other i ∷ is) e = terminator-replace_branch b c is e

pub terminator-accept_in_block :
    (from to : ℕ) (is : Block) → terminator (accept_in_block from to is) ≡ terminator is
unfolding terminator accept_in_block
terminator-accept_in_block from to [] = refl
terminator-accept_in_block from to (conditional b ∷ is) = refl
terminator-accept_in_block from to (jump target ∷ is) = refl
terminator-accept_in_block from to (phi i incoming ∷ is) = terminator-accept_in_block from to is
terminator-accept_in_block from to (other i ∷ is) = refl

-- Changing a block to one with the same terminator keeps all terminators.
pub terminator_at-modify :
    (n k : ℕ) (g : Block → Block) (f : Function)
    → ((is : Block) → terminator (g is) ≡ terminator is)
    → terminator_at (block_at k (modify n g f)) ≡ terminator_at (block_at k f)
terminator_at-modify n k g f same =
    ap terminator_at (block_at-modify n k g f) ∙ kept (k == n) (block_at k f)
  where
    kept : (hit : Bool) (o : Option Block) → terminator_at (map_block hit g o) ≡ terminator_at o
    kept hit none = refl
    kept true (some is) = same is
    kept false (some is) = refl

pub terminator_at-accept_jumps :
    (target from to : ℕ) (ss : List ℕ) (f : Function) (k : ℕ)
    → terminator_at (block_at k (accept_jumps target from to ss f)) ≡ terminator_at (block_at k f)
unfolding accept_jumps
terminator_at-accept_jumps target from to [] f k = refl
terminator_at-accept_jumps target from to (s ∷ ss) f k = elim (Bool-cases (s == target)) [
  | inl hit ↦ rw hit (
      terminator_at-accept_jumps target from to ss (modify s (accept_in_block from to) f) k
      ∙ terminator_at-modify s k (accept_in_block from to) f (terminator-accept_in_block from to))
  | inr miss ↦ rw miss (terminator_at-accept_jumps target from to ss f k)
]

-- After a branch is replaced in its block, it is the new branch that ends the block.
pub terminator_at-replace :
    (f : Function) (b c : Branch)
    → Ends f b
    → terminator_at (block_at b.parent (modify b.parent (replace_branch b.id c) f))
      ≡ some (conditional c)
terminator_at-replace f b c end =
    ap terminator_at (block_at-modify b.parent b.parent (replace_branch b.id c) f)
    ∙ replaced (b.parent == b.parent) ((==_iff b.parent b.parent).1 refl) (block_at b.parent f) end
  where
    replaced :
        (hit : Bool)
        → hit ≡ true
        → (o : Option Block) → terminator_at o ≡ some (conditional b)
        → terminator_at (map_block hit (replace_branch b.id c) o) ≡ some (conditional c)
    replaced hit h none e = cc
    replaced true h (some is) e = terminator-replace_branch b c is e
    replaced false h (some is) e = cc

-- The other blocks stay as they are.
pub block_at-replace_ne :
    (n k : ℕ) (g : Block → Block) (f : Function)
    → (k == n) ≡ false
    → block_at k (modify n g f) ≡ block_at k f
block_at-replace_ne n k g f miss =
    block_at-modify n k g f ∙ ap (λ h. map_block h g (block_at k f)) miss ∙ same (block_at k f)
  where
    same : (o : Option Block) → map_block false g o ≡ o
    same none = refl
    same (some is) = refl

abbrev pub through : (ℕ → Bool) → Function → ℕ → Option ℕ → Option ℕ
through env f mid none = none
through env f mid (some n) = if n == mid then next env f mid else some n

-- Where control gets to from `start`, going on when it comes to `mid`.
abbrev pub arrives : (ℕ → Bool) → Function → (start mid : ℕ) → Option ℕ
arrives env f start mid = through env f mid (next env f start)

-- The block that two branches together lead to, the first one leading to the second one's block.
abbrev pub both : (ℕ → Bool) → Branch → Branch → ℕ
both env b c =
    let first = if truth env b.condition then b.left else b.right in
    if first == c.parent then (if truth env c.condition then c.left else c.right) else first

pub arrives-both :
    (env : ℕ → Bool) (f : Function) (b c : Branch)
    → Ends f b
    → Ends f c
    → arrives env f b.parent c.parent ≡ some (both env b c)
arrives-both env f b c at_b at_c =
    ap (λ o. through env f c.parent (taken env o)) at_b
    ∙ ap
        (λ o.
          if (if truth env b.condition then b.left else b.right) == c.parent
          then taken env o
          else some (if truth env b.condition then b.left else b.right))
        at_c
    ∙ ground arith

-- After the first branch is redirected and the phi nodes of a block are updated, the new branch
-- and the second one end their blocks.
pub Ends-redirect :
    (f : Function) (b c : Branch) (left right : ℕ) (target : ℕ) (ss : List ℕ)
    → (c.parent == b.parent) ≡ false
    → Ends f b
    → Ends f c
    → Ends
        (accept_jumps target c.parent b.parent ss (redirect b left right f))
        (record b { left = left; right = right })
      × Ends (accept_jumps target c.parent b.parent ss (redirect b left right f)) c
Ends-redirect f b c left right target ss apart at_b at_c =
    let b' = record b { left = left; right = right } in
    let f' = redirect b left right f in
    (
      terminator_at-accept_jumps target c.parent b.parent ss f' b.parent
          ∙ terminator_at-replace f b b' at_b,
      terminator_at-accept_jumps target c.parent b.parent ss f' c.parent
          ∙ ap terminator_at
              (block_at-replace_ne b.parent c.parent (replace_branch b.id b') f apart)
          ∙ at_c,
    )
