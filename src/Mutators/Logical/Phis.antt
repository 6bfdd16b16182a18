-- ===== src/Mutators/Logical/Phis.antt =====
-- The value of the first phi node of a block where two branches join, and how flipping its first
-- constant and swapping the first branch change it.
use mull.Base.{
  ℕ, ◌≡◌, ◌≢◌, refl, sym, ap, ◌∙◌, List, [], ◌∷◌, Option, none, some, Bool, true, false, not, ◌==◌,
  if◌then◌else◌, arith, some_injective,
}
use mull.Mutators.Logical.{
  Value, constant, local, Branch, Block, Function, conditional, jump, phi, other, block_at, modify,
  terminator_at, replace_branch, incoming_value, phi_joins, flip_first_phi, flip_then, flip_at,
  redirect,
}
use mull.Mutators.Logical.Control.{
  truth, taken, next, Ends, map_block, block_at-modify, block_at-replace_ne, terminator_at-replace,
}

pub phi_joins-true :
    (own : ℕ) (joins : Bool) (is : Block) → phi_joins own joins is ≡ true → joins ≡ true
unfolding phi_joins
phi_joins-true own true is e = refl
phi_joins-true own false [] e = cc
phi_joins-true own false (conditional b ∷ is) e = phi_joins-true own false is e
phi_joins-true own false (jump t ∷ is) e = phi_joins-true own false is e
phi_joins-true own false (phi i incoming ∷ is) e = ground (arith, phi_joins-true own false is)
phi_joins-true own false (other i ∷ is) e = phi_joins-true own false is e

-- The incoming values of the first phi node.
abbrev pub first_phi : Option Block → Option (List (Value × ℕ))
first_phi none = none
first_phi (some []) = none
first_phi (some (phi i incoming ∷ is)) = some incoming
first_phi (some (conditional b ∷ is)) = first_phi (some is)
first_phi (some (jump t ∷ is)) = first_phi (some is)
first_phi (some (other i ∷ is)) = first_phi (some is)

abbrev pub held : (ℕ → Bool) → Option Value → Option Bool
held env none = none
held env (some v) = some (truth env v)

abbrev pub held_from : (ℕ → Bool) → (from : ℕ) → Option (List (Value × ℕ)) → Option Bool
held_from env from none = none
held_from env from (some incoming) = held env (incoming_value from incoming)

abbrev pub held_after :
    (ℕ → Bool) → (from m : ℕ) → Option ℕ → Option (List (Value × ℕ)) → Option Bool
held_after env from m none phis = none
held_after env from m (some n) phis = if n == m then held_from env from phis else none

-- The value of the first phi node of the block `m` after the branch `b`, when control comes to `m`
-- directly or through one more block.
abbrev pub joined : (ℕ → Bool) → Function → (m : ℕ) → Branch → Option Bool
joined env f m b =
    let n = if truth env b.condition then b.left else b.right in
    let phis = first_phi (block_at m f) in
    if n == m then held_from env b.parent phis else held_after env n m (next env f n) phis

-- The first phi node of `m` has the constant `k` for the block `from`, and the value `v` for the
-- block `rhs`, which goes on to `m`.
pub record Joins (env : ℕ → Bool) (f : Function) (m from rhs : ℕ) (k : Bool) (v : Value)
    : Type 0 where
  pub incoming : List (Value × ℕ)
  pub phis : first_phi (block_at m f) ≡ some ((constant k, from) ∷ incoming)
  pub at_rhs : incoming_value rhs incoming ≡ some v
  pub goes_on : next env f rhs ≡ some m
  pub from_apart : from ≢ m
  pub rhs_apart : rhs ≢ m
  pub rhs_from : rhs ≢ from

-- A constant for the first phi node is flipped in place.
pub first_phi-flip :
    (k : Bool) (from : ℕ) (incoming : List (Value × ℕ)) (is : Block)
    → first_phi (some is) ≡ some ((constant k, from) ∷ incoming)
    → (js : Block) × (flip_first_phi is ≡ some js)
      × (first_phi (some js) ≡ some ((constant (not k), from) ∷ incoming))
unfolding flip_first_phi
first_phi-flip k from incoming [] e = cc
first_phi-flip k from incoming (phi i [] ∷ is) e = cc
first_phi-flip k from incoming (phi i ((local x, n) ∷ rest) ∷ is) e = cc
first_phi-flip k from incoming (phi i ((constant c, n) ∷ rest) ∷ is) e =
    (phi i ((constant (not c), n) ∷ rest) ∷ is, refl, ap flipped (some_injective e))
  where
    flipped : List (Value × ℕ) → Option (List (Value × ℕ))
    flipped ((constant c, n) ∷ rest) = some ((constant (not c), n) ∷ rest)
    flipped _ = none
first_phi-flip k from incoming (conditional b ∷ is) e =
    let rest = first_phi-flip k from incoming is e in
    (conditional b ∷ rest.0, rw rest.1 refl, rest.2)
first_phi-flip k from incoming (jump t ∷ is) e =
    let rest = first_phi-flip k from incoming is e in (jump t ∷ rest.0, rw rest.1 refl, rest.2)
first_phi-flip k from incoming (other i ∷ is) e =
    let rest = first_phi-flip k from incoming is e in (other i ∷ rest.0, rw rest.1 refl, rest.2)

module _ (env : ℕ → Bool) (f : Function) (m from rhs : ℕ) (k : Bool) (v : Value) where
  pub held_from-constant :
      Joins env f m from rhs k v → held_from env from (first_phi (block_at m f)) ≡ some k
  held_from-constant j = ap (held_from env from) j.phis ∙ ground arith

  pub held_after-rhs :
      Joins env f m from rhs k v
      → held_after env rhs m (next env f rhs) (first_phi (block_at m f)) ≡ some (truth env v)
  held_after-rhs j =
      ap (λ o. held_after env rhs m o (first_phi (block_at m f))) j.goes_on
      ∙ ap (held_after env rhs m (some m)) j.phis
      ∙ ground (arith, j.rhs_from, ap (held env) j.at_rhs)

  -- The rewriting of the third pattern keeps the join, with the opposite constant.
  pub Joins-flip :
      (b c : Branch)
      → b.parent ≡ from
      → c.parent ≡ m
      → Ends f b
      → Joins env f m from rhs k v
      → (g : Function) × (flip_then b c f (flip_at (block_at c.parent f)) ≡ some g)
        × Joins env g m from rhs (not k) v
        × Ends g (record b { left = b.right; right = b.left })
  Joins-flip b c at_from at_m end j = go (block_at m f) refl
    where
      b' : Branch
      b' = record b { left = b.right; right = b.left }

      go :
          (o : Option Block)
          → block_at m f ≡ o
          → (g : Function) × (flip_then b c f (flip_at (block_at c.parent f)) ≡ some g)
            × Joins env g m from rhs (not k) v
            × Ends g b'
      go none e = absurd (cc (ap first_phi e, j.phis))
      go (some is) e =
          let (js, flips, flipped) =
            first_phi-flip k from j.incoming is (sym (ap first_phi e) ∙ j.phis) in
          let f' = modify m (λ _. js) f in
          let keeps : (n : ℕ) → n ≢ m → block_at n f' ≡ block_at n f =
            λ n apart. block_at-replace_ne m n (λ _. js) f (ground arith) in
          let g = redirect b b.right b.left f' in
          let hit : map_block (m == m) (λ _. js) (some is) ≡ some js = ground arith in
          (
            g,
            ap (λ o. flip_then b c f (flip_at o)) (ap (λ n. block_at n f) at_m ∙ e)
                ∙ ap (flip_then b c f) flips
                ∙ ap (λ n. some (redirect b b.right b.left (modify n (λ _. js) f))) at_m,
            (record {
              incoming = j.incoming;
              phis =
                  ap first_phi (
                    block_at-replace_ne b.parent m (replace_branch b.id b') f'
                      (ground (arith, j.from_apart))
                    ∙ block_at-modify m m (λ _. js) f
                    ∙ ap (map_block (m == m) (λ _. js)) e
                    ∙ hit)
                  ∙ flipped;
              at_rhs = j.at_rhs;
              goes_on =
                  ap (λ o. taken env (terminator_at o))
                    (block_at-replace_ne b.parent rhs (replace_branch b.id b') f'
                        (ground (arith, j.rhs_from))
                      ∙ keeps rhs j.rhs_apart)
                  ∙ j.goes_on;
              from_apart = j.from_apart;
              rhs_apart = j.rhs_apart;
              rhs_from = j.rhs_from;
            }),
            terminator_at-replace f' b b'
                (ap terminator_at (keeps b.parent (λ p. j.from_apart (sym at_from ∙ p))) ∙ end),
          )
