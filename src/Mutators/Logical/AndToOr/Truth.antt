-- ===== src/Mutators/Logical/AndToOr/Truth.antt =====
-- The mutator of lib/Mutators/CXX/LogicalAndToOr.cpp turns the conjunction of two branches into their
-- disjunction.
use mull.Base.{
  ℕ, refl, ◌≡◌, ◌≢◌, ap, ◌∙◌, List, [], ◌∷◌, some, Bool, true, false, not, ◌&&◌, ◌||◌, ◌==◌, ==_iff,
  if◌then◌else◌, arith, Bool-cases, inl, inr, some_injective, subst,
}
use mull.Mutators.Logical.{
  Value, Branch, Block, Function, Pattern, pattern1, pattern2, pattern3, successors, phi_joins,
  branches, redirect,
}
use mull.Mutators.Logical.Phis.{
  phi_joins-true, Joins, Joins-flip, joined, held_from-constant, held_after-rhs,
}
use mull.Mutators.Logical.Control.{truth, Ends, Ends-redirect, arrives, arrives-both}
use mull.Mutators.Logical.AndToOr.{
  find_in, find_possible_mutation_in_branch, apply_pattern1, apply_pattern2, apply_pattern3,
  apply_mutation, apply_found,
}

-- What the second branch of a pattern has in common with the first.
abbrev pub Shares : Branch → Pattern → Branch → Type 0
Shares b pattern1 c = c.right ≡ b.right
Shares b pattern2 c = c.right ≡ b.left
Shares b pattern3 c = c.parent ≡ b.right

found :
    (b : Branch) {x y : Pattern × Branch} → Shares b x.0 x.1 → some x ≡ some y → Shares b y.0 y.1
found b h e = subst (λ x. Shares b x.0 x.1) (some_injective e) h

find_in-Shares :
    (b : Branch) (passed : Bool) (bs : List (Branch × Block)) (p : Pattern) (c : Branch)
    → find_in b passed bs ≡ some (p, c)
    → Shares b p c
unfolding find_in
find_in-Shares b passed [] p c e = cc
find_in-Shares b passed ((d, block) ∷ rest) p c e = elim (Bool-cases (d.id == b.id)) [
  | inl s ↦ find_in-Shares b true rest p c (rw (s, find_in) at e)
  | inr s ↦ elim (Bool-cases passed) [
    | inr q ↦ find_in-Shares b false rest p c (rw (s, q, find_in) at e)
    | inl q ↦ elim (Bool-cases (d.right == b.right)) [
      | inl r ↦ found b ((==_iff d.right b.right).0 r) (rw (s, q, r, find_in) at e)
      | inr r ↦ elim (Bool-cases (d.right == b.left)) [
        | inl l ↦ found b ((==_iff d.right b.left).0 l) (rw (s, q, r, l, find_in) at e)
        | inr l ↦ elim (Bool-cases (phi_joins b.parent (d.parent == b.right) block)) [
          | inl j ↦
              found b
                ((==_iff d.parent b.right).0
                  (phi_joins-true b.parent (d.parent == b.right) block j))
                (rw (s, q, r, l, j, find_in) at e)
          | inr j ↦ find_in-Shares b true rest p c (rw (s, q, r, l, j, find_in) at e)
        ]
      ]
    ]
  ]
]

-- When the first branch leads to the second one if true, and both go to the same block if false,
-- the mutation turns "both hold" into "one of them holds".
pub apply_mutation-or :
    (env : ℕ → Bool) (f : Function) (b c : Branch)
    → find_possible_mutation_in_branch f b ≡ some (pattern1, c)
    → Ends f b
    → Ends f c
    → b.left ≡ c.parent
    → b.parent ≢ c.parent
    → b.right ≢ c.parent
    → c.left ≢ c.parent
    → (arrives env f b.parent c.parent
        ≡ some (if truth env b.condition && truth env c.condition then c.left else c.right))
      × (g : Function) × (apply_mutation f b ≡ some g)
      × (arrives env g b.parent c.parent
          ≡ some (if truth env b.condition || truth env c.condition then c.left else c.right))
unfolding apply_mutation apply_pattern1 find_possible_mutation_in_branch
apply_mutation-or env f b c e at_b at_c into apart away left =
    let same : c.right ≡ b.right = find_in-Shares b false (branches f) pattern1 c e in
    let after =
      Ends-redirect f b c c.left b.left c.left (successors c.parent (redirect b c.left b.left f))
        (ground arith) at_b at_c in
    (
      arrives-both env f b c at_b at_c ∙ ground arith,
      apply_pattern1 b c f,
      ap (apply_found b f) e,
      arrives-both env (apply_pattern1 b c f) (record b { left = c.left; right = b.left }) c after.0
            after.1
          ∙ ground arith,
    )

-- When the first branch leads to the second one if false, and goes where the second one goes if
-- false, the mutation turns "the first fails and the second holds" into "the first fails or the
-- second holds".
pub apply_mutation-or_not :
    (env : ℕ → Bool) (f : Function) (b c : Branch)
    → find_possible_mutation_in_branch f b ≡ some (pattern2, c)
    → Ends f b
    → Ends f c
    → b.right ≡ c.parent
    → b.parent ≢ c.parent
    → b.left ≢ c.parent
    → c.left ≢ c.parent
    → (arrives env f b.parent c.parent
        ≡ some (if not (truth env b.condition) && truth env c.condition then c.left else c.right))
      × (g : Function) × (apply_mutation f b ≡ some g)
      × (arrives env g b.parent c.parent
          ≡ some (if not (truth env b.condition) || truth env c.condition then c.left else c.right))
unfolding apply_mutation apply_pattern2 find_possible_mutation_in_branch
apply_mutation-or_not env f b c e at_b at_c into apart away left =
    let same : c.right ≡ b.left = find_in-Shares b false (branches f) pattern2 c e in
    let after =
      Ends-redirect f b c b.right c.left c.left (successors c.parent (redirect b b.right c.left f))
        (ground arith) at_b at_c in
    (
      arrives-both env f b c at_b at_c ∙ ground arith,
      apply_pattern2 b c f,
      ap (apply_found b f) e,
      arrives-both env (apply_pattern2 b c f) (record b { left = b.right; right = c.left }) c
            after.0 after.1
          ∙ ground arith,
    )

-- When the first branch goes straight to the block where it joins if false, with the constant false
-- there, and else through the block that gives the value `v`, the joined value is a conjunction,
-- and the mutation makes it a disjunction.
pub apply_mutation-joined :
    (env : ℕ → Bool) (f : Function) (b c : Branch) (v : Value)
    → find_possible_mutation_in_branch f b ≡ some (pattern3, c)
    → Ends f b
    → Joins env f c.parent b.parent b.left false v
    → (joined env f c.parent b ≡ some (truth env b.condition && truth env v))
      × (g : Function) × (apply_mutation f b ≡ some g)
      × Ends g (record b { left = b.right; right = b.left })
      × (joined env g c.parent (record b { left = b.right; right = b.left })
          ≡ some (truth env b.condition || truth env v))
unfolding apply_mutation apply_pattern3 find_possible_mutation_in_branch
apply_mutation-joined env f b c v e end j =
    let same : c.parent ≡ b.right = find_in-Shares b false (branches f) pattern3 c e in
    let (g, is_g, j', end') =
      Joins-flip env f c.parent b.parent b.left false v b c refl refl end j in
    (
      ground (
        arith,
        j.rhs_apart,
        held_from-constant env f c.parent b.parent b.left false v j,
        held_after-rhs env f c.parent b.parent b.left false v j,
      ),
      g,
      ap (apply_found b f) e ∙ is_g,
      end',
      ground (
        arith,
        j.rhs_apart,
        held_from-constant env g c.parent b.parent b.left true v j',
        held_after-rhs env g c.parent b.parent b.left true v j',
      ),
    )
