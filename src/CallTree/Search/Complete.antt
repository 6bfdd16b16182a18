-- ===== src/CallTree/Search/Complete.antt =====
-- On a tree made by `createCallTree` the searches of lib/Instrumentation/DynamicCallTree.cpp visit
-- each function below the root once.
use mull.Base.{
  ℕ, zero, suc, ◌+◌, ◌<◌, ◌≡◌, refl, ap, ◌∙◌, ◌≢◌, ◌⊎◌, inl, inr, List, [], ◌∷◌, ◌++◌, Option, none,
  some, arith, Bool, false, ◌&&◌, not, ◌==◌, ==_iff, if◌then◌else◌, count, count-append, All,
  All-of_count, Bool-cases,
}
use mull.CallTree.{Node, Build, caller}
use mull.CallTree.Trace.{IsRanked}
use mull.CallTree.Filling.{children_of}
use mull.CallTree.Created.{IsCallTree}
use mull.CallTree.Search.Owns.{Owns, nil, cons, below}

-- The function `j` was first called through `d` calls below `root`.
pub data Called (m : ℕ → ℕ) (root : ℕ) : ℕ → ℕ → Type 0 where
  here : Called m root root 0
  call : {j d : ℕ} (k : ℕ) → Called m root j d → m k ≢ 0 → caller m k ≡ j → Called m root k (suc d)

-- Whether the search goes on below the node at an address.
abbrev pub expands : (Node → Bool) → Option Node → Bool
expands expand none = false
expands expand (some node) = expand node

module _ {m rank : ℕ → ℕ} {functions : List (Option ℕ)} {size bound : ℕ} {t : Build}
    (r : IsRanked m rank size bound) (c : IsCallTree m functions t) where
  child-of : (j p : ℕ) → count j (children_of t.nodes p) ≢ 0 → (m j ≢ 0) × (caller m j ≡ p)
  child-of j p h =
      let called : m j ≢ 0 = λ e. h (c.absent j p e) in
      (called, ground (arith, (c.placed j called).once p))

  abbrev pub IsInTree : ℕ → Type 0
  IsInTree a = (a ≡ 0) ⊎ (m a ≢ 0)

  pub node-of : (a : ℕ) → IsInTree a → (node : Node) × (t.nodes a ≡ some node)
  node-of a (inl e) = (c.phony, rw e c.phony_at)
  node-of a (inr h) = let p = c.placed a h in (p.node, p.node_at)

  Fits : ℕ → ℕ → Type 0
  Fits h j = IsInTree j × (bound < h + rank j)

  module _ (expand : Node → Bool) where
    count-below :
        (a j : ℕ) (node : Node)
        → t.nodes a ≡ some node
        → count j (below expand node)
          ≡ (if expands expand (t.nodes a) then count j (children_of t.nodes a) else 0)
    count-below a j node e = rw e (elim (Bool-cases (expand node)) [
      | inl yes_it ↦ rw yes_it refl
      | inr no_it ↦ rw no_it refl
    ])

    child-of_below :
        (a j : ℕ) (node : Node)
        → t.nodes a ≡ some node
        → count j (below expand node) ≢ 0
        → (m j ≢ 0) × (caller m j ≡ a)
    child-of_below a j node e h = child-of j a (λ k. h (count-below a j node e ∙ ground (arith, k)))

    below-Fits :
        (h a : ℕ) (node : Node)
        → t.nodes a ≡ some node
        → bound < suc h + rank a
        → All (Fits h) (below expand node)
    unfolding Fits
    below-Fits h a node e k = All-of_count (Fits h) (below expand node) λ j n.
        let (called, up) = child-of_below a j node e n in
        (inr called, omega (arith, r.falls j called, ap rank up))

    -- Following children ends, since ranks grow and are bounded.
    owned :
        (h : ℕ) (queue : List ℕ)
        → All (Fits h) queue
        → (visited : List ℕ) × Owns t.nodes expand queue visited
    unfolding Fits
    owned h [] f = ([], nil)
    owned zero (a ∷ queue) f = absurd (elim (f.0.0) [
      | inl is_zero ↦ omega (arith, f.0.1, ap rank is_zero, r.rank_null)
      | inr called ↦ omega (arith, f.0.1, r.bounded a called)
    ])
    owned (suc h) (a ∷ queue) f =
        let (node, e) = node-of a f.0.0 in
        let (under, u) = owned h (below expand node) (below-Fits h a node e f.0.1) in
        let (rest, o) = owned (suc h) queue f.1 in (a ∷ (under ++ rest), cons node e u o)

    -- How often `j` is visited because its caller was.
    unfoldable pub fed : List ℕ → ℕ → ℕ
    fed visited j =
        if not (m j == 0) && expands expand (t.nodes (caller m j))
        then count (caller m j) visited
        else 0

    fed-append : (xs ys : List ℕ) (j : ℕ) → fed (xs ++ ys) j ≡ fed xs j + fed ys j
    unfolding fed
    fed-append xs ys j =
        elim (Bool-cases (not (m j == 0) && expands expand (t.nodes (caller m j)))) [
          | inl on ↦ rw on (count-append (caller m j) xs ys)
          | inr off ↦ rw off refl
        ]

    fed-single :
        (a j : ℕ) (node : Node)
        → t.nodes a ≡ some node
        → count j (below expand node) ≡ fed (a ∷ []) j
    unfolding fed
    fed-single a j node e = count-below a j node e ∙ single
      where
        single :
            (if expands expand (t.nodes a) then count j (children_of t.nodes a) else 0)
            ≡ fed (a ∷ []) j
        single = elim (Bool-cases (m j == 0)) [
          | inl never ↦ ground (arith, never, c.absent j a ((==_iff (m j) 0).0 never))
          | inr called ↦
              let once = (c.placed j (λ k. cc ((==_iff (m j) 0).1 k))).once a in
              elim (Bool-cases (a == caller m j)) [
                | inl same ↦
                    rw (called, ← (==_iff a (caller m j)).0 same) (ground (arith, once, same))
                | inr other ↦ rw (called, other) (ground (arith, once, other))
              ]
        ]

    fed-nil : (j : ℕ) → fed [] j ≡ 0
    unfolding fed
    fed-nil j = ground arith

    -- Each visit is a visit of the queue's own or follows one visit of the caller.
    pub count-visited :
        {queue visited : List ℕ} (j : ℕ)
        → Owns t.nodes expand queue visited
        → count j visited ≡ count j queue + fed visited j
    count-visited j nil = omega (arith, fed-nil j)
    count-visited {queue = a' ∷ queue} j (cons {a = a} {under = under} {rest = rest} node e u o) =
        omega (
          arith,
          count-append j under rest,
          count-visited j u,
          count-visited j o,
          fed-append (a ∷ []) (under ++ rest) j,
          fed-append under rest j,
          fed-single a j node e,
        )

    -- The nodes that a search from one node visits.
    pub owned_root :
        (root : ℕ) → IsInTree root → (visited : List ℕ) × Owns t.nodes expand (root ∷ []) visited
    unfolding Fits
    owned_root root h = owned (suc bound) (root ∷ []) ((h, omega arith), tt)
