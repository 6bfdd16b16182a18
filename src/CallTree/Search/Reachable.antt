-- ===== src/CallTree/Search/Reachable.antt =====
-- What `extractTestSubtrees` and `createReachableFunctions`
-- (lib/Instrumentation/DynamicCallTree.cpp) find in a tree made by `createCallTree`.
use mull.Base.{
  ℕ, zero, suc, ◌+◌, ◌≤◌, ◌<◌, ◌≡◌, refl, sym, ap, ◌∙◌, subst, ◌≢◌, ◌⊎◌, inl, inr, List, [], ◌∷◌,
  Option, some, arith, Bool, true, false, leb, ◌==◌, ==_iff, if◌then◌else◌, count, Bool-cases,
  some_injective,
}
use mull.CallTree.{Node, Build, caller}
use mull.CallTree.Trace.{IsRanked}
use mull.CallTree.Created.{IsCallTree}
use mull.CallTree.Search.Owns.{Owns, within}
use mull.CallTree.Search.Complete.{Called, here, call, node-of, expands, fed, count-visited}

module _ {m rank : ℕ → ℕ} {functions : List (Option ℕ)} {size bound : ℕ} {t : Build}
    (r : IsRanked m rank size bound) (c : IsCallTree m functions t) (root : ℕ)
    (in_tree : (root ≡ 0) ⊎ (m root ≢ 0)) where
  -- Levels count calls.
  level-Called :
      {j d : ℕ} {root_node node : Node}
      → Called m root j d
      → t.nodes root ≡ some root_node
      → t.nodes j ≡ some node
      → node.level ≡ root_node.level + d
  level-Called here e f = omega (arith, ap (λ n. n.level) (some_injective (sym e ∙ f)))
  level-Called (call k h called up) e f =
      let p = c.placed k called in
      let above = level-Called h e (subst (λ q. t.nodes q ≡ some p.up) up p.up_at) in
      omega (arith, ap (λ n. n.level) (some_injective (sym p.node_at ∙ f)), p.level, above)

  rank-Called : {j d : ℕ} → Called m root j d → rank root + d ≤ rank j
  rank-Called here = omega arith
  rank-Called (call k h called up) = omega (arith, rank-Called h, r.falls k called, ap rank up)

  parent-in_tree : {j d : ℕ} → Called m root j d → (j ≡ 0) ⊎ (m j ≢ 0)
  parent-in_tree here = in_tree
  parent-in_tree (call k p called up) = inr called

  module _ (expand : Node → Bool) {visited : List ℕ}
      (o : Owns t.nodes expand (root ∷ []) visited) where
    visits : (j : ℕ) → count j visited ≡ (if root == j then 1 else 0) + fed r c expand visited j
    visits j = omega (arith, count-visited r c expand j o)

    -- Nothing but the root is visited up to the rank of the root.
    low : (k j : ℕ) → rank j < k → rank j ≤ rank root → root ≢ j → count j visited ≡ 0
    unfolding fed
    low zero j h e n = absurd (omega arith)
    low (suc k) j h e n = elim (Bool-cases (m j == 0)) [
      | inl never ↦ ground (arith, visits j, never)
      | inr called ↦
          let f = r.falls j (λ q. cc ((==_iff (m j) 0).1 q)) in
          let up =
            low k (caller m j) (omega (arith, f)) (omega (arith, f))
              (λ q. absurd (omega (arith, f, ap rank q))) in
          ground (arith, visits j, called, up)
    ]

    once : count root visited ≡ 1
    unfolding fed
    once = elim (Bool-cases (m root == 0)) [
      | inl never ↦ ground (arith, visits root, never)
      | inr called ↦
          let f = r.falls root (λ q. cc ((==_iff (m root) 0).1 q)) in
          let up =
            low (rank root) (caller m root) f (omega (arith, f))
              (λ q. absurd (omega (arith, f, ap rank q))) in
          ground (arith, visits root, called, up)
    ]

    -- What was not called below the root is not visited.
    pub strangers : (k j : ℕ) → rank j < k → ((d : ℕ) → ¬ Called m root j d) → count j visited ≡ 0
    unfolding fed
    strangers zero j h n = absurd (omega arith)
    strangers (suc k) j h n =
        let apart : root ≢ j = λ q. n 0 (subst (λ i. Called m root i 0) q here) in
        elim (Bool-cases (m j == 0)) [
          | inl never ↦ ground (arith, visits j, never, apart)
          | inr called ↦
              let is_called : m j ≢ 0 = λ q. cc ((==_iff (m j) 0).1 q) in
              let up =
                strangers k (caller m j) (omega (arith, r.falls j is_called))
                  (λ d p. n (suc d) (call j p is_called refl)) in
              ground (arith, visits j, called, up, apart)
        ]

    -- A called function is visited as often as its caller, if the search goes on there.
    follows :
        {i d : ℕ} (j : ℕ)
        → Called m root i d
        → m j ≢ 0
        → caller m j ≡ i
        → count j visited ≡ (if expands expand (t.nodes i) then count i visited else 0)
    unfolding fed
    follows {i} {d} j p called up =
        let apart : root ≢ j =
          λ q. absurd (omega (arith, rank-Called p, r.falls j called, ap rank up, ap rank q)) in
        rw (← up) (ground (arith, visits j, called, apart))

  pub open_count :
      {visited : List ℕ} {j d : ℕ}
      → Owns t.nodes (λ _. true) (root ∷ []) visited
      → Called m root j d
      → count j visited ≡ 1
  open_count o here = once (λ _. true) o
  open_count {visited} o (call {j = i} k p called up) =
      let (node, e) = node-of r c i (parent-in_tree p) in
      follows (λ _. true) o k p called up ∙ rw e (open_count o p)

  pub near_count :
      {visited : List ℕ} {j d : ℕ} (root_node : Node) (max_distance : ℕ)
      → t.nodes root ≡ some root_node
      → Owns t.nodes (within root_node.level max_distance) (root ∷ []) visited
      → Called m root j d
      → count j visited ≡ (if leb d max_distance then 1 else 0)
  near_count root_node max_distance re o here =
      ground (arith, once (within root_node.level max_distance) o)
  near_count {visited} root_node max_distance re o (call {j = i} {d = d} k p called up) =
      let (node, e) = node-of r c i (parent-in_tree p) in
      let level = level-Called p re e in
      follows (within root_node.level max_distance) o k p called up
      ∙ rw e (ground (arith, near_count root_node max_distance re o p, level))

  pub Called-dec :
      (k j : ℕ) → rank j < k → ((d : ℕ) × Called m root j d) ⊎ ((d : ℕ) → ¬ Called m root j d)
  Called-dec zero j h = absurd (omega arith)
  Called-dec (suc k) j h = elim (Bool-cases (root == j)) [
    | inl same ↦ inl (0, subst (λ i. Called m root i 0) ((==_iff root j).0 same) here)
    | inr other ↦ elim (Bool-cases (m j == 0)) [
      | inl never ↦ inr (λ d p. not_called j d other ((==_iff (m j) 0).0 never) p)
      | inr called ↦
          let is_called : m j ≢ 0 = λ q. cc ((==_iff (m j) 0).1 q) in
          elim (Called-dec k (caller m j) (omega (arith, r.falls j is_called))) [
            | inl (d, p) ↦ inl (suc d, call j p is_called refl)
            | inr n ↦ inr (λ d p. not_below j d other n p)
          ]
    ]
  ]
    where
      not_called : (j d : ℕ) → (root == j) ≡ false → m j ≡ 0 → ¬ Called m root j d
      not_called j d other never here = cc ((==_iff root root).1 refl)
      not_called j d other never (call k p called up) = called never

      not_below :
          (j d : ℕ)
          → (root == j) ≡ false
          → ((d : ℕ) → ¬ Called m root (caller m j) d)
          → ¬ Called m root j d
      not_below j d other n here = cc ((==_iff root root).1 refl)
      not_below j d other n (call {d = e} k p called up) =
          n e (subst (λ i. Called m root i e) (sym up) p)
