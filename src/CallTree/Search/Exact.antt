-- ===== src/CallTree/Search/Exact.antt =====
-- `extractTestSubtrees` and `createReachableFunctions` (lib/Instrumentation/DynamicCallTree.cpp)
-- on a tree made by `createCallTree`: the searches end, and find what they should.
use mathlib.Core.List.{Perm}
use mull.Base.{
  ℕ, zero, suc, ◌≤◌, ◌<◌, ◌≡◌, refl, sym, subst, ◌≢◌, ◌⊎◌, inl, inr, List, [], ◌∷◌, ◌++◌, Option,
  some, arith, true, leb, if◌then◌else◌, length, count, length-le_of_distinct, count-perm,
  All-of_count, All,
}
use mull.CallTree.{Node, Build}
use mull.CallTree.Trace.{IsRanked}
use mull.CallTree.Created.{IsCallTree}
use mull.CallTree.Search.{extract_test_subtrees, reach_loop, create_reachable_functions, Reached}
use mull.CallTree.Search.Owns.{
  within, entries, all_reached, extract_loop-entries, reach_loop-all_reached, count-entries-le,
}
use mull.CallTree.Search.Complete.{Called, call, node-of, owned_root}
use mull.CallTree.Search.Reachable.{strangers, open_count, near_count, Called-dec}

-- `found` has one entry for each node at most `max_distance` calls below `root`, with the node's
-- function and its distance from `root`.
pub record IsReport (m : ℕ → ℕ) (nodes : ℕ → Option Node) (root max_distance : ℕ)
    (found : List Reached) : Type 0 where
  pub root_node : Node
  pub root_at : nodes root ≡ some root_node
  pub visited : List ℕ
  pub listed : Perm found (all_reached root_node.level nodes visited)
  pub near : (j d : ℕ) → Called m root j d → count j visited ≡ (if leb d max_distance then 1 else 0)
  pub only : (j : ℕ) → ((d : ℕ) → ¬ Called m root j d) → count j visited ≡ 0

module _ {m rank : ℕ → ℕ} {functions : List (Option ℕ)} {size bound : ℕ} {t : Build}
    (r : IsRanked m rank size bound) (c : IsCallTree m functions t) (nonempty : 0 < size) where
  module _ (root : ℕ) (in_tree : (root ≡ 0) ⊎ (m root ≢ 0)) where
    in_tree-lt : (j : ℕ) → (j ≡ 0) ⊎ (m j ≢ 0) → j < size
    in_tree-lt j (inl e) = omega (arith, e)
    in_tree-lt j (inr h) = r.below j h

    Called-lt : {j d : ℕ} → Called m root j d → j < size
    Called-lt Called.here = in_tree-lt root in_tree
    Called-lt (call k p h up) = r.below k h

    size_bound :
        (visited : List ℕ)
        → ((j d : ℕ) → Called m root j d → count j visited ≤ 1)
        → ((j : ℕ) → ((d : ℕ) → ¬ Called m root j d) → count j visited ≡ 0)
        → length visited ≤ size
    size_bound visited near only =
        length-le_of_distinct size visited
          (λ j. elim (Called-dec r c root in_tree (suc (rank j)) j (omega arith)) [
            | inl (d, p) ↦ near j d p
            | inr n ↦ omega (arith, only j n)
          ])
          (λ j h. elim (Called-dec r c root in_tree (suc (rank j)) j (omega arith)) [
            | inl (d, p) ↦ absurd (omega (arith, Called-lt p))
            | inr n ↦ only j n
          ])

    reach-IsReport :
        (max_distance fuel : ℕ)
        → size ≤ fuel
        → (root_node : Node) × (t.nodes root ≡ some root_node)
          × (found : List Reached) × (reach_loop fuel t.nodes root_node.level max_distance
                (root ∷ [])
              ≡ some found)
          × IsReport m t.nodes root max_distance found
    reach-IsReport max_distance fuel h =
        let (root_node, root_at) = node-of r c root in_tree in
        let (visited, o) = owned_root r c (within root_node.level max_distance) root in_tree in
        let near = λ (j d : ℕ) (p : Called m root j d).
          near_count r c root in_tree root_node max_distance root_at o p in
        let only = λ (j : ℕ) (n : (d : ℕ) → ¬ Called m root j d).
          strangers r c root in_tree (within root_node.level max_distance) o (suc (rank j)) j
            (omega arith) n in
        let short = size_bound visited (λ j d p. ground (arith, near j d p)) only in
        let (found, run, p) =
          reach_loop-all_reached t.nodes root_node.level max_distance fuel (root ∷ []) visited o
            (omega (arith, short)) in
        (
          root_node,
          root_at,
          found,
          run,
          record {
            root_node = root_node;
            root_at = root_at;
            visited = visited;
            listed = p;
            near = near;
            only = only;
          },
        )

-- `found` lists the nodes of the function `entry` among the phony root and the called functions,
-- each once.
pub record IsEntries (m : ℕ → ℕ) (nodes : ℕ → Option Node) (entry : Option ℕ) (found : List ℕ)
    : Type 0 where
  pub visited : List ℕ
  pub listed : Perm found (entries nodes entry visited)
  pub all : (j : ℕ) → (j ≡ 0) ⊎ (m j ≢ 0) → count j visited ≡ 1
  pub only : (j : ℕ) → j ≢ 0 → m j ≡ 0 → count j visited ≡ 0

-- The reports for several roots, one after the other.
abbrev pub AreReports : (ℕ → ℕ) → (ℕ → Option Node) → ℕ → List ℕ → List Reached → Type 0
AreReports m nodes max_distance [] found = found ≡ []
AreReports m nodes max_distance (root ∷ roots) found =
    (first : List Reached) × (rest : List Reached) × (found ≡ first ++ rest)
    × IsReport m nodes root max_distance first
    × AreReports m nodes max_distance roots rest

module _ {m rank : ℕ → ℕ} {functions : List (Option ℕ)} {size bound : ℕ} {t : Build}
    (r : IsRanked m rank size bound) (c : IsCallTree m functions t) (nonempty : 0 < size) where
  Called-from_phony : (k j : ℕ) → rank j < k → m j ≢ 0 → (d : ℕ) × Called m 0 j d
  Called-from_phony zero j h called = absurd (omega arith)
  Called-from_phony (suc k) j h called = elim (r.called j called) [
    | inl top ↦ (1, call j Called.here called top)
    | inr up ↦
        let (d, p) = Called-from_phony k _ (omega (arith, r.falls j called)) up in
        (suc d, call j p called refl)
  ]

  in_tree-Called : (j : ℕ) → (j ≡ 0) ⊎ (m j ≢ 0) → (d : ℕ) × Called m 0 j d
  in_tree-Called j (inl e) = (0, subst (λ i. Called m 0 i 0) (sym e) Called.here)
  in_tree-Called j (inr h) = Called-from_phony (suc (rank j)) j (omega arith) h

  Called-in_tree : (j d : ℕ) → Called m 0 j d → (j ≡ 0) ⊎ (m j ≢ 0)
  Called-in_tree j d Called.here = inl refl
  Called-in_tree j d (call k p h up) = inr h

  -- `extractTestSubtrees` ends, with fuel for every function, and finds the nodes of the test body.
  pub extract_test_subtrees-IsEntries :
      (entry : Option ℕ) (fuel : ℕ)
      → size ≤ fuel
      → (found : List ℕ) × (extract_test_subtrees fuel t.nodes 0 entry ≡ some found)
        × IsEntries m t.nodes entry found
        × All (λ j. (j ≡ 0) ⊎ (m j ≢ 0)) found
  unfolding extract_test_subtrees
  extract_test_subtrees-IsEntries entry fuel h =
      let (visited, o) = owned_root r c (λ _. true) 0 (inl refl) in
      let all = λ (j : ℕ) (i : (j ≡ 0) ⊎ (m j ≢ 0)).
        let (d, p) = in_tree-Called j i in open_count r c 0 (inl refl) o p in
      let only = λ (j : ℕ) (n : (d : ℕ) → ¬ Called m 0 j d).
        strangers r c 0 (inl refl) (λ _. true) o (suc (rank j)) j (omega arith) n in
      let short =
        size_bound r c nonempty 0 (inl refl) visited
          (λ j d p. omega (arith, all j (Called-in_tree j d p))) only in
      let (found, run, p) =
        extract_loop-entries t.nodes entry fuel (0 ∷ []) visited o (omega (arith, short)) in
      (
        found,
        run,
        record {
          visited = visited;
          listed = p;
          all = all;
          only = λ j n e. only j (λ d q. elim (Called-in_tree j d q) [ inl z ↦ n z | inr k ↦ k e ]);
        },
        All-of_count _ found λ j k.
            elim (Called-dec r c 0 (inl refl) (suc (rank j)) j (omega arith)) [
              | inl (d, q) ↦ Called-in_tree j d q
              | inr n ↦ absurd (
                  k (
                    omega
                      (arith, only j n, count-perm j p, count-entries-le t.nodes entry j visited)))
            ],
      )

  -- `createReachableFunctions` ends, with fuel for every function, and reports for each root the
  -- functions at most `max_distance` calls below it.
  pub create_reachable_functions-AreReports :
      (roots : List ℕ) (max_distance fuel : ℕ)
      → All (λ j. (j ≡ 0) ⊎ (m j ≢ 0)) roots
      → size ≤ fuel
      → (found : List Reached) × (create_reachable_functions fuel t.nodes roots max_distance
          ≡ some found)
        × AreReports m t.nodes max_distance roots found
  unfolding create_reachable_functions
  create_reachable_functions-AreReports [] max_distance fuel a h = ([], refl, refl)
  create_reachable_functions-AreReports (root ∷ roots) max_distance fuel a h =
      let (root_node, root_at, first, run, report) =
        reach-IsReport r c nonempty root a.0 max_distance fuel h in
      let (rest, later, reports) =
        create_reachable_functions-AreReports roots max_distance fuel a.1 h in
      (
        first ++ rest,
        rw (root_at, run, later, create_reachable_functions) refl,
        (first, rest, refl, report, reports),
      )
