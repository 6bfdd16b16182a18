-- ===== src/CallTree/Filling.antt =====
-- The tree that `createCallTree` (lib/Instrumentation/DynamicCallTree.cpp) makes of a mapping in
-- which following callers ends.
use mull.Base.{
  ℕ, suc, ◌≡◌, ◌≢◌, ◌⊎◌, inl, inr, List, [], Option, none, some, arith, ◌==◌, if◌then◌else◌,
  get_elem?, update, update_self, update_ne, count, Bool-cases, ==_iff, sym, ◌∙◌, ap,
}
use mull.CallTree.{Node, new_node, Build, caller}

abbrev pub kids : Option Node → List ℕ
kids none = []
kids (some node) = node.children

abbrev pub children_of : (ℕ → Option Node) → ℕ → List ℕ
children_of nodes p = kids (nodes p)

-- The node of function `i` is finished: it holds the function and its index, it is one level below
-- the node of its caller, and it is a child of that node, once, and of no other.
pub record IsPlaced (mapping : ℕ → ℕ) (functions : List (Option ℕ)) (nodes : ℕ → Option Node)
    (i : ℕ) : Type 0 where
  pub node : Node
  pub up : Node
  pub node_at : nodes i ≡ some node
  pub up_at : nodes (caller mapping i) ≡ some up
  pub level : node.level ≡ suc up.level
  pub function : get_elem? functions i ≡ some node.function
  pub index : node.functions_index ≡ i
  pub once : (p : ℕ) → count i (children_of nodes p) ≡ (if p == caller mapping i then 1 else 0)

-- What holds between two calls of `fillInCallTree` for the mapping `m` at the start.
pub record IsBuilt (m : ℕ → ℕ) (functions : List (Option ℕ)) (s : Build) : Type 0 where
  pub keep : (i : ℕ) → (s.mapping i ≡ m i) ⊎ (s.mapping i ≡ 0)
  pub phony : Node
  pub phony_at : s.nodes 0 ≡ some phony
  pub phony_level : phony.level ≡ 0
  pub phony_function : phony.function ≡ none
  pub placed : (i : ℕ) → m i ≢ 0 → s.mapping i ≡ 0 → IsPlaced m functions s.nodes i
  pub pending : (i : ℕ) → s.mapping i ≢ 0 → children_of s.nodes i ≡ []
  pub absent : (i p : ℕ) → (s.mapping i ≢ 0) ⊎ (m i ≡ 0) → count i (children_of s.nodes p) ≡ 0

module _ {m : ℕ → ℕ} {functions : List (Option ℕ)} (null : m 0 ≡ 0) {s : Build}
    (v : IsBuilt m functions s) (i : ℕ) (waits : s.mapping i ≢ 0) where
  pub waits-called : m i ≢ 0
  waits-called = ground (arith, v.keep i)

  pub waits-mapping : s.mapping i ≡ m i
  waits-mapping = ground (arith, v.keep i)

  -- No finished node has a caller that is not finished.
  pub caller-ne : (j : ℕ) → m j ≢ 0 → s.mapping j ≡ 0 → caller m j ≢ i
  caller-ne j h e c = absurd (ground (arith, (v.placed j h e).once i, v.pending i waits))

  unfoldable pub fresh_nodes : Option ℕ → ℕ → Option Node
  fresh_nodes f = update s.nodes i (some (new_node f))

  children-fresh : (f : Option ℕ) (p : ℕ) → children_of (fresh_nodes f) p ≡ children_of s.nodes p
  unfolding fresh_nodes
  children-fresh f p = elim (Bool-cases (i == p)) [
    | inl same ↦
        let e : i ≡ p = (==_iff i p).0 same in
        rw (← e) (ap kids (update_self s.nodes i (some (new_node f))) ∙ sym (v.pending i waits))
    | inr other ↦ ap kids (update_ne s.nodes i p (some (new_node f)) (λ e. cc ((==_iff i p).1 e)))
  ]

  -- Making the node of `i` disturbs nothing that is finished.
  pub fresh-IsBuilt : (f : Option ℕ) → IsBuilt m functions (record s { nodes = fresh_nodes f })
  unfolding fresh_nodes
  fresh-IsBuilt f = record {
    keep = v.keep;
    phony = v.phony;
    phony_at = ground (arith, v.phony_at, v.keep i);
    phony_level = v.phony_level;
    phony_function = v.phony_function;
    placed = λ j h e.
        let old = v.placed j h e in
        record {
          node = old.node;
          up = old.up;
          node_at = ground (arith, old.node_at);
          up_at = ground (arith, old.up_at, caller-ne j h e);
          level = old.level;
          function = old.function;
          index = old.index;
          once = λ p. rw (children-fresh f p) (old.once p);
        };
    pending = λ j h. rw (children-fresh f j) (v.pending j h);
    absent = λ j p h. rw (children-fresh f p) (v.absent j p h);
  }
