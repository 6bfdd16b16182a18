-- ===== src/CallTree/Attaching.antt =====
-- The last lines of `fillInCallTree` (lib/Instrumentation/DynamicCallTree.cpp) keep the invariant
-- of `Filling`.
use mull.Base.{
  ℕ, ◌+◌, ◌≡◌, refl, sym, ap, ◌∙◌, subst, ◌≢◌, ◌⊎◌, inl, inr, List, [], ◌∷◌, ◌++◌, Option, some,
  arith, ◌==◌, ==_iff, if◌then◌else◌, get_elem?, update, update_self, update_ne, count,
  count-append, Bool-cases, some_injective,
}
use native.Mathlib.Nat.{add-zero}
use mull.CallTree.{Node, Build, caller, attach}
use mull.CallTree.Filling.{kids, children_of, IsPlaced, IsBuilt, waits-called, caller-ne}

-- The last lines of `fillInCallTree`: the node of `i` is hung under the finished node of its caller.
module _ {m : ℕ → ℕ} {functions : List (Option ℕ)} (null : m 0 ≡ 0) {t : Build}
    (v : IsBuilt m functions t) (i : ℕ) (waits : t.mapping i ≢ 0) (node root : Node)
    (node_at : t.nodes i ≡ some node) (root_at : t.nodes (caller m i) ≡ some root)
    (function : get_elem? functions i ≡ some node.function)
    (done : t.mapping (caller m i) ≡ 0) where
  pub hung : Node
  hung = record node { level = root.level + 1; functions_index = i }

  pub grown : Node
  grown = record root { children = root.children ++ i ∷ [] }

  pub attached : Build
  unfolding hung grown
  attached = record {
    mapping = update t.mapping i 0;
    nodes = update (update t.nodes i (some hung)) (caller m i) (some grown);
  }

  pub i-ne-zero : i ≢ 0
  i-ne-zero e = waits-called null v i waits (rw e null)

  pub caller-ne_self : caller m i ≢ i
  caller-ne_self = ground (arith, i-ne-zero)

  node-children : node.children ≡ []
  node-children = subst (λ o. kids o ≡ []) node_at (v.pending i waits)

  attached_self : attached.nodes i ≡ some hung
  unfolding attached
  attached_self =
      update_ne (update t.nodes i (some hung)) (caller m i) i (some grown) caller-ne_self
      ∙ update_self t.nodes i (some hung)

  attached_caller : attached.nodes (caller m i) ≡ some grown
  unfolding attached
  attached_caller = update_self (update t.nodes i (some hung)) (caller m i) (some grown)

  attached_other : (j : ℕ) → i ≢ j → caller m i ≢ j → attached.nodes j ≡ t.nodes j
  unfolding attached
  attached_other j h k =
      update_ne (update t.nodes i (some hung)) (caller m i) j (some grown) k
      ∙ update_ne t.nodes i j (some hung) h

  children-attached_caller :
      (j : ℕ)
      → count j (children_of attached.nodes (caller m i))
        ≡ count j (children_of t.nodes (caller m i)) + (if i == j then 1 else 0)
  unfolding grown
  children-attached_caller j =
      rw (attached_caller, root_at) (omega (arith, count-append j root.children (i ∷ [])))

  children-attached_other :
      (p : ℕ) → caller m i ≢ p → children_of attached.nodes p ≡ children_of t.nodes p
  unfolding hung
  children-attached_other p h = elim (Bool-cases (i == p)) [
    | inl same ↦
        let e : i ≡ p = (==_iff i p).0 same in
        rw (← e) (ap kids attached_self ∙ ap kids (sym node_at))
    | inr other ↦ ap kids (attached_other p (λ e. cc ((==_iff i p).1 e)) h)
  ]

  children-attached :
      (j p : ℕ)
      → count j (children_of attached.nodes p)
        ≡ count j (children_of t.nodes p)
          + (if caller m i == p then (if i == j then 1 else 0) else 0)
  children-attached j p = elim (Bool-cases (caller m i == p)) [
    | inl same ↦
        let e : caller m i ≡ p = (==_iff (caller m i) p).0 same in
        rw same (
          subst
            (λ q.
              count j (children_of attached.nodes q)
              ≡ count j (children_of t.nodes q) + (if i == j then 1 else 0))
            e (children-attached_caller j))
    | inr other ↦ rw other (
        ap (count j) (children-attached_other p (λ e. cc ((==_iff (caller m i) p).1 e)))
        ∙ sym (add-zero _))
  ]

  attached_up :
      (j : ℕ) (up : Node)
      → j ≢ i
      → t.nodes j ≡ some up
      → (up' : Node) × (attached.nodes j ≡ some up')
        × (up'.level ≡ up.level)
        × (up'.function ≡ up.function)
        × (up'.functions_index ≡ up.functions_index)
  unfolding grown
  attached_up j up h e = elim (Bool-cases (caller m i == j)) [
    | inl same ↦
        let c : caller m i ≡ j = (==_iff (caller m i) j).0 same in
        let u : root ≡ up = some_injective (sym root_at ∙ (ap t.nodes c ∙ e)) in
        (
          grown,
          subst (λ k. attached.nodes k ≡ some grown) c attached_caller,
          ap (λ n. n.level) u,
          ap (λ n. n.function) u,
          ap (λ n. n.functions_index) u,
        )
    | inr other ↦ (
      up,
      attached_other j (λ k. h (sym k)) (λ k. cc ((==_iff (caller m i) j).1 k)) ∙ e,
      refl,
      refl,
      refl,
    )
  ]

  absent_self : (p : ℕ) → count i (children_of t.nodes p) ≡ 0
  absent_self p = v.absent i p (inl waits)

  self-IsPlaced : IsPlaced m functions attached.nodes i
  unfolding hung grown
  self-IsPlaced = record {
    node = hung;
    up = grown;
    node_at = attached_self;
    up_at = attached_caller;
    level = omega arith;
    function = function;
    index = refl;
    once = λ p. rw (children-attached i p) (ground (arith, absent_self p));
  }

  other-IsPlaced :
      (j : ℕ) → i ≢ j → m j ≢ 0 → t.mapping j ≡ 0 → IsPlaced m functions attached.nodes j
  other-IsPlaced j h called e =
      let old = v.placed j called e in
      let (node', at', level', function', index') =
        attached_up j old.node (λ k. h (sym k)) old.node_at in
      let (up', up_at', up_level', _, _) =
        attached_up (caller m j) old.up (caller-ne null v i waits j called e) old.up_at in
      record {
        node = node';
        up = up';
        node_at = at';
        up_at = up_at';
        level = cc (level', old.level, up_level');
        function = old.function ∙ ap some (sym function');
        index = index' ∙ old.index;
        once = λ p. rw (children-attached j p) (ground (arith, old.once p));
      }

  attached-done : (j : ℕ) → i ≢ j → attached.mapping j ≡ t.mapping j
  unfolding attached
  attached-done j h = update_ne t.mapping i j 0 h

  attached-IsPlaced :
      (j : ℕ) → m j ≢ 0 → attached.mapping j ≡ 0 → IsPlaced m functions attached.nodes j
  attached-IsPlaced j called e = elim (Bool-cases (i == j)) [
    | inl same ↦ subst (IsPlaced m functions attached.nodes) ((==_iff i j).0 same) self-IsPlaced
    | inr other ↦
        let h : i ≢ j = λ k. cc ((==_iff i j).1 k) in
        other-IsPlaced j h called (sym (attached-done j h) ∙ e)
  ]

  pub attached-self_done : attached.mapping i ≡ 0
  unfolding attached
  attached-self_done = update_self t.mapping i 0

  pub attached-mapping : (j : ℕ) → (attached.mapping j ≡ t.mapping j) ⊎ (attached.mapping j ≡ 0)
  unfolding attached
  attached-mapping j = ground arith

  pub attached-frame :
      (j : ℕ)
      → i ≢ j
      → caller m i ≢ j
      → (attached.mapping j ≡ t.mapping j) × (attached.nodes j ≡ t.nodes j)
  attached-frame j h k = (attached-done j h, attached_other j h k)

  attached-waits : (j : ℕ) → attached.mapping j ≢ 0 → i ≢ j
  attached-waits j h e = h (subst (λ k. attached.mapping k ≡ 0) e attached-self_done)

  attached-pending : (j : ℕ) → attached.mapping j ≢ 0 → children_of attached.nodes j ≡ []
  attached-pending j h =
      let k : i ≢ j = attached-waits j h in
      let w : t.mapping j ≢ 0 = rw (attached-done j k) at h in
      children-attached_other j (λ e. w (subst (λ p. t.mapping p ≡ 0) e done)) ∙ v.pending j w

  attached-absent :
      (j p : ℕ) → (attached.mapping j ≢ 0) ⊎ (m j ≡ 0) → count j (children_of attached.nodes p) ≡ 0
  attached-absent j p (inl h) =
      let k : i ≢ j = attached-waits j h in
      rw (children-attached j p) (ground (arith, v.absent j p (inl (rw (attached-done j k) at h))))
  attached-absent j p (inr h) =
      rw (children-attached j p) (ground (arith, v.absent j p (inr h), waits-called null v i waits))

  attached-keep : (j : ℕ) → (attached.mapping j ≡ m j) ⊎ (attached.mapping j ≡ 0)
  attached-keep j = ground (arith, attached-mapping j, v.keep j)

  pub attached-IsBuilt : IsBuilt m functions attached
  attached-IsBuilt =
      let (phony', at', level', function', _) =
        attached_up 0 v.phony (λ e. i-ne-zero (sym e)) v.phony_at in
      record {
        keep = λ j. attached-keep j;
        phony = phony';
        phony_at = at';
        phony_level = level' ∙ v.phony_level;
        phony_function = function' ∙ v.phony_function;
        placed = attached-IsPlaced;
        pending = attached-pending;
        absent = attached-absent;
      }

  pub attach-attached : attach i (caller m i) (some node) (some root) t ≡ some attached
  unfolding attach attached hung grown
  attach-attached = refl
