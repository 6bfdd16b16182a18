-- ===== src/CallTree/Created.antt =====
-- `createCallTree` (lib/Instrumentation/DynamicCallTree.cpp) ends, and the tree that it returns
-- places every called function, and only those, under its caller.
use mull.Base.{
  ℕ, zero, suc, ◌+◌, ◌≤◌, ◌<◌, ◌≡◌, refl, sym, ap, ◌∙◌, subst, ◌≢◌, inl, inr, List, [], ◌∷◌, Option,
  none, some, arith, ◌==◌, ==_iff, if◌then◌else◌, length, get_elem?, get_elem?-lt, update,
  update_self, update_ne, count, Bool-cases, All,
}
use mull.CallTree.{
  InstrumentationInfo, empty_info, Node, new_node, Build, caller, attach, fill_in_call_tree,
  fill_all, create_call_tree,
}
use mull.CallTree.Trace.{IsRanked, Event, IsBelow, run, run-IsTraced}
use mull.CallTree.Filling.{
  IsPlaced, IsBuilt, kids, children_of, fresh_nodes, fresh-IsBuilt, waits-called, waits-mapping,
}
use mull.CallTree.Attaching.{
  attached, attach-attached, attached-IsBuilt, attached-self_done, attached-mapping, attached-frame,
}

-- What a call of `fillInCallTree` for `i` leaves: `i` is finished, nothing finished is undone, and
-- functions of a higher rank are left alone.
record IsFilled (m rank : ℕ → ℕ) (functions : List (Option ℕ)) (i : ℕ) (s t : Build) : Type 0 where
  built : IsBuilt m functions t
  done : t.mapping i ≡ 0
  kept : (j : ℕ) → s.mapping j ≡ 0 → t.mapping j ≡ 0
  frame : (j : ℕ) → rank i < rank j → (t.mapping j ≡ s.mapping j) × (t.nodes j ≡ s.nodes j)

module _ {m rank : ℕ → ℕ} (functions : List (Option ℕ)) {bound : ℕ}
    (r : IsRanked m rank (length functions) bound) (nonempty : 0 < length functions) where
  caller-lt : (i : ℕ) → m i ≢ 0 → caller m i < length functions
  caller-lt i h = elim (r.called i h) [
    | inl e ↦ rw e nonempty
    | inr called ↦ r.below (caller m i) called
  ]

  caller-placed :
      (t : Build) (i : ℕ)
      → IsBuilt m functions t
      → m i ≢ 0
      → t.mapping (caller m i) ≡ 0
      → (root : Node) × (t.nodes (caller m i) ≡ some root)
  caller-placed t i v h e = elim (r.called i h) [
    | inl is_zero ↦ (v.phony, rw is_zero v.phony_at)
    | inr called ↦ let p = v.placed (caller m i) called e in (p.node, p.node_at)
  ]

  -- Hanging the node, after its caller was filled in.
  module _ (s t : Build) (i : ℕ) (f : Option ℕ) (v : IsBuilt m functions s)
      (waits : s.mapping i ≢ 0) (f_at : get_elem? functions i ≡ some f)
      (filled : IsFilled m rank functions
        (caller m i)
        (record s { nodes = update s.nodes i (some (new_node f)) })
        t) where
    called_i : m i ≢ 0
    called_i = waits-called r.null v i waits

    still : (t.mapping i ≡ s.mapping i) × (t.nodes i ≡ some (new_node f))
    still =
        let old = filled.frame i (r.falls i called_i) in
        (old.0, old.1 ∙ update_self s.nodes i (some (new_node f)))

    attach-IsFilled :
        (u : Build) × (attach i (caller m i) (t.nodes i) (t.nodes (caller m i)) t ≡ some u)
        × IsFilled m rank functions i s u
    attach-IsFilled =
        let (root, root_at) = caller-placed t i filled.built called_i filled.done in
        let w : t.mapping i ≢ 0 = λ e. waits (sym still.0 ∙ e) in
        (
          attached r.null filled.built i w (new_node f) root still.1 root_at f_at filled.done,
          rw (still.1, root_at)
              (attach-attached r.null filled.built i w (new_node f) root still.1 root_at f_at
                filled.done),
          record {
            built =
                attached-IsBuilt r.null filled.built i w (new_node f) root still.1 root_at f_at
                  filled.done;
            done =
                attached-self_done r.null filled.built i w (new_node f) root still.1 root_at f_at
                  filled.done;
            kept = λ j e. ground (
              arith,
              filled.kept j e,
              attached-mapping r.null filled.built i w (new_node f) root still.1 root_at f_at
                  filled.done j,
            );
            frame = λ j h.
                let deeper = filled.frame j (omega (arith, r.falls i called_i)) in
                let now =
                  attached-frame r.null filled.built i w (new_node f) root still.1 root_at f_at
                    filled.done j (λ e. absurd (omega (arith, ap rank e)))
                    (λ e. absurd (omega (arith, ap rank e, r.falls i called_i))) in
                (
                  now.0 ∙ deeper.0,
                  now.1
                      ∙ (deeper.1
                          ∙ update_ne s.nodes i j (some (new_node f))
                              (λ e. absurd (omega (arith, ap rank e)))),
                );
          },
        )

  caller-mapping : (s : Build) (i : ℕ) → s.mapping i ≡ m i → caller s.mapping i ≡ caller m i
  caller-mapping s i e = ap (λ k. if k == i then 0 else k) e

  fill_in-IsFilled :
      (fuel i : ℕ) (s : Build)
      → IsBuilt m functions s
      → i < length functions
      → 0 < fuel
      → (m i ≢ 0 → rank i < fuel)
      → (t : Build) × (fill_in_call_tree fuel functions i s ≡ some t)
        × IsFilled m rank functions i s t
  unfolding fill_in_call_tree
  fill_in-IsFilled zero i s v h pos enough = absurd (omega arith)
  fill_in-IsFilled (suc fuel) i s v h pos enough =
      let (f, f_at) = get_elem?-lt functions i h in
      elim (Bool-cases (s.mapping i == 0)) [
        | inl is_zero ↦ (
          s,
          rw (f_at, is_zero, fill_in_call_tree) refl,
          record {
            built = v;
            done = (==_iff (s.mapping i) 0).0 is_zero;
            kept = λ j e. e;
            frame = λ j _. (refl, refl);
          },
        )
        | inr nonzero ↦
            let waits : s.mapping i ≢ 0 = λ e. cc ((==_iff (s.mapping i) 0).1 e) in
            let called : m i ≢ 0 = waits-called r.null v i waits in
            let same : caller s.mapping i ≡ caller m i =
              caller-mapping s i (waits-mapping r.null v i waits) in
            let (t, e, filled) =
              fill_in-IsFilled fuel (caller m i)
                (record s { nodes = update s.nodes i (some (new_node f)) })
                (unfold fresh_nodes in fresh-IsBuilt r.null v i waits f) (caller-lt i called)
                (omega (arith, enough called, r.falls i called))
                (λ _. omega (arith, enough called, r.falls i called)) in
            let (u, a, done) = attach-IsFilled s t i f v waits f_at filled in
            (u, rw (f_at, nonzero, same, e, fill_in_call_tree) a, done)
      ]

  -- The loop of `createCallTree` finishes every function from `index` on.
  fill_all-IsBuilt :
      (fuel rounds index : ℕ) (s : Build)
      → IsBuilt m functions s
      → index + rounds ≡ length functions
      → 0 < fuel
      → ((i : ℕ) → m i ≢ 0 → rank i < fuel)
      → (t : Build) × (fill_all fuel functions rounds index s ≡ some t)
        × IsBuilt m functions t
        × ((j : ℕ) → s.mapping j ≡ 0 → t.mapping j ≡ 0)
        × ((j : ℕ) → index ≤ j → j < length functions → t.mapping j ≡ 0)
  unfolding fill_all
  fill_all-IsBuilt fuel zero index s v e pos enough =
      (s, refl, v, λ j h. h, λ j h k. absurd (omega arith))
  fill_all-IsBuilt fuel (suc rounds) index s v e pos enough =
      let (t, step, filled) = fill_in-IsFilled fuel index s v (omega arith) pos (enough index) in
      let (u, rest, built, kept, done) =
        fill_all-IsBuilt fuel rounds (suc index) t filled.built (omega arith) pos enough in
      (
        u,
        rw step rest,
        built,
        λ j h. kept j (filled.kept j h),
        λ j h k. elim (Bool-cases (index == j)) [
          | inl same ↦ kept j (subst (λ i. t.mapping i ≡ 0) ((==_iff index j).0 same) filled.done)
          | inr other ↦ done j (ground arith) k
        ],
      )

-- The tree made of the mapping `m`: the mapping is cleared, the phony root stands at level 0, each
-- called function is placed, and no other function stands in the tree.
pub record IsCallTree (m : ℕ → ℕ) (functions : List (Option ℕ)) (t : Build) : Type 0 where
  pub cleared : (i : ℕ) → t.mapping i ≡ 0
  pub phony : Node
  pub phony_at : t.nodes 0 ≡ some phony
  pub phony_level : phony.level ≡ 0
  pub placed : (i : ℕ) → m i ≢ 0 → IsPlaced m functions t.nodes i
  pub absent : (i p : ℕ) → m i ≡ 0 → count i (children_of t.nodes p) ≡ 0

start-IsBuilt :
    (m : ℕ → ℕ) (functions : List (Option ℕ))
    → IsBuilt m functions
        (record { mapping = m; nodes = update (λ _. none) 0 (some (new_node none)) })
start-IsBuilt m functions = record {
  keep = λ i. inl refl;
  phony = new_node none;
  phony_at = refl;
  phony_level = refl;
  phony_function = refl;
  placed = λ i h e. absurd (h e);
  pending = λ i h. children_start i;
  absent = λ i p h. ap (count i) (children_start p);
}
  where
    children_start : (p : ℕ) → children_of (update (λ _. none) 0 (some (new_node none))) p ≡ []
    children_start zero = refl
    children_start (suc p) =
        ap kids (update_ne (λ _. none) 0 (suc p) (some (new_node none)) (λ e. cc))

-- For a mapping in which following callers ends, and with fuel above the ranks, `createCallTree`
-- returns the tree.
pub create_call_tree-IsCallTree :
    (fuel : ℕ) (m rank : ℕ → ℕ) (functions : List (Option ℕ)) (bound : ℕ)
    → IsRanked m rank (suc (length functions)) bound
    → bound < fuel
    → (t : Build) × (create_call_tree fuel m (none ∷ functions) ≡ some t)
      × IsCallTree m (none ∷ functions) t
unfolding create_call_tree
create_call_tree-IsCallTree fuel m rank functions bound r enough =
    let (t, e, v, kept, done) =
      fill_all-IsBuilt (none ∷ functions) r (omega arith) fuel (length functions) 1 _
        (start-IsBuilt m (none ∷ functions)) (omega arith) (omega arith)
        (λ i h. omega (arith, r.bounded i h)) in
    let cleared : (j : ℕ) → t.mapping j ≡ 0 = λ j. elim (Bool-cases (m j == 0)) [
      | inl is_zero ↦ kept j ((==_iff (m j) 0).0 is_zero)
      | inr nonzero ↦
          let called : m j ≢ 0 = λ c. cc ((==_iff (m j) 0).1 c) in
          done j (ground (arith, called, r.null)) (r.below j called)
    ] in
    (
      t,
      rw r.null e,
      record {
        cleared = cleared;
        phony = v.phony;
        phony_at = v.phony_at;
        phony_level = v.phony_level;
        placed = λ i h. v.placed i h (cleared i);
        absent = λ i p h. v.absent i p (inr h);
      },
    )

-- After any execution of instrumented functions that the callbacks accept, createCallTree ends on
-- the recorded mapping (fuel above the number of callbacks is enough): the mapping is cleared,
-- each called function has one node, under the node of its recorded caller and one level below it,
-- and no other function has one.
pub create_call_tree-run :
    (es : List Event) (functions : List (Option ℕ)) (s : InstrumentationInfo) (fuel : ℕ)
    → All (IsBelow (suc (length functions))) es
    → run es empty_info ≡ some s
    → length es < fuel
    → (t : Build) × (create_call_tree fuel s.mapping (none ∷ functions) ≡ some t)
      × IsCallTree s.mapping (none ∷ functions) t
create_call_tree-run es functions s fuel a e enough =
    let traced = run-IsTraced (suc (length functions)) es s a e in
    create_call_tree-IsCallTree fuel s.mapping traced.rank functions (length es) traced.ranked
      enough
