-- ===== src/CallTree.antt =====
-- lib/Instrumentation/DynamicCallTree.cpp, include/mull/Instrumentation/DynamicCallTree.h and
-- InstrumentationInfo.h: recording who called whom first, and building the tree of calls.
-- A failed `assert`, and `pop` on an empty stack, are `none`. A function pointer is a number, and
-- `none` stands for the null pointer.
pub mod Tests
pub mod Trace
pub mod Filling
pub mod Attaching
pub mod Created
pub mod Search
use mull.Base.{
  ℕ, zero, suc, ◌+◌, true, false, List, [], ◌∷◌, ◌++◌, Option, none, some, ◌==◌, if◌then◌else◌,
  length, get_elem?, update,
}

-- `callTreeMapping`, as a map from indices to indices, and `callstack`, the top first.
pub record InstrumentationInfo : Type 0 where
  pub mapping : ℕ → ℕ
  pub callstack : List ℕ

abbrev pub empty_info : InstrumentationInfo
empty_info = record { mapping = λ _. 0; callstack = [] }

-- What `enterFunction` writes to the mapping, by the callstack.
unfoldable pub enter_mapping : ℕ → (ℕ → ℕ) → List ℕ → ℕ → ℕ
enter_mapping i mapping [] = update mapping i i
enter_mapping i mapping (top ∷ rest) = if mapping i == 0 then update mapping i top else mapping

unfoldable pub enter_function : ℕ → InstrumentationInfo → Option InstrumentationInfo
unfolding enter_mapping
enter_function i s =
    if i == 0
    then none
    else some
        (record { mapping = enter_mapping i s.mapping s.callstack; callstack = i ∷ s.callstack })

-- `stack.pop()` on an empty stack is undefined behaviour.
unfoldable pub pop_stack : InstrumentationInfo → Option InstrumentationInfo
pop_stack s = elim s.callstack [ [] ↦ none | _ ∷ rest ↦ some (record s { callstack = rest }) ]

unfoldable pub leave_function : ℕ → InstrumentationInfo → Option InstrumentationInfo
unfolding pop_stack
leave_function i s = if i == 0 then none else pop_stack s

-- `CallTree`. Its children are addresses of nodes.
pub record Node : Type 0 where
  pub function : Option ℕ
  pub level : ℕ
  pub functions_index : ℕ
  pub children : List ℕ

-- The constructor of `CallTree`.
abbrev pub new_node : Option ℕ → Node
new_node function = record { function = function; level = 0; functions_index = 0; children = [] }

-- The mapping and the nodes made so far. `fillInCallTree` makes at most one node for an index, so
-- the address of a node is its index, and `functions[i].treeRoot` is null exactly if `nodes i` is
-- `none`. The phony root is at address 0.
pub record Build : Type 0 where
  pub mapping : ℕ → ℕ
  pub nodes : ℕ → Option Node

-- The parent that `fillInCallTree` looks up: 0 for the first function of a chain.
abbrev pub caller : (ℕ → ℕ) → ℕ → ℕ
caller mapping i = if mapping i == i then 0 else mapping i

-- The last four lines of `fillInCallTree`, after the parent was filled in.
pub attach : ℕ → ℕ → Option Node → Option Node → Build → Option Build
attach i parent none root s = none
attach i parent (some node) none s = none
attach i parent (some node) (some root) s = some (record {
  mapping = update s.mapping i 0;
  nodes =
      update (update s.nodes i (some (record node { level = root.level + 1; functions_index = i })))
        parent (some (record root { children = root.children ++ i ∷ [] }));
})

abbrev pub bind_build : Option Build → (Build → Option Build) → Option Build
bind_build none f = none
bind_build (some s) f = f s

-- The recursion goes from callee to caller; `none` is also the end of the fuel.
pub fill_in_call_tree : ℕ → List (Option ℕ) → ℕ → Build → Option Build
unfolding attach
fill_in_call_tree zero functions i s = none
fill_in_call_tree (suc fuel) functions i s = elim (get_elem? functions i) [
  | none ↦ none
  | some function ↦ elim (s.mapping i == 0) [
    | true ↦ some s
    | false ↦
        bind_build
          (fill_in_call_tree fuel functions (caller s.mapping i)
            (record s { nodes = update s.nodes i (some (new_node function)) }))
          (λ t. attach i (caller s.mapping i) (t.nodes i) (t.nodes (caller s.mapping i)) t)
  ]
]

-- `for (index = 1; index < functions.size(); index++)`, by the rounds left.
pub fill_all : ℕ → List (Option ℕ) → ℕ → ℕ → Build → Option Build
unfolding fill_in_call_tree
fill_all fuel functions zero index s = some s
fill_all fuel functions (suc rounds) index s =
    bind_build (fill_in_call_tree fuel functions index s)
      (λ t. fill_all fuel functions rounds (suc index) t)

-- `createCallTree`, with its assertions on the first entries.
pub create_call_tree : ℕ → (ℕ → ℕ) → List (Option ℕ) → Option Build
unfolding fill_all
create_call_tree fuel mapping [] = none
create_call_tree fuel mapping (some f ∷ functions) = none
create_call_tree fuel mapping (none ∷ functions) =
    if mapping 0 == 0
    then fill_all fuel (none ∷ functions) (length functions) 1
        (record { mapping = mapping; nodes = update (λ _. none) 0 (some (new_node none)) })
    else none
