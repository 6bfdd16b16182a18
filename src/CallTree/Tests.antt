-- ===== src/CallTree/Tests.antt =====
-- An execution in which the function 1 calls 2 and 3, and 2 calls itself.
use mull.Base.{ℕ, suc, ◌≡◌, refl, List, [], ◌∷◌, Option, none, some, arith, length, All}
use mull.CallTree.{
  InstrumentationInfo, empty_info, Build, create_call_tree, enter_mapping, enter_function,
  leave_function, pop_stack,
}
use mull.CallTree.Trace.{Event, enter, leave, run, step, IsBelow, IsTraced, run-IsTraced}
use mull.CallTree.Created.{IsCallTree, create_call_tree-run}

abbrev pub calls : List Event
calls = enter 1 ∷ enter 2 ∷ enter 2 ∷ leave 2 ∷ leave 2 ∷ enter 3 ∷ leave 3 ∷ leave 1 ∷ []

abbrev pub addresses : List (Option ℕ)
addresses = some 11 ∷ some 12 ∷ some 13 ∷ some 14 ∷ []

abbrev state_of : Option InstrumentationInfo → InstrumentationInfo
state_of none = empty_info
state_of (some s) = s

abbrev pub recorded : InstrumentationInfo
recorded = state_of (run calls empty_info)

pub calls-run : run calls empty_info ≡ some recorded
unfolding run step enter_mapping enter_function leave_function pop_stack
calls-run = refl

pub calls-IsBelow : All (IsBelow (suc (length addresses))) calls
calls-IsBelow = (
  omega arith,
  (
    omega arith,
    (omega arith, (omega arith, (omega arith, (omega arith, (omega arith, (omega arith, tt)))))),
  ),
)

create_call_tree-run_example :
    (t : Build) × (create_call_tree 9 recorded.mapping (none ∷ addresses) ≡ some t)
    × IsCallTree recorded.mapping (none ∷ addresses) t
create_call_tree-run_example =
    create_call_tree-run calls addresses recorded 9 calls-IsBelow calls-run (omega arith)

run-IsTraced_case : IsTraced 5 8 recorded
run-IsTraced_case = run-IsTraced 5 calls recorded calls-IsBelow calls-run
