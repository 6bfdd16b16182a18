-- ===== src/Instrumentation/Reports.antt =====
-- `Instrumentation::getReachableFunctions` (lib/Instrumentation/Instrumentation.cpp) after any
-- execution of the instrumented program.
use mull.Base.{ℕ, suc, ◌≤◌, ◌<◌, ◌≡◌, List, ◌∷◌, Option, none, some, arith, length, All}
use mull.CallTree.{InstrumentationInfo, empty_info, Build}
use mull.CallTree.Trace.{Event, IsBelow, run, run-IsTraced}
use mull.CallTree.Created.{IsCallTree, create_call_tree-IsCallTree}
use mull.CallTree.Search.{Reached}
use mull.CallTree.Search.Exact.{
  IsEntries, AreReports, extract_test_subtrees-IsEntries, create_reachable_functions-AreReports,
}
use mull.Instrumentation.{get_reachable_functions}

-- `found` is what the calls recorded in `m` show of the test `entry`: for each node of the test
-- body, the functions at most `max_distance` calls below it with their distances.
pub record IsReachReport (m : ℕ → ℕ) (functions : List (Option ℕ)) (entry : Option ℕ)
    (max_distance : ℕ) (found : List Reached) : Type 0 where
  pub tree : Build
  pub is_tree : IsCallTree m functions tree
  pub roots : List ℕ
  pub are_entries : IsEntries m tree.nodes entry roots
  pub reports : AreReports m tree.nodes max_distance roots found

-- After any execution of instrumented functions that the callbacks accept, getReachableFunctions
-- ends (fuel above the number of callbacks and for every function is enough) and reports, for each
-- node of the test body in the tree of the recorded calls, each function at most max_distance
-- calls below it exactly once, with its distance.
pub get_reachable_functions-run :
    (es : List Event) (functions : List (Option ℕ)) (s : InstrumentationInfo) (entry : Option ℕ)
    (max_distance fuel : ℕ)
    → All (IsBelow (suc (length functions))) es
    → run es empty_info ≡ some s
    → length es < fuel
    → suc (length functions) ≤ fuel
    → (found : List Reached) × (get_reachable_functions fuel s.mapping
          (none ∷ functions)
          entry
          max_distance
        ≡ some found)
      × IsReachReport s.mapping (none ∷ functions) entry max_distance found
unfolding get_reachable_functions
get_reachable_functions-run es functions s entry max_distance fuel a e enough room =
    let traced = run-IsTraced (suc (length functions)) es s a e in
    let (tree, made, is_tree) =
      create_call_tree-IsCallTree fuel s.mapping traced.rank functions (length es) traced.ranked
        enough in
    let (roots, extracted, are_entries, placed) =
      extract_test_subtrees-IsEntries traced.ranked is_tree (omega arith) entry fuel room in
    let (found, reached, reports) =
      create_reachable_functions-AreReports traced.ranked is_tree (omega arith) roots max_distance
        fuel placed room in
    (
      found,
      rw (made, extracted, get_reachable_functions) reached,
      record {
        tree = tree;
        is_tree = is_tree;
        roots = roots;
        are_entries = are_entries;
        reports = reports;
      },
    )
