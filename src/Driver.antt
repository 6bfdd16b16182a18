-- ===== src/Driver.antt =====
-- lib/Driver.cpp, lib/MutationsFinder.cpp and the tasks of lib/Parallelization/Tasks that it runs: from
-- the tests to the mutation points and to their results. Tests, functions, instructions and mutation
-- points are numbers. A failed assertion is `none`.
pub mod Sequential
mod Tests
use mull.Base.{
  ℕ, zero, suc, ◌+◌, ◌*◌, List, [], ◌∷◌, ◌++◌, Option, none, some, Bool, true, false, if◌then◌else◌,
  drop, ◌>>=◌,
}
use mull.Parallelization.{Task, execute, replicate, filter_mutations}
use mull.ReachableFunction.{
  ReachableFunction, FunctionUnderTest, merge_reachable_functions, select_instructions,
}
use mull.Sandbox.{ExecutionStatus, dry_run, is_passed}

pub record MutationPoint : Type 0 where
  pub id : ℕ
  pub reachable_tests : List (ℕ × ℕ)

-- `OriginalTestExecutionTask`: `run` is the status of a test, and `reachable` what the call tree that
-- it records holds, the driver of the test first.
abbrev pub reached_functions :
    (run : ℕ → ExecutionStatus)
    → (reachable : ℕ → List ReachableFunction) → (test : ℕ) → List ReachableFunction
reached_functions run reachable test = if is_passed (run test) then drop 1 (reachable test) else []

pub original_test_task :
    (run : ℕ → ExecutionStatus)
    → (reachable : ℕ → List ReachableFunction) → Task ℕ ReachableFunction
original_test_task run reachable [] storage = storage
original_test_task run reachable (test ∷ tests) storage =
    original_test_task run reachable tests (storage ++ reached_functions run reachable test)

-- What `getMutations` of a mutator gives for a function.
abbrev pub Mutator : Type 0
Mutator = FunctionUnderTest → List ℕ

-- The loop over the mutants of one mutator, each of which gets the tests that reach the function.
pub add_mutants : FunctionUnderTest → List ℕ → List MutationPoint → List MutationPoint
add_mutants u [] storage = storage
add_mutants u (mutant ∷ mutants) storage =
    add_mutants u mutants
      (storage ++ record { id = mutant; reachable_tests = u.reachable_tests } ∷ [])

pub search_mutators : List Mutator → FunctionUnderTest → List MutationPoint → List MutationPoint
unfolding add_mutants
search_mutators [] u storage = storage
search_mutators (mutator ∷ mutators) u storage =
    search_mutators mutators u (add_mutants u (mutator u) storage)

-- `SearchMutationPointsTask`.
pub search_task : List Mutator → Task FunctionUnderTest MutationPoint
unfolding search_mutators
search_task mutators [] storage = storage
search_task mutators (u ∷ us) storage = search_task mutators us (search_mutators mutators u storage)

-- `MutationsFinder::getMutationPoints`.
pub get_mutation_points :
    (workers : ℕ) → List Mutator → List FunctionUnderTest → Option (List MutationPoint)
unfolding search_task
get_mutation_points workers mutators functions =
    execute (replicate workers (search_task mutators)) functions []

-- `InstructionSelectionTask`. It changes the functions of its range in place; as the ranges follow one
-- another, what the tasks leave in the vector is what they would append.
pub instruction_selection_task :
    List (ℕ → Bool) → (instructions : ℕ → List ℕ) → Task FunctionUnderTest FunctionUnderTest
instruction_selection_task filters instructions [] storage = storage
instruction_selection_task filters instructions (u ∷ us) storage =
    instruction_selection_task filters instructions us
      (storage ++ select_instructions filters (instructions u.function) u ∷ [])

-- `Driver::selectInstructions`; without a task the functions stay as they are.
pub select_all :
    (workers : ℕ)
    → List (ℕ → Bool)
    → (instructions : ℕ → List ℕ) → List FunctionUnderTest
    → Option (List FunctionUnderTest)
unfolding instruction_selection_task
select_all zero filters instructions functions = some functions
select_all (suc n) filters instructions functions =
    execute (replicate (suc n) (instruction_selection_task filters instructions)) functions []

-- What the driver is configured with and what it reads.
pub record Driver : Type 0 where
  pub workers : ℕ
  pub test_execution_workers : ℕ
  pub run : ℕ → ExecutionStatus
  pub reachable : ℕ → List ReachableFunction
  pub function_filters : List (FunctionUnderTest → Bool)
  pub instruction_filters : List (ℕ → Bool)
  pub instructions : ℕ → List ℕ
  pub finder_mutators : List Mutator
  pub mutation_filters : List (MutationPoint → Bool)

pub find_mutation_points : Driver → (tests : List ℕ) → Option (List MutationPoint)
unfolding original_test_task select_all get_mutation_points
find_mutation_points d [] = some []
find_mutation_points d (test ∷ tests) = do
  reachable_functions ←
      execute (replicate d.test_execution_workers (original_test_task d.run d.reachable))
        (test ∷ tests) []
  filtered ←
      filter_mutations d.workers d.function_filters (merge_reachable_functions reachable_functions)
  selected ← select_all d.workers d.instruction_filters d.instructions filtered
  get_mutation_points d.workers d.finder_mutators selected

-- The mutation points of `Driver::Run`, after `filterMutations`.
pub filtered_mutations : Driver → (tests : List ℕ) → Option (List MutationPoint)
unfolding find_mutation_points
filtered_mutations d tests = do
  points ← find_mutation_points d tests
  filter_mutations d.workers d.mutation_filters points

-- A result of `DryRunMutantExecutionTask`.
pub record DryRunResult : Type 0 where
  pub status : ExecutionStatus
  pub running_time : ℕ
  pub point : ℕ
  pub distance : ℕ
  pub test : ℕ

abbrev pub dry_run_results : (running_time : ℕ → ℕ) → (point : ℕ) → List (ℕ × ℕ) → List DryRunResult
dry_run_results running_time point [] = []
dry_run_results running_time point ((test, distance) ∷ tests) =
    record {
      status = dry_run;
      running_time = running_time test * 10;
      point = point;
      distance = distance;
      test = test;
    }
    ∷ dry_run_results running_time point tests

pub dry_run_task : (running_time : ℕ → ℕ) → Task MutationPoint DryRunResult
dry_run_task running_time [] storage = storage
dry_run_task running_time (p ∷ ps) storage =
    dry_run_task running_time ps (storage ++ dry_run_results running_time p.id p.reachable_tests)

-- `Driver::dryRunMutations`, with the case of `runMutations` that there are no points.
pub dry_run_mutations :
    (workers : ℕ) → (running_time : ℕ → ℕ) → List MutationPoint → Option (List DryRunResult)
unfolding dry_run_task
dry_run_mutations workers running_time points =
    execute (replicate workers (dry_run_task running_time)) points []
