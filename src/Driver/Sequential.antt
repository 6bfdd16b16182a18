-- ===== src/Driver/Sequential.antt =====
-- What lib/Driver.cpp finds does not depend on the numbers of workers.
use mull.Base.{
  ℕ, zero, suc, ◌^◌, ◌<◌, ◌≡◌, refl, sym, ap, ◌∙◌, List, [], ◌∷◌, ◌++◌, some, length, map, arith,
  append_assoc, append-nil, Bool-cases, inl, inr, drop,
}
use mull.Parallelization.{Task, execute, replicate}
use mull.Parallelization.Execution.{flat_map, Appends, execute-flat_map}
use mull.Parallelization.Filtering.{All-replicate, length-replicate, filter_mutations-filter}
use mull.ReachableFunction.{
  ReachableFunction, FunctionUnderTest, merge_reachable_functions, select_instructions,
}
use mull.ReachableFunction.Merging.{merge_reachable_functions-grouped}
use mull.ReachableFunction.Selection.{filter, none_skips}
use mull.Sandbox.Passing.{has_passed, is_passed-has_passed}
use mull.Driver.{
  MutationPoint, reached_functions, original_test_task, Mutator, add_mutants, search_mutators,
  search_task, get_mutation_points, instruction_selection_task, select_all, Driver,
  find_mutation_points, filtered_mutations, dry_run_results, dry_run_task, dry_run_mutations,
}

-- As many equal tasks as there are workers do what one of them does for each item in turn.
execute-replicate :
    {A B : Type 0} (body : A → List B) (task : Task A B) (workers : ℕ) (xs : List A)
    → Appends body task
    → 0 < workers
    → length xs < 2 ^ 31
    → execute (replicate workers task) xs [] ≡ some (flat_map body xs)
execute-replicate body task workers xs appends some_worker small =
    execute-flat_map body (replicate workers task) xs []
      (All-replicate (Appends body) workers task appends)
      (omega (arith, length-replicate workers task)) small

-- A task that appends what `body` gives for its first item, and goes on.
Appends-of :
    {A B : Type 0} (body : A → List B) (task : Task A B)
    → ((out : List B) → task [] out ≡ out)
    → ((x : A) (xs : List A) (out : List B) → task (x ∷ xs) out ≡ task xs (out ++ body x))
    → Appends body task
Appends-of body task stops goes [] out = stops out ∙ sym (append-nil out)
Appends-of body task stops goes (x ∷ xs) out =
    goes x xs out
    ∙ Appends-of body task stops goes xs (out ++ body x)
    ∙ append_assoc out (body x) (flat_map body xs)

original_test_task-Appends :
    (d : Driver)
    → Appends (reached_functions d.run d.reachable) (original_test_task d.run d.reachable)
unfolding original_test_task
original_test_task-Appends d =
    Appends-of (reached_functions d.run d.reachable) (original_test_task d.run d.reachable)
      (λ out. refl) (λ x xs out. refl)

-- The mutation point of a mutant of a function.
abbrev pub point_in : FunctionUnderTest → ℕ → MutationPoint
point_in u mutant = record { id = mutant; reachable_tests = u.reachable_tests }

-- The mutation points of a function, mutator by mutator.
abbrev pub points_in : List Mutator → FunctionUnderTest → List MutationPoint
points_in mutators u = flat_map (λ mutator. map (point_in u) (mutator u)) mutators

add_mutants-map :
    (u : FunctionUnderTest) (mutants : List ℕ) (storage : List MutationPoint)
    → add_mutants u mutants storage ≡ storage ++ map (point_in u) mutants
unfolding add_mutants
add_mutants-map u [] storage = sym (append-nil storage)
add_mutants-map u (m ∷ ms) storage =
    add_mutants-map u ms (storage ++ point_in u m ∷ [])
    ∙ append_assoc storage (point_in u m ∷ []) (map (point_in u) ms)

search_mutators-points_in :
    (mutators : List Mutator) (u : FunctionUnderTest) (storage : List MutationPoint)
    → search_mutators mutators u storage ≡ storage ++ points_in mutators u
unfolding search_mutators
search_mutators-points_in [] u storage = sym (append-nil storage)
search_mutators-points_in (m ∷ ms) u storage =
    search_mutators-points_in ms u (add_mutants u (m u) storage)
    ∙ ap (λ l. l ++ points_in ms u) (add_mutants-map u (m u) storage)
    ∙ append_assoc storage (map (point_in u) (m u)) (points_in ms u)

search_task-Appends :
    (mutators : List Mutator) → Appends (points_in mutators) (search_task mutators)
unfolding search_task
search_task-Appends mutators =
    Appends-of (points_in mutators) (search_task mutators) (λ out. refl)
      (λ u us out. ap (search_task mutators us) (search_mutators-points_in mutators u out))

dry_run_task-Appends :
    (running_time : ℕ → ℕ)
    → Appends (λ p. dry_run_results running_time p.id p.reachable_tests) (dry_run_task running_time)
unfolding dry_run_task
dry_run_task-Appends running_time =
    Appends-of (λ p. dry_run_results running_time p.id p.reachable_tests)
      (dry_run_task running_time) (λ out. refl) (λ p ps out. refl)

-- What a test reaches besides its own body, which comes first.
abbrev pub after_first : List ReachableFunction → List ReachableFunction
after_first [] = []
after_first (driver ∷ reached) = reached

-- What the tests reach that passed.
abbrev pub reached_by_passing : Driver → (tests : List ℕ) → List ReachableFunction
reached_by_passing d tests =
    flat_map (λ test. after_first (d.reachable test))
      (filter (λ test. has_passed (d.run test)) tests)

flat_map-reached_functions :
    (d : Driver) (tests : List ℕ)
    → flat_map (reached_functions d.run d.reachable) tests ≡ reached_by_passing d tests
flat_map-reached_functions d [] = refl
flat_map-reached_functions d (test ∷ tests) =
    let same = is_passed-has_passed (d.run test) in
    let rest = flat_map-reached_functions d tests in
    elim (Bool-cases (has_passed (d.run test))) [
      | inl passes ↦
          rw (same, passes)
            (ap (λ l. l ++ flat_map (reached_functions d.run d.reachable) tests)
                (drop_one (d.reachable test))
              ∙ ap (λ l. after_first (d.reachable test) ++ l) rest)
      | inr fails ↦ rw (same, fails) rest
    ]
  where
    drop_one : (l : List ReachableFunction) → drop 1 l ≡ after_first l
    drop_one [] = refl
    drop_one (f ∷ l) = refl

-- The functions that the passing tests reach and no filter skips, with their selected instructions.
abbrev pub functions_under_test : Driver → (tests : List ℕ) → List FunctionUnderTest
functions_under_test d tests =
    map (λ u. select_instructions d.instruction_filters (d.instructions u.function) u)
      (filter (λ u. none_skips u d.function_filters)
        (merge_reachable_functions (reached_by_passing d tests)))

flat_map-map : {A B : Type 0} (f : A → B) (xs : List A) → flat_map (λ x. f x ∷ []) xs ≡ map f xs
flat_map-map f [] = refl
flat_map-map f (x ∷ xs) = ap (λ l. f x ∷ l) (flat_map-map f xs)

length-map : {A B : Type 0} (f : A → B) (xs : List A) → length (map f xs) ≡ length xs
length-map f [] = refl
length-map f (x ∷ xs) = ap suc (length-map f xs)

select_all-map :
    (d : Driver) (us : List FunctionUnderTest)
    → 0 < d.workers
    → length us < 2 ^ 31
    → select_all d.workers d.instruction_filters d.instructions us
      ≡ some (map (λ u. select_instructions d.instruction_filters (d.instructions u.function) u) us)
unfolding select_all instruction_selection_task
select_all-map d us w small = some_worker d.workers w
  where
    some_worker :
        (n : ℕ)
        → 0 < n
        → select_all n d.instruction_filters d.instructions us
          ≡ some (
              map (λ u. select_instructions d.instruction_filters (d.instructions u.function) u) us)
    some_worker zero less = absurd (omega arith)
    some_worker (suc n) less =
        let select = λ (u : FunctionUnderTest).
          select_instructions d.instruction_filters (d.instructions u.function) u in
        let task = instruction_selection_task d.instruction_filters d.instructions in
        execute-replicate (λ u. select u ∷ []) task (suc n) us
          (Appends-of (λ u. select u ∷ []) task (λ out. refl) (λ x xs out. refl)) less small
        ∙ ap (λ (l : List FunctionUnderTest). some l) (flat_map-map select us)

-- With at least one worker for each kind of task, and numbers of tests, functions and mutation points
-- that `int` holds, the mutation points that are kept are those that no filter skips among the
-- mutants that the mutators find, function by function, in the functions that the tests that passed
-- reach, the body of the test left out.
pub filtered_mutations-flat_map :
    (d : Driver) (tests : List ℕ)
    → 0 < d.workers
    → 0 < d.test_execution_workers
    → length tests < 2 ^ 31
    → length (merge_reachable_functions (reached_by_passing d tests)) < 2 ^ 31
    → length (functions_under_test d tests) < 2 ^ 31
    → length (flat_map (points_in d.finder_mutators) (functions_under_test d tests)) < 2 ^ 31
    → filtered_mutations d tests
      ≡ some (
          filter
            (λ p. none_skips p d.mutation_filters)
            (flat_map (points_in d.finder_mutators) (functions_under_test d tests)))
unfolding filtered_mutations find_mutation_points get_mutation_points
filtered_mutations-flat_map d [] w t small_tests small_merged small_functions small_points =
    filter_mutations-filter d.workers d.mutation_filters [] w (omega arith)
    ∙ ap
        (λ m. some (
          filter (λ p. none_skips p d.mutation_filters)
            (flat_map (points_in d.finder_mutators) (
              map (λ u. select_instructions d.instruction_filters (d.instructions u.function) u)
                (filter (λ u. none_skips u d.function_filters) m)))))
        (sym (merge_reachable_functions-grouped []))
filtered_mutations-flat_map d (test ∷ tests) w t small_tests small_merged small_functions
      small_points =
    let functions = functions_under_test d (test ∷ tests) in
    let points = flat_map (points_in d.finder_mutators) functions in
    let run_tests =
      execute-replicate (reached_functions d.run d.reachable) (original_test_task d.run d.reachable)
        d.test_execution_workers (test ∷ tests) (original_test_task-Appends d) t small_tests
      ∙ ap (λ (l : List ReachableFunction). some l) (flat_map-reached_functions d (test ∷ tests)) in
    let merged = merge_reachable_functions (reached_by_passing d (test ∷ tests)) in
    let filtered = filter_mutations-filter d.workers d.function_filters merged w small_merged in
    let kept = filter (λ u. none_skips u d.function_filters) merged in
    let search =
      execute-replicate (points_in d.finder_mutators) (search_task d.finder_mutators) d.workers
        functions (search_task-Appends d.finder_mutators) w small_functions in
    let select = select_all-map d kept w (
      omega (
        arith,
        small_functions,
        length-map (λ u. select_instructions d.instruction_filters (d.instructions u.function) u)
            kept,
      )) in
    rw (run_tests, filtered, select, search)
      (filter_mutations-filter d.workers d.mutation_filters points w small_points)

-- With at least one worker, a dry run gives one result for each mutation point and each test that
-- reaches it, in their order, whatever the number of workers.
pub dry_run_mutations-flat_map :
    (workers : ℕ) (running_time : ℕ → ℕ) (points : List MutationPoint)
    → 0 < workers
    → length points < 2 ^ 31
    → dry_run_mutations workers running_time points
      ≡ some (flat_map (λ p. dry_run_results running_time p.id p.reachable_tests) points)
unfolding dry_run_mutations
dry_run_mutations-flat_map workers running_time points some_worker small =
    execute-replicate (λ p. dry_run_results running_time p.id p.reachable_tests)
      (dry_run_task running_time) workers points (dry_run_task-Appends running_time) some_worker
      small
