-- ===== src/Sandbox/Tests.antt =====
-- A mutant with three tests, the second of which fails.
use mull.Base.{
  ℕ, ◌≡◌, ◌≢◌, List, [], ◌∷◌, some, true, false, ◌==◌, if◌then◌else◌, length, Bool-cases, inl, inr,
}
use mull.Sandbox.{
  ExecutionStatus, invalid, failed, passed, exited, worker, timer_status, watchdog_status,
  ReachableTest, MutationResult, Mutant, run_tests, execute_mutants,
}
use mull.Sandbox.Statuses.{timer_status-valid, watchdog_status-valid}
use mull.Sandbox.Isolation.{isolated, execute_mutants-isolated}
use mull.Sandbox.FailFast.{survived, run_tests-survived}

timer_status-valid_example : timer_status (exited 0) invalid ≢ invalid
timer_status-valid_example = timer_status-valid (exited 0) invalid

watchdog_status-valid_case : watchdog_status (worker (exited 1)) passed ≢ invalid
watchdog_status-valid_case = watchdog_status-valid (worker (exited 1)) passed

abbrev tests : List ReachableTest
tests =
    record { test = 1; distance = 1; running_time = 2 }
    ∷ record { test = 2; distance = 1; running_time = 9 }
    ∷ record { test = 3; distance = 2; running_time = 0 }
    ∷ []

abbrev report : ℕ → ℕ → ExecutionStatus
report test timeout = if test == 2 then failed else passed

report-valid : (test timeout : ℕ) → report test timeout ≢ invalid
report-valid test timeout = elim (Bool-cases (test == 2)) [
  | inl second ↦ rw second (λ e. cc)
  | inr other ↦ rw other (λ e. cc)
]

run_tests-survived_example :
    (fast : List MutationResult) × (slow : List MutationResult) × (run_tests true report 7 tests
        false
      ≡ some fast)
    × (run_tests false report 7 tests false ≡ some slow)
    × (length fast ≡ length tests)
    × (length slow ≡ length tests)
    × (survived fast ≡ survived slow)
run_tests-survived_example = run_tests-survived report 7 tests report-valid

abbrev mutants : List Mutant
mutants =
    record { point = 7; trampoline = 1; address = 100; reachable_tests = tests }
    ∷ record { point = 8; trampoline = 1; address = 101; reachable_tests = tests }
    ∷ []

-- The first test notices the mutant at the address 100.
abbrev noticed : (ℕ → ℕ) → ℕ → ℕ → ExecutionStatus
noticed memory test timeout = if memory test == 100 then failed else passed

noticed-valid : (memory : ℕ → ℕ) (test timeout : ℕ) → noticed memory test timeout ≢ invalid
noticed-valid memory test timeout = elim (Bool-cases (memory test == 100)) [
  | inl hit ↦ rw hit (λ e. cc)
  | inr miss ↦ rw miss (λ e. cc)
]

execute_mutants-isolated_example :
    execute_mutants true noticed mutants (λ a. a)
    ≡ some (isolated true noticed mutants (λ a. a), (λ a. a))
execute_mutants-isolated_example =
    execute_mutants-isolated true noticed mutants (λ a. a) noticed-valid
