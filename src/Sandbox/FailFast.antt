-- ===== src/Sandbox/FailFast.antt =====
-- Failing fast (lib/Parallelization/Tasks/MutantExecutionTask.cpp) does not change the verdict on a mutant.
use mull.Base.{
  ℕ, ◌≡◌, ◌≢◌, refl, ap, inl, inr, List, [], ◌∷◌, Bool, true, false, ◌&&◌, some, suc, length,
  if◌then◌else◌, Bool-cases,
}
use mull.Sandbox.{
  ExecutionStatus, invalid, ReachableTest, MutationResult, run_tests, is_passed, sandbox_timeout,
}
use mull.Sandbox.Isolation.{results_of, run_tests-results_of}

-- The mutant survives: every test passed.
abbrev pub survived : List MutationResult → Bool
survived [] = true
survived (r ∷ rs) = is_passed r.status && survived rs

results_of-survived :
    (run : ℕ → ℕ → ExecutionStatus) (point : ℕ) (ts : List ReachableTest)
    → survived (results_of true run point ts false) ≡ survived (results_of false run point ts false)
results_of-survived run point [] = refl
results_of-survived run point (t ∷ ts) =
    elim (Bool-cases (is_passed (run t.test (sandbox_timeout t)))) [
      | inl passes ↦ rw passes (results_of-survived run point ts)
      | inr fails ↦ rw fails refl
    ]

length-results_of :
    (enabled : Bool) (run : ℕ → ℕ → ExecutionStatus) (point : ℕ) (ts : List ReachableTest)
    (one_failed : Bool)
    → length (results_of enabled run point ts one_failed) ≡ length ts
length-results_of enabled run point [] one_failed = refl
length-results_of enabled run point (t ∷ ts) one_failed =
    elim (Bool-cases (enabled && one_failed)) [
      | inl skip ↦ rw skip (ap suc (length-results_of enabled run point ts one_failed))
      | inr go ↦
          let later = if is_passed (run t.test (sandbox_timeout t)) then one_failed else true in
          rw go (ap suc (length-results_of enabled run point ts later))
    ]

-- When the sandbox never reports `Invalid`, a mutant has one result for each test, with failing
-- fast and without, and survives with it exactly if it survives without it.
pub run_tests-survived :
    (run : ℕ → ℕ → ExecutionStatus) (point : ℕ) (ts : List ReachableTest)
    → ((test timeout : ℕ) → run test timeout ≢ invalid)
    → (fast : List MutationResult) × (slow : List MutationResult) × (run_tests true run point ts
          false
        ≡ some fast)
      × (run_tests false run point ts false ≡ some slow)
      × (length fast ≡ length ts)
      × (length slow ≡ length ts)
      × (survived fast ≡ survived slow)
run_tests-survived run point ts valid = (
  results_of true run point ts false,
  results_of false run point ts false,
  run_tests-results_of true run point ts false valid,
  run_tests-results_of false run point ts false valid,
  length-results_of true run point ts false,
  length-results_of false run point ts false,
  results_of-survived run point ts,
)
