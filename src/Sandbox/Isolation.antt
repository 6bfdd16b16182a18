-- ===== src/Sandbox/Isolation.antt =====
-- Each mutant of `MutantExecutionTask` (lib/Parallelization/Tasks/MutantExecutionTask.cpp) is run alone.
use mull.Base.{
  ℕ, ◌≡◌, ◌≢◌, refl, ap, ◌∙◌, inl, inr, List, [], ◌∷◌, ◌++◌, some, Bool, true, false, ◌&&◌, ◌==◌,
  ==_iff, if◌then◌else◌, update, Bool-cases, fun_ext,
}
use mull.Sandbox.{
  ExecutionStatus, invalid, failed, passed, timedout, crashed, abnormal_exit, dry_run, fail_fast,
  ReachableTest, MutationResult, Mutant, sandbox_timeout, is_passed, is_invalid, add_result, result,
  run_tests, append_results, on_results, execute_mutants,
}

is_invalid-false : (s : ExecutionStatus) → s ≢ invalid → is_invalid s ≡ false
is_invalid-false invalid h = absurd (h refl)
is_invalid-false failed h = refl
is_invalid-false passed h = refl
is_invalid-false timedout h = refl
is_invalid-false crashed h = refl
is_invalid-false abnormal_exit h = refl
is_invalid-false dry_run h = refl
is_invalid-false fail_fast h = refl

-- The results of a mutant when no assertion fails.
abbrev pub results_of :
    Bool → (ℕ → ℕ → ExecutionStatus) → ℕ → List ReachableTest → Bool → List MutationResult
results_of enabled run point [] one_failed = []
results_of enabled run point (t ∷ ts) one_failed =
    let skipped = results_of enabled run point ts one_failed in
    let status = run t.test (sandbox_timeout t) in
    let after = results_of enabled run point ts (if is_passed status then one_failed else true) in
    if enabled && one_failed
    then result fail_fast point t ∷ skipped
    else result status point t ∷ after

pub run_tests-results_of :
    (enabled : Bool) (run : ℕ → ℕ → ExecutionStatus) (point : ℕ) (ts : List ReachableTest)
    (one_failed : Bool)
    → ((test timeout : ℕ) → run test timeout ≢ invalid)
    → run_tests enabled run point ts one_failed ≡ some (results_of enabled run point ts one_failed)
unfolding run_tests
run_tests-results_of enabled run point [] one_failed valid = refl
run_tests-results_of enabled run point (t ∷ ts) one_failed valid =
    elim (Bool-cases (enabled && one_failed)) [
      | inl skip ↦ rw skip (
          ap (add_result (result fail_fast point t))
            (run_tests-results_of enabled run point ts one_failed valid))
      | inr go ↦
          let status = run t.test (sandbox_timeout t) in
          rw (go, is_invalid-false status (valid t.test (sandbox_timeout t)))
            (ap (add_result (result status point t)) (
              run_tests-results_of enabled run point ts
                (if is_passed status then one_failed else true) valid))
    ]

restored : (memory : ℕ → ℕ) (p a : ℕ) → update (update memory p a) p (memory p) ≡ memory
restored memory p a = fun_ext λ q. elim (Bool-cases (p == q)) [
  | inl e ↦ rw e (ap memory ((==_iff p q).0 e))
  | inr n ↦ rw n refl
]

-- The results of all mutants, each run with only its own trampoline redirected.
abbrev pub isolated :
    Bool → ((ℕ → ℕ) → ℕ → ℕ → ExecutionStatus) → List Mutant → (ℕ → ℕ) → List MutationResult
isolated enabled run [] memory = []
isolated enabled run (m ∷ ms) memory =
    results_of enabled (run (update memory m.trampoline m.address)) m.point m.reachable_tests false
    ++ isolated enabled run ms memory

-- When the sandbox never reports `Invalid`, executing mutants fails no assertion, leaves the memory
-- of trampolines as it was, and gives for each mutant the results of its tests run with its own
-- trampoline redirected and all others as they were at the start.
pub execute_mutants-isolated :
    (enabled : Bool) (run : (ℕ → ℕ) → ℕ → ℕ → ExecutionStatus) (ms : List Mutant) (memory : ℕ → ℕ)
    → ((m : ℕ → ℕ) (test timeout : ℕ) → run m test timeout ≢ invalid)
    → execute_mutants enabled run ms memory ≡ some (isolated enabled run ms memory, memory)
unfolding execute_mutants
execute_mutants-isolated enabled run [] memory valid = refl
execute_mutants-isolated enabled run (m ∷ ms) memory valid =
    let redirected = update memory m.trampoline m.address in
    let rs = results_of enabled (run redirected) m.point m.reachable_tests false in
    ap
      (λ o. on_results o λ results.
        append_results results
          (execute_mutants enabled run ms (update redirected m.trampoline (memory m.trampoline))))
      (run_tests-results_of enabled (run redirected) m.point m.reachable_tests false
        (valid redirected))
    ∙ ap (λ mem. append_results rs (execute_mutants enabled run ms mem))
        (restored memory m.trampoline m.address)
    ∙ ap (append_results rs) (execute_mutants-isolated enabled run ms memory valid)
