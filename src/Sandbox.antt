-- ===== src/Sandbox.antt =====
-- lib/Sandbox/ProcessSandbox.cpp, include/mull/ExecutionResult.h and
-- lib/Parallelization/Tasks/MutantExecutionTask.cpp: what a test run in a child process is reported
-- as, and running the tests of each mutant with its trampoline redirected.
mod Tests
pub mod Statuses
pub mod Isolation
pub mod FailFast
pub mod Passing
use mull.Base.{
  ℕ, ◌*◌, List, [], ◌∷◌, ◌++◌, Option, none, some, Bool, true, false, ◌&&◌, ltb, ◌==◌,
  if◌then◌else◌, update,
}

pub data ExecutionStatus : Type 0 where
  invalid failed passed timedout crashed abnormal_exit dry_run fail_fast : ExecutionStatus

-- How `waitpid` reports the worker: by a signal, or by its exit code.
pub data WaitStatus : Type 0 where
  signaled : WaitStatus
  exited : (code : ℕ) → WaitStatus

abbrev mull_exit_code : ℕ
mull_exit_code = 0

abbrev mull_timeout_code : ℕ
mull_timeout_code = 239

-- The last branch of both sandboxes: the worker ended by itself.
abbrev pub finished : ExecutionStatus → ExecutionStatus
finished ExecutionStatus.invalid = ExecutionStatus.passed
finished status = status

-- The status that the parent of `ForkTimerSandbox::run` reports, from what `waitpid` says and the
-- status in the shared memory.
unfoldable pub timer_status : WaitStatus → ExecutionStatus → ExecutionStatus
timer_status signaled shared = ExecutionStatus.crashed
timer_status (exited code) shared =
    if code == mull_timeout_code
    then ExecutionStatus.timedout
    else if code == mull_exit_code
    then finished shared
    else ExecutionStatus.abnormal_exit

-- Which process the watchdog of `ForkWatchdogSandbox::run` sees end first.
pub data FirstExit : Type 0 where
  timer : FirstExit
  worker : WaitStatus → FirstExit

unfoldable pub watchdog_status : FirstExit → ExecutionStatus → ExecutionStatus
watchdog_status timer shared = ExecutionStatus.timedout
watchdog_status (worker signaled) shared = ExecutionStatus.crashed
watchdog_status (worker (exited code)) shared =
    if code == mull_exit_code then finished shared else ExecutionStatus.abnormal_exit

pub record ReachableTest : Type 0 where
  pub test : ℕ
  pub distance : ℕ
  pub running_time : ℕ

-- `MutationResult`, with the mutation point it belongs to.
pub record MutationResult : Type 0 where
  pub status : ExecutionStatus
  pub point : ℕ
  pub distance : ℕ
  pub test : ℕ

abbrev pub sandbox_timeout : ReachableTest → ℕ
sandbox_timeout t = if ltb 30 (t.running_time * 10) then t.running_time * 10 else 30

abbrev pub is_passed : ExecutionStatus → Bool
is_passed ExecutionStatus.passed = true
is_passed _ = false

abbrev pub is_invalid : ExecutionStatus → Bool
is_invalid ExecutionStatus.invalid = true
is_invalid _ = false

abbrev pub add_result : MutationResult → Option (List MutationResult) → Option (List MutationResult)
add_result r none = none
add_result r (some rs) = some (r ∷ rs)

abbrev pub result : ExecutionStatus → ℕ → ReachableTest → MutationResult
result status point t = record {
  status = status;
  point = point;
  distance = t.distance;
  test = t.test;
}

-- The inner loop of `MutantExecutionTask`: `run test timeout` is the status that the sandbox reports
-- for the test; a failed assertion is `none`.
pub run_tests :
    (fail_fast_enabled : Bool)
    → (run : ℕ → ℕ → ExecutionStatus) → (point : ℕ) → List ReachableTest
    → (at_least_one_test_failed : Bool) → Option (List MutationResult)
run_tests enabled run point [] one_failed = some []
run_tests enabled run point (t ∷ ts) one_failed =
    let skipped = run_tests enabled run point ts one_failed in
    let status = run t.test (sandbox_timeout t) in
    let after = run_tests enabled run point ts (if is_passed status then one_failed else true) in
    if enabled && one_failed
    then add_result (result ExecutionStatus.fail_fast point t) skipped
    else if is_invalid status
    then none
    else add_result (result status point t) after

-- A mutant: its identity, the trampoline's place in memory, the mutated function's address and
-- the tests that reach it.
pub record Mutant : Type 0 where
  pub point : ℕ
  pub trampoline : ℕ
  pub address : ℕ
  pub reachable_tests : List ReachableTest

abbrev pub append_results :
    List MutationResult
    → Option (List MutationResult × (ℕ → ℕ))
    → Option (List MutationResult × (ℕ → ℕ))
append_results rs none = none
append_results rs (some (more, memory)) = some (rs ++ more, memory)

abbrev pub on_results :
    Option (List MutationResult)
    → (List MutationResult → Option (List MutationResult × (ℕ → ℕ)))
    → Option (List MutationResult × (ℕ → ℕ))
on_results none next = none
on_results (some rs) next = next rs

-- The outer loop. `memory` holds the trampolines; `run memory` is what the sandbox reports while
-- they are so. Tests run in a child process, so they leave the memory of the task alone.
pub execute_mutants :
    (fail_fast_enabled : Bool)
    → (run : (ℕ → ℕ) → ℕ → ℕ → ExecutionStatus) → List Mutant
    → (memory : ℕ → ℕ) → Option (List MutationResult × (ℕ → ℕ))
unfolding run_tests
execute_mutants enabled run [] memory = some ([], memory)
execute_mutants enabled run (m ∷ ms) memory =
    let original_address = memory m.trampoline in
    let redirected = update memory m.trampoline m.address in
    on_results (run_tests enabled (run redirected) m.point m.reachable_tests false) λ results.
      append_results results
        (execute_mutants enabled run ms (update redirected m.trampoline original_address))
