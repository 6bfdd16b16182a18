-- ===== src/Sandbox/Statuses.antt =====
-- The sandboxes of lib/Sandbox/ProcessSandbox.cpp always decide on a status.
use mull.Base.{◌≢◌, inl, inr, Bool-cases, ◌==◌}
use mull.Sandbox.{
  ExecutionStatus, invalid, failed, passed, timedout, crashed, abnormal_exit, dry_run, fail_fast,
  WaitStatus, signaled, exited, FirstExit, timer, worker, finished, timer_status, watchdog_status,
}

finished-valid : (s : ExecutionStatus) → finished s ≢ invalid
finished-valid invalid e = cc
finished-valid failed e = cc
finished-valid passed e = cc
finished-valid timedout e = cc
finished-valid crashed e = cc
finished-valid abnormal_exit e = cc
finished-valid dry_run e = cc
finished-valid fail_fast e = cc

-- However the worker ends and whatever the test left in the shared memory, the timer sandbox does
-- not report the status `Invalid`.
pub timer_status-valid :
    (w : WaitStatus) (shared : ExecutionStatus) → timer_status w shared ≢ invalid
unfolding timer_status
timer_status-valid signaled shared = λ e. cc
timer_status-valid (exited code) shared = elim (Bool-cases (code == 239)) [
  | inl late ↦ rw late (λ e. cc)
  | inr in_time ↦ elim (Bool-cases (code == 0)) [
    | inl zero ↦ rw (in_time, zero) (finished-valid shared)
    | inr other ↦ rw (in_time, other) (λ e. cc)
  ]
]

-- Whichever process ends first, however it ends, and whatever the test left in the shared memory,
-- the watchdog sandbox does not report the status `Invalid`.
pub watchdog_status-valid :
    (first : FirstExit) (shared : ExecutionStatus) → watchdog_status first shared ≢ invalid
unfolding watchdog_status
watchdog_status-valid timer shared = λ e. cc
watchdog_status-valid (worker signaled) shared = λ e. cc
watchdog_status-valid (worker (exited code)) shared = elim (Bool-cases (code == 0)) [
  | inl zero ↦ rw zero (finished-valid shared)
  | inr other ↦ rw other (λ e. cc)
]
