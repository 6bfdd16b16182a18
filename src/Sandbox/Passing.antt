-- ===== src/Sandbox/Passing.antt =====
-- That a test passed, said by equality of statuses, as the operators of the source say it.
use mathlib.Core.Logic.{ite}
use mull.Base.{Bool, true, false, ◌≡◌, refl}
use mull.Sandbox.{ExecutionStatus, is_passed}

unfoldable pub status_discrete : Discrete ExecutionStatus
status_discrete = hlevel

abbrev pub has_passed : ExecutionStatus → Bool
has_passed status = ite (status_discrete status ExecutionStatus.passed) true false

pub is_passed-has_passed : (status : ExecutionStatus) → is_passed status ≡ has_passed status
unfolding status_discrete
is_passed-has_passed ExecutionStatus.invalid = refl
is_passed-has_passed ExecutionStatus.failed = refl
is_passed-has_passed ExecutionStatus.passed = refl
is_passed-has_passed ExecutionStatus.timedout = refl
is_passed-has_passed ExecutionStatus.crashed = refl
is_passed-has_passed ExecutionStatus.abnormal_exit = refl
is_passed-has_passed ExecutionStatus.dry_run = refl
is_passed-has_passed ExecutionStatus.fail_fast = refl
