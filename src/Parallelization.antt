-- ===== src/Parallelization.antt =====
-- lib/Parallelization/TaskExecutor.cpp, include/mull/Parallelization/TaskExecutor.h and the filter
-- loops of lib/Driver.cpp. A task is the function that its call operator is: it takes the items of
-- its range and appends to its storage. Progress stands in a module of its own. A failed assert
-- is `none`, and so is a number of items that `int` does not hold.
mod Tests
pub mod Batches
pub mod Execution
pub mod Filtering
pub mod Progress
use mull.Base.{
  ℕ, zero, suc, ◌+◌, ◌-◌, ◌/◌, ◌%◌, ◌^◌, List, [], ◌∷◌, ◌++◌, Option, none, some, Bool, ◌||◌, ltb,
  leb, ◌==◌, if◌then◌else◌, length, take, drop,
}

-- The loop of `taskBatches` with `left` rounds to go; the sum `s` comes with the batches.
pub batch_loop : (n m left k end s : ℕ) → List ℕ × ℕ
batch_loop n m zero k end s = ([], s)
batch_loop n m (suc left) k end s =
    let q = (n - k) / m in
    let r = (n - k) % m in
    let start = end in
    let end' = end + q + (if r == 0 then 0 else 1) in
    let rest = batch_loop n m left (k + 1) end' (s + end' - start) in
    ((end' - start) ∷ rest.0, rest.1)

pub task_batches : (items_count tasks : ℕ) → Option (List ℕ)
unfolding batch_loop
task_batches items_count tasks =
    let (result, s) = batch_loop items_count tasks tasks 0 0 0 in
    if ltb items_count tasks || leb (2 ^ 31) items_count
    then none
    else if s == items_count
    then some result
    else none

abbrev pub minimum : ℕ → ℕ → ℕ
minimum a b = if ltb b a then b else a

abbrev pub Task : (A B : Type 0) → Type 0
Task A B = List A → List B → List B

abbrev pub push_all : {B : Type 0} → List (List B) → List B → List B
push_all [] out = out
push_all (storage ∷ storages) out = push_all storages (out ++ storage)

module _ {A B : Type 0} where
  -- The workers' storages, in the order of the workers, each over the next batch of items.
  pub run_batches : List (Task A B) → List ℕ → List A → List (List B)
  run_batches [] batches xs = []
  run_batches (task ∷ tasks) [] xs = []
  run_batches (task ∷ tasks) (group ∷ batches) xs =
      task (take group xs) [] ∷ run_batches tasks batches (drop group xs)

  -- The part of `executeInParallel` after the items are split.
  abbrev pub execute_batches : List (Task A B) → List A → List B → Option (List ℕ) → Option (List B)
  execute_batches tasks xs out none = none
  execute_batches tasks xs out (some batches) = some (push_all (run_batches tasks batches xs) out)

  pub execute_in_parallel : List (Task A B) → List A → List B → Option (List B)
  unfolding task_batches
  execute_in_parallel tasks xs out =
      execute_batches tasks xs out (task_batches (length xs) (minimum (length xs) (length tasks)))

  pub execute : List (Task A B) → List A → List B → Option (List B)
  unfolding execute_in_parallel
  execute [] xs out = some out
  execute (task ∷ tasks) [] out = some out
  execute (task ∷ tasks) (x ∷ xs) out =
      if (length (task ∷ tasks) == 1) || (length (x ∷ xs) == 1)
      then some (task (x ∷ xs) out)
      else execute_in_parallel (task ∷ tasks) (x ∷ xs) out

-- `MutationFilterTask` and `FunctionFilterTask`.
pub filter_task : {A : Type 0} → (A → Bool) → Task A A
filter_task should_skip [] storage = storage
filter_task should_skip (point ∷ points) storage =
    filter_task should_skip points (if should_skip point then storage else storage ++ point ∷ [])

abbrev pub replicate {ℓ} : {A : Type ℓ} → ℕ → A → List A
replicate zero a = []
replicate (suc n) a = a ∷ replicate n a

abbrev pub and_then : {A : Type 0} → Option (List A) → (List A → Option (List A)) → Option (List A)
and_then none next = none
and_then (some xs) next = next xs

-- `Driver::filterMutations` and `Driver::filterFunctions`: one executor for each filter, with as many
-- tasks as there are workers.
pub filter_mutations : {A : Type 0} → (workers : ℕ) → List (A → Bool) → List A → Option (List A)
unfolding filter_task execute
filter_mutations workers [] mutations = some mutations
filter_mutations workers (should_skip ∷ filters) mutations =
    and_then (execute (replicate workers (filter_task should_skip)) mutations [])
      λ tmp. filter_mutations workers filters tmp
