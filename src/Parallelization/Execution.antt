-- ===== src/Parallelization/Execution.antt =====
-- `TaskExecutor::execute` (include/mull/Parallelization/TaskExecutor.h) gives what one task gives.
use native.Mathlib.Nat.{mod-lt}
use native.Mathlib.Omega.{div_any}
use mull.Base.{
  ℕ, zero, suc, ◌+◌, ◌-◌, ◌*◌, ◌/◌, ◌%◌, ◌^◌, ◌≤◌, ◌<◌, ◌≡◌, refl, sym, ap, ◌∙◌, List, [], ◌∷◌,
  ◌++◌, some, arith, ◌==◌, ◌||◌, length, take, drop, take-append-drop, All, inl, inr, Bool-cases,
  append_assoc, append-nil,
}
use mull.Parallelization.{
  Task, task_batches, minimum, push_all, run_batches, execute_batches, execute_in_parallel, execute,
  replicate,
}
use mull.Parallelization.Batches.{task_batches-even}

abbrev pub sum : List ℕ → ℕ
sum [] = 0
sum (x ∷ xs) = x + sum xs

sum-replicate_all : (n a : ℕ) → sum (replicate n a) ≡ n * a
sum-replicate_all zero a = omega arith
sum-replicate_all (suc n) a = omega (arith, sum-replicate_all n a)

length-replicate : (n a : ℕ) → length (replicate n a) ≡ n
length-replicate zero a = refl
length-replicate (suc n) a = omega (arith, length-replicate n a)

sum-replicate : (n a : ℕ) (rest : List ℕ) → sum (replicate n a ++ rest) ≡ n * a + sum rest
sum-replicate zero a rest = omega arith
sum-replicate (suc n) a rest = omega (arith, sum-replicate n a rest)

length-replicate_append :
    (n a : ℕ) (rest : List ℕ) → length (replicate n a ++ rest) ≡ n + length rest
length-replicate_append zero a rest = omega arith
length-replicate_append (suc n) a rest = omega (arith, length-replicate_append n a rest)

-- Distributing over the two sizes of batch.
share : (q r m : ℕ) → r ≤ m → r * (q + 1) + (m - r) * q ≡ m * q + r
share q r m h = let e : m ≡ r + (m - r) = omega arith in omega (arith, e, ap (λ k. k * q) e)

module _ {A : Type 0} where
  length-drop : (n : ℕ) (xs : List A) → length (drop n xs) ≡ length xs - n
  length-drop zero xs = omega arith
  length-drop (suc n) [] = omega arith
  length-drop (suc n) (x ∷ xs) = omega (arith, length-drop n xs)

module _ {A B : Type 0} where
  abbrev pub flat_map : (A → List B) → List A → List B
  flat_map body [] = []
  flat_map body (x ∷ xs) = body x ++ flat_map body xs

  flat_map-append :
      (body : A → List B) (xs ys : List A)
      → flat_map body (xs ++ ys) ≡ flat_map body xs ++ flat_map body ys
  flat_map-append body [] ys = refl
  flat_map-append body (x ∷ xs) ys =
      ap (λ l. body x ++ l) (flat_map-append body xs ys)
      ∙ sym (append_assoc (body x) (flat_map body xs) (flat_map body ys))

  -- The task appends, for each item in turn, what `body` gives for it.
  abbrev pub Appends : (A → List B) → Task A B → Type 0
  Appends body task = (xs : List A) (out : List B) → task xs out ≡ out ++ flat_map body xs

  push_all-run_batches :
      (body : A → List B) (tasks : List (Task A B)) (batches : List ℕ) (xs : List A) (out : List B)
      → All (Appends body) tasks
      → length batches ≤ length tasks
      → length xs ≤ sum batches
      → push_all (run_batches tasks batches xs) out ≡ out ++ flat_map body xs
  unfolding run_batches
  push_all-run_batches body [] [] [] out a h e = sym (append-nil out)
  push_all-run_batches body [] [] (x ∷ xs) out a h e = absurd (omega arith)
  push_all-run_batches body [] (group ∷ batches) xs out a h e = absurd (omega arith)
  push_all-run_batches body (task ∷ tasks) [] [] out a h e = sym (append-nil out)
  push_all-run_batches body (task ∷ tasks) [] (x ∷ xs) out a h e = absurd (omega arith)
  push_all-run_batches body (task ∷ tasks) (group ∷ batches) xs out (t, a) h e =
      push_all-run_batches body tasks batches (drop group xs) (out ++ task (take group xs) []) a
        (omega arith) (omega (arith, length-drop group xs))
      ∙ ap (λ l. (out ++ l) ++ flat_map body (drop group xs)) (t (take group xs) [])
      ∙ append_assoc out (flat_map body (take group xs)) (flat_map body (drop group xs))
      ∙ ap (λ l. out ++ l)
          (sym (flat_map-append body (take group xs) (drop group xs))
            ∙ ap (flat_map body) (take-append-drop group xs))

  execute_in_parallel-flat_map :
      (body : A → List B) (tasks : List (Task A B)) (xs : List A) (out : List B)
      → All (Appends body) tasks
      → 0 < length tasks
      → 0 < length xs
      → length xs < 2 ^ 31
      → execute_in_parallel tasks xs out ≡ some (out ++ flat_map body xs)
  unfolding execute_in_parallel
  execute_in_parallel-flat_map body tasks xs out a some_task some_item small =
      let workers = minimum (length xs) (length tasks) in
      let positive : 0 < workers = ground arith in
      let fewer : workers ≤ length xs = ground arith in
      let available : workers ≤ length tasks = ground arith in
      let items = length xs in
      let big = items / workers + 1 in
      let batches =
        replicate (items % workers) big
        ++ replicate (workers - items % workers) (items / workers) in
      let e : task_batches items workers ≡ some batches =
        task_batches-even items workers positive fewer small in
      let rest = items % workers in
      let split : workers * (items / workers) + rest ≡ items = div_any items workers in
      let rest_lt : rest < workers = mod-lt items positive in
      let count_ok : length batches ≤ length tasks = omega (
        arith,
        length-replicate_append rest big (replicate (workers - rest) (items / workers)),
        length-replicate (workers - rest) (items / workers),
      ) in
      let sum_ok : length xs ≤ sum batches = omega (
        arith,
        split,
        sum-replicate rest big (replicate (workers - rest) (items / workers)),
        sum-replicate_all (workers - rest) (items / workers),
        share (items / workers) rest workers (omega arith),
      ) in
      ap (execute_batches tasks xs out) e
      ∙ ap some (push_all-run_batches body tasks batches xs out a count_ok sum_ok)

  -- With at least one task, all of which append what `body` gives for each item, and a number of items
  -- that `int` holds, `execute` appends that for all items, in their order, whatever the number of tasks.
  pub execute-flat_map :
      (body : A → List B) (tasks : List (Task A B)) (xs : List A) (out : List B)
      → All (Appends body) tasks
      → 0 < length tasks
      → length xs < 2 ^ 31
      → execute tasks xs out ≡ some (out ++ flat_map body xs)
  unfolding execute
  execute-flat_map body [] xs out a some_task small = absurd (omega arith)
  execute-flat_map body (task ∷ tasks) [] out a some_task small = ap some (sym (append-nil out))
  execute-flat_map body (task ∷ tasks) (x ∷ xs) out a some_task small =
      elim (Bool-cases ((length (task ∷ tasks) == 1) || (length (x ∷ xs) == 1))) [
        | inl one ↦ rw one (ap some (a.0 (x ∷ xs) out))
        | inr more ↦ rw more (
            execute_in_parallel-flat_map body (task ∷ tasks) (x ∷ xs) out a some_task (omega arith)
              small)
      ]
