-- ===== src/Parallelization/Filtering.antt =====
-- `Driver::filterMutations` and `Driver::filterFunctions` (lib/Driver.cpp) keep what no filter skips.
use mull.Base.{
  ℕ, zero, suc, ◌^◌, ◌≤◌, ◌<◌, ◌≡◌, refl, sym, ap, ◌∙◌, List, [], ◌∷◌, ◌++◌, some, arith, Bool,
  true, if◌then◌else◌, length, All, inl, inr, Bool-cases, append_assoc, append-nil,
}
use mull.ReachableFunction.Selection.{filter, none_skips}
use mull.Parallelization.{filter_task, replicate, execute, and_then, filter_mutations}
use mull.Parallelization.Execution.{flat_map, Appends, execute-flat_map}

abbrev keep : {A : Type 0} → (A → Bool) → A → List A
keep should_skip x = if should_skip x then [] else x ∷ []

filter_task-Appends :
    {A : Type 0} (should_skip : A → Bool) → Appends (keep should_skip) (filter_task should_skip)
unfolding filter_task
filter_task-Appends should_skip [] out = sym (append-nil out)
filter_task-Appends should_skip (x ∷ xs) out = elim (Bool-cases (should_skip x)) [
  | inl skips ↦ rw skips (filter_task-Appends should_skip xs out)
  | inr keeps ↦ rw keeps (
      filter_task-Appends should_skip xs (out ++ x ∷ [])
      ∙ append_assoc out (x ∷ []) (flat_map (keep should_skip) xs))
]

pub All-replicate {ℓ κ} :
    {A : Type ℓ} (P : A → Type κ) (n : ℕ) (a : A) → P a → All P (replicate n a)
All-replicate P zero a p = tt
All-replicate P (suc n) a p = (p, All-replicate P n a p)

pub length-replicate {ℓ} : {A : Type ℓ} (n : ℕ) (a : A) → length (replicate n a) ≡ n
length-replicate zero a = refl
length-replicate (suc n) a = omega (arith, length-replicate n a)

length-flat_map_keep :
    {A : Type 0} (should_skip : A → Bool) (xs : List A)
    → length (flat_map (keep should_skip) xs) ≤ length xs
length-flat_map_keep should_skip [] = omega arith
length-flat_map_keep should_skip (x ∷ xs) = elim (Bool-cases (should_skip x)) [
  | inl skips ↦ rw skips (omega (arith, length-flat_map_keep should_skip xs))
  | inr keeps ↦ rw keeps (omega (arith, length-flat_map_keep should_skip xs))
]

filter-keep :
    {A : Type 0} (should_skip : A → Bool) (filters : List (A → Bool)) (xs : List A)
    → filter (λ i. none_skips i filters) (flat_map (keep should_skip) xs)
      ≡ filter (λ i. none_skips i (should_skip ∷ filters)) xs
filter-keep should_skip filters [] = refl
filter-keep should_skip filters (x ∷ xs) = elim (Bool-cases (should_skip x)) [
  | inl skips ↦ rw skips (filter-keep should_skip filters xs)
  | inr keeps ↦ elim (Bool-cases (none_skips x filters)) [
    | inl stays ↦ rw (keeps, stays) (ap (λ l. x ∷ l) (filter-keep should_skip filters xs))
    | inr goes ↦ rw (keeps, goes) (filter-keep should_skip filters xs)
  ]
]

filter-true : {A : Type 0} (xs : List A) → filter (λ i. true) xs ≡ xs
filter-true [] = refl
filter-true (x ∷ xs) = ap (λ l. x ∷ l) (filter-true xs)

-- With at least one worker and a number of mutations that `int` holds, filtering gives, in order,
-- the mutations that no filter skips, whatever the number of workers.
pub filter_mutations-filter :
    {A : Type 0} (workers : ℕ) (filters : List (A → Bool)) (mutations : List A)
    → 0 < workers
    → length mutations < 2 ^ 31
    → filter_mutations workers filters mutations
      ≡ some (filter (λ i. none_skips i filters) mutations)
unfolding filter_mutations
filter_mutations-filter workers [] mutations positive small = ap some (sym (filter-true mutations))
filter_mutations-filter workers (should_skip ∷ filters) mutations positive small =
    let e : execute (replicate workers (filter_task should_skip)) mutations []
        ≡ some (flat_map (keep should_skip) mutations) =
      execute-flat_map (keep should_skip) (replicate workers (filter_task should_skip)) mutations []
        (All-replicate (Appends (keep should_skip)) workers (filter_task should_skip)
          (filter_task-Appends should_skip))
        (omega (arith, length-replicate workers (filter_task should_skip))) small in
    ap (λ o. and_then o (filter_mutations workers filters)) e
    ∙ filter_mutations-filter workers filters (flat_map (keep should_skip) mutations) positive
        (omega (arith, length-flat_map_keep should_skip mutations))
    ∙ ap some (filter-keep should_skip filters mutations)
