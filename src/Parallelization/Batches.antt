-- ===== src/Parallelization/Batches.antt =====
-- `taskBatches` (lib/Parallelization/TaskExecutor.cpp) splits the items evenly.
use native.Mathlib.Nat.{div-eq_of_lt-le, mod-lt}
use native.Mathlib.Omega.{div_any}
use mull.Base.{
  ℕ, zero, suc, ◌+◌, ◌-◌, ◌*◌, ◌/◌, ◌%◌, ◌^◌, ◌≤◌, ◌<◌, ◌≡◌, refl, sym, ap, ◌∙◌, List, [], ◌∷◌,
  ◌++◌, some, arith, ltb, ◌==◌, if◌then◌else◌, inl, inr, Bool-cases, true, false, leb,
}
use mull.Parallelization.{batch_loop, task_batches, replicate}

-- A number between two multiples of `m` has a known quotient and remainder.
div_mod-of : (a m q r : ℕ) → r < m → a ≡ q * m + r → (a / m ≡ q) × (a % m ≡ r)
div_mod-of a m q r h e =
    let quotient : a / m ≡ q = div-eq_of_lt-le m (omega (arith, e)) (omega (arith, e, h)) in
    let split : m * q + a % m ≡ a = ap (λ x. m * x + a % m) (sym quotient) ∙ div_any a m in
    (quotient, omega (arith, split, e))

-- The size that the loop computes for the batch `k`.
abbrev batch : (n m k : ℕ) → ℕ
batch n m k = (n - k) / m + (if (n - k) % m == 0 then 0 else 1)

batch-even :
    (m q r k : ℕ)
    → r < m
    → k < m
    → batch (suc q * m + r) m k ≡ (if ltb k r then suc (suc q) else suc q)
batch-even m q r k hr hk = elim (Bool-cases (ltb k r)) [
  | inl big ↦
      let (a, b) = div_mod-of (suc q * m + r - k) m (suc q) (r - k) (omega arith) (ground arith) in
      ground (arith, a, b, big)
  | inr small ↦ elim (Bool-cases (k == r)) [
    | inl at_r ↦
        let (a, b) = div_mod-of (suc q * m + r - k) m (suc q) 0 (omega arith) (ground arith) in
        ground (arith, a, b, small)
    | inr after ↦
        let (a, b) = div_mod-of (suc q * m + r - k) m q (m + r - k) (ground arith) (ground arith) in
        ground (arith, a, b, small)
  ]
]

-- `left` batches from the batch `k` on: one item more in those before the batch `r`.
abbrev even : (q r left k : ℕ) → List ℕ
even q r zero k = []
even q r (suc left) k = (if ltb k r then suc (suc q) else suc q) ∷ even q r left (k + 1)

batch_loop-even :
    (m q r left k end s : ℕ)
    → r < m
    → k + left ≡ m
    → batch_loop (suc q * m + r) m left k end s ≡ (even q r left k, s + left * suc q + (r - k))
unfolding batch_loop
batch_loop-even m q r zero k end s hr hk = ap (λ x. ([], x)) (omega arith)
batch_loop-even m q r (suc left) k end s hr hk =
    let rec =
      batch_loop-even m q r left (k + 1)
        (end + (suc q * m + r - k) / m + (if (suc q * m + r - k) % m == 0 then 0 else 1))
        (s
          + (end + (suc q * m + r - k) / m + (if (suc q * m + r - k) % m == 0 then 0 else 1))
          - end)
        hr (omega arith) in
    ap
      (λ (p : List ℕ × ℕ). (
        (end + (suc q * m + r - k) / m + (if (suc q * m + r - k) % m == 0 then 0 else 1) - end)
            ∷ p.0,
        p.1,
      ))
      rec
    ∙ (λ i. ((head i) ∷ even q r left (k + 1), total i))
  where
    head :
        (end + (suc q * m + r - k) / m + (if (suc q * m + r - k) % m == 0 then 0 else 1)) - end
        ≡ (if ltb k r then suc (suc q) else suc q)
    head = omega (arith, batch-even m q r k hr (omega arith))

    total :
        s
          + (end + (suc q * m + r - k) / m + (if (suc q * m + r - k) % m == 0 then 0 else 1))
          - end
          + left * suc q
          + (r - (k + 1))
        ≡ s + suc left * suc q + (r - k)
    total = ground (arith, batch-even m q r k hr (omega arith))

even-late : (q r left k : ℕ) → r ≤ k → even q r left k ≡ replicate left (suc q)
even-late q r zero k h = refl
even-late q r (suc left) k h =
    let e : ltb k r ≡ false = ground arith in
    rw e (ap (λ l. suc q ∷ l) (even-late q r left (k + 1) (omega arith)))

even-replicate :
    (q r n left k d : ℕ)
    → k + d ≡ r
    → n ≡ d + left
    → even q r n k ≡ replicate d (suc (suc q)) ++ replicate left (suc q)
even-replicate q r n left k zero h e =
    ap (λ l. even q r l k) {x = n} {y = left} (omega (arith, e))
    ∙ even-late q r left k (omega arith)
even-replicate q r zero left k (suc d) h e = absurd (omega (arith, e))
even-replicate q r (suc n) left k (suc d) h e =
    let before : ltb k r ≡ true = ground arith in
    rw before (
      ap (λ l. suc (suc q) ∷ l)
        (even-replicate q r n left (k + 1) d (omega arith) (omega (arith, e))))

task_batches-of :
    (m q r : ℕ)
    → r < m
    → suc q * m + r < 2 ^ 31
    → task_batches (suc q * m + r) m ≡ some (replicate r (suc (suc q)) ++ replicate (m - r) (suc q))
unfolding task_batches
task_batches-of m q r h small =
    let run = batch_loop-even m q r m 0 0 0 h (omega arith) in
    let enough : ltb (suc q * m + r) m ≡ false = ground arith in
    let fits : leb (2 ^ 31) (suc q * m + r) ≡ false = ground arith in
    let sum : (0 + m * suc q + (r - 0) == suc q * m + r) ≡ true = ground arith in
    rw (enough, fits, run, sum)
      (ap some (even-replicate q r m (m - r) 0 r (omega arith) (omega arith)))

-- For at least as many items as tasks, at least one task, and a number of items that `int` holds:
-- `taskBatches` ends without a failed assertion, and each of the first `items % tasks` batches has
-- one item more than `items / tasks`, each of the others that many.
pub task_batches-even :
    (items tasks : ℕ)
    → 0 < tasks
    → tasks ≤ items
    → items < 2 ^ 31
    → task_batches items tasks
      ≡ some (
          replicate (items % tasks) (items / tasks + 1)
          ++ replicate (tasks - items % tasks) (items / tasks))
task_batches-even items tasks positive enough small =
    let q = items / tasks in
    let r = items % tasks in
    let split : tasks * q + r ≡ items = div_any items tasks in
    let r_lt : r < tasks = mod-lt items positive in by_quotient q r split r_lt refl refl
  where
    by_quotient :
        (q r : ℕ)
        → tasks * q + r ≡ items
        → r < tasks
        → items / tasks ≡ q
        → items % tasks ≡ r
        → task_batches items tasks
          ≡ some (
              replicate (items % tasks) (items / tasks + 1)
              ++ replicate (tasks - items % tasks) (items / tasks))
    by_quotient zero r split r_lt eq er = absurd (omega (arith, split))
    by_quotient (suc q) r split r_lt eq er =
        let e : items ≡ suc q * tasks + r = omega (arith, split) in
        let succ : suc q + 1 ≡ suc (suc q) = omega arith in
        rw (eq, er, succ)
          (ap (λ n. task_batches n tasks) e ∙ task_batches-of tasks q r r_lt (omega (arith, e)))
