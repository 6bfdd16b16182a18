-- ===== src/CallTree/Trace.antt =====
-- Executions of an instrumented program as sequences of calls of `mull_enterFunction` and
-- `mull_leaveFunction` (lib/Instrumentation/Callbacks.cpp), and what the mapping is after them.
use mull.Base.{
  ℕ, suc, ◌≤◌, ◌<◌, ◌≡◌, subst, ◌≢◌, ◌⊎◌, inl, inr, List, [], ◌∷◌, Option, none, some, arith, ◌+◌,
  refl, length, Option-cases, OnSome, OnSome-elim, ◌==◌, if◌then◌else◌, All, update, Bool-cases,
}
use native.Mathlib.Nat.{zero-add}
use mull.CallTree.{
  InstrumentationInfo, empty_info, enter_mapping, enter_function, leave_function, pop_stack, caller,
}

pub data Event : Type 0 where
  enter leave : ℕ → Event

unfoldable pub step : Event → InstrumentationInfo → Option InstrumentationInfo
unfolding enter_function leave_function
step (enter i) s = enter_function i s
step (leave i) s = leave_function i s

abbrev bind_info :
    Option InstrumentationInfo
    → (InstrumentationInfo → Option InstrumentationInfo)
    → Option InstrumentationInfo
bind_info none f = none
bind_info (some s) f = f s

-- The state after a whole execution.
unfoldable pub run : List Event → InstrumentationInfo → Option InstrumentationInfo
unfolding step
run [] s = some s
run (e ∷ es) s = bind_info (step e s) (run es)

-- Every event names one of the `size` functions.
abbrev pub IsBelow : ℕ → Event → Type 0
IsBelow size (enter i) = i < size
IsBelow size (leave i) = i < size

-- Ranks fall from each called function to its caller, so following callers ends. The rank is at
-- most `bound`, and the caller of a called function is the phony root or was called itself.
pub record IsRanked (mapping rank : ℕ → ℕ) (size bound : ℕ) : Type 0 where
  pub null : mapping 0 ≡ 0
  pub rank_null : rank 0 ≡ 0
  pub falls : (i : ℕ) → mapping i ≢ 0 → rank (caller mapping i) < rank i
  pub bounded : (i : ℕ) → mapping i ≢ 0 → rank i ≤ bound
  pub called : (i : ℕ) → mapping i ≢ 0 → (caller mapping i ≡ 0) ⊎ (mapping (caller mapping i) ≢ 0)
  pub below : (i : ℕ) → mapping i ≢ 0 → i < size

-- The ranks after `i` is entered: a new function gets a rank above its caller's.
abbrev enter_rank : ℕ → (ℕ → ℕ) → (ℕ → ℕ) → List ℕ → ℕ → ℕ
enter_rank i mapping rank [] = if mapping i == 0 then update rank i 1 else rank
enter_rank i mapping rank (top ∷ rest) =
    if mapping i == 0 then update rank i (suc (rank top)) else rank

module _ {mapping rank : ℕ → ℕ} {size bound : ℕ} (i : ℕ) (positive : i ≢ 0) (fits : i < size)
    (r : IsRanked mapping rank size bound) where
  enter_first-IsRanked :
      IsRanked (enter_mapping i mapping []) (enter_rank i mapping rank []) size (suc bound)
  unfolding enter_mapping
  enter_first-IsRanked = record {
    null = ground (arith, r.null);
    rank_null = ground (arith, r.rank_null, r.null);
    falls = λ j h. ground (arith, r.falls j, r.falls i, r.called j, r.null, r.rank_null);
    bounded = λ j h. ground (arith, r.bounded j);
    called = λ j h. ground (arith, r.called j, r.null);
    below = λ j h. ground (arith, r.below j);
  }

  enter_next-IsRanked :
      (top : ℕ) (rest : List ℕ)
      → mapping top ≢ 0
      → IsRanked
          (enter_mapping i mapping (top ∷ rest))
          (enter_rank i mapping rank (top ∷ rest))
          size
          (suc bound)
  unfolding enter_mapping
  enter_next-IsRanked top rest h = record {
    null = ground (arith, r.null);
    rank_null = ground (arith, r.rank_null);
    falls = λ j hj. ground (arith, r.falls j, r.called j, r.null);
    bounded = λ j hj. ground (arith, r.bounded j, r.bounded top);
    called = λ j hj. ground (arith, r.called j, r.null);
    below = λ j hj. ground (arith, r.below j);
  }

-- Whatever is on the callstack was called.
pub record IsTraced (size bound : ℕ) (s : InstrumentationInfo) : Type 0 where
  pub rank : ℕ → ℕ
  pub ranked : IsRanked s.mapping rank size bound
  pub active : All (λ i. s.mapping i ≢ 0) s.callstack

enter-active :
    (i : ℕ) (mapping : ℕ → ℕ) (above stack : List ℕ)
    → i ≢ 0
    → All (λ j. mapping j ≢ 0) above
    → All (λ j. mapping j ≢ 0) stack
    → All (λ j. enter_mapping i mapping above j ≢ 0) stack
unfolding enter_mapping
enter-active i mapping above [] p a h = tt
enter-active i mapping [] (j ∷ stack) p a h =
    (ground (arith, h.0), enter-active i mapping [] stack p a h.1)
enter-active i mapping (top ∷ above) (j ∷ stack) p a h =
    (ground (arith, h.0, a.0), enter-active i mapping (top ∷ above) stack p a h.1)

entered-called :
    (i : ℕ) (mapping : ℕ → ℕ) (stack : List ℕ)
    → i ≢ 0
    → mapping 0 ≡ 0
    → All (λ j. mapping j ≢ 0) stack
    → enter_mapping i mapping stack i ≢ 0
unfolding enter_mapping
entered-called i mapping [] p z a = ground arith
entered-called i mapping (top ∷ rest) p z a = ground (arith, a.0)

IsRanked-mono :
    {mapping rank : ℕ → ℕ} {size bound : ℕ}
    → IsRanked mapping rank size bound
    → IsRanked mapping rank size (suc bound)
IsRanked-mono r = record {
  null = r.null;
  rank_null = r.rank_null;
  falls = r.falls;
  bounded = λ i h. omega (arith, r.bounded i h);
  called = r.called;
  below = r.below;
}

entered-IsTraced :
    {size bound : ℕ} (i : ℕ) (mapping : ℕ → ℕ) (stack : List ℕ)
    → i ≢ 0
    → i < size
    → IsTraced size bound (record { mapping = mapping; callstack = stack })
    → IsTraced size
        (suc bound)
        (record { mapping = enter_mapping i mapping stack; callstack = i ∷ stack })
entered-IsTraced i mapping [] p fits v = record {
  rank = enter_rank i mapping v.rank [];
  ranked = enter_first-IsRanked i p fits v.ranked;
  active = (entered-called i mapping [] p v.ranked.null tt, tt);
}
entered-IsTraced i mapping (top ∷ rest) p fits v = record {
  rank = enter_rank i mapping v.rank (top ∷ rest);
  ranked = enter_next-IsRanked i p fits v.ranked top rest v.active.0;
  active = (
    entered-called i mapping (top ∷ rest) p v.ranked.null v.active,
    enter-active i mapping (top ∷ rest) (top ∷ rest) p v.active v.active,
  );
}

popped-IsTraced :
    {size bound : ℕ} (mapping : ℕ → ℕ) (stack : List ℕ)
    → IsTraced size bound (record { mapping = mapping; callstack = stack })
    → OnSome
        (IsTraced size (suc bound))
        (pop_stack (record { mapping = mapping; callstack = stack }))
unfolding pop_stack
popped-IsTraced mapping [] v = tt
popped-IsTraced mapping (top ∷ rest) v = record {
  rank = v.rank;
  ranked = IsRanked-mono v.ranked;
  active = v.active.1;
}

-- One callback keeps the mapping acyclic, with one more rank at most.
pub step-IsTraced :
    {size bound : ℕ} {s : InstrumentationInfo} (e : Event)
    → IsBelow size e
    → IsTraced size bound s
    → OnSome (IsTraced size (suc bound)) (step e s)
unfolding step enter_function leave_function
step-IsTraced {s = s} (enter i) fits v = elim (Bool-cases (i == 0)) [
  | inl is_zero ↦ rw is_zero tt
  | inr positive ↦ rw positive (entered-IsTraced i s.mapping s.callstack (ground arith) fits v)
]
step-IsTraced {s = s} (leave i) fits v = elim (Bool-cases (i == 0)) [
  | inl is_zero ↦ rw is_zero tt
  | inr positive ↦ rw positive (popped-IsTraced s.mapping s.callstack v)
]

run_from-IsTraced :
    {size bound : ℕ} {s : InstrumentationInfo} (es : List Event)
    → All (IsBelow size) es
    → IsTraced size bound s
    → OnSome (IsTraced size (length es + bound)) (run es s)
unfolding run
run_from-IsTraced {size} {bound} {s} [] a v = rw zero-add v
run_from-IsTraced {size} {bound} {s} (e ∷ es) a v = elim (Option-cases (step e s)) [
  | inl stopped ↦ rw stopped tt
  | inr (t, next) ↦ rw next (
      subst (λ k. OnSome (IsTraced size k) (run es t)) (omega arith)
        (run_from-IsTraced {bound = suc bound} es a.1
          (OnSome-elim (IsTraced size (suc bound)) (step-IsTraced e a.0 v) next)))
]

empty-IsTraced : {size : ℕ} → IsTraced size 0 empty_info
empty-IsTraced = record {
  rank = λ _. 0;
  ranked = record {
    null = refl;
    rank_null = refl;
    falls = λ i h. absurd (h refl);
    bounded = λ i h. omega arith;
    called = λ i h. absurd (h refl);
    below = λ i h. absurd (h refl);
  };
  active = tt;
}

-- After any execution whose events name functions below the size and which the callbacks accept,
-- the recorded mapping is acyclic: callers have smaller ranks, ranks are at most the number of
-- callbacks, and every function on the callstack was recorded.
pub run-IsTraced :
    (size : ℕ) (es : List Event) (s : InstrumentationInfo)
    → All (IsBelow size) es
    → run es empty_info ≡ some s
    → IsTraced size (length es) s
run-IsTraced size es s a e =
    subst (λ k. IsTraced size k s) (omega arith)
      (OnSome-elim (IsTraced size (length es + 0)) (run_from-IsTraced es a empty-IsTraced) e)
