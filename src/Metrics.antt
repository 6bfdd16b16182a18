-- ===== src/Metrics.antt =====
-- lib/Metrics/Metrics.cpp: the times at which parts of a run begin and end. Durations are 64-bit
-- integers; `metrics.size()` is unsigned, so the mean is an unsigned division. The clock is an argument.
-- Modules, tests and mutants are numbers that stand for their address.
mod Times
mod Durations
mod Tests
use mathlib.Core.Logic.{ite}
use mull.Base.{
  ℕ, ◌+◌, ◌-◌, ◌/◌, ◌%◌, ◌^◌, List, [], ◌∷◌, Option, none, some, ◌==◌, if◌then◌else◌, length,
  ℕ_discrete,
}
use mull.Base.Dict.{lookup, insert}

pub record MetricsMeasure : Type 0 where
  pub begin : ℕ
  pub end : ℕ

abbrev pub new_measure : MetricsMeasure
new_measure = record { begin = 0; end = 0 }

abbrev pub word : ℕ
word = 2 ^ 64

unfoldable pub duration : MetricsMeasure → ℕ
duration m = (m.end + word - m.begin) % word

-- The members with one measure.
pub data Member : Type 0 where
  load_modules instrumented_compilation load_precompiled_object_files find_tests
        load_dynamic_libraries load_original_program original_tests_execution mutants_execution
        run_time report_result :
      Member

-- The members with a measure for each module, test or mutant.
pub data MapMember : Type 0 where
  original_module_compilation instrumented_module_compilation run_original_test find_mutations
        compile_mutant load_mutant :
      MapMember

unfoldable pub member_discrete : Discrete Member
member_discrete = hlevel

unfoldable pub map_member_discrete : Discrete MapMember
map_member_discrete = hlevel

abbrev pub Measures : Type 0
Measures = List (ℕ × MetricsMeasure)

pub record Metrics : Type 0 where
  pub members : Member → MetricsMeasure
  pub maps : MapMember → Measures
  pub mutant_runs : List (ℕ × Measures)

-- What a pair of `begin` and `end` functions measures.
pub data Key : Type 0 where
  member : Member → Key
  entry : MapMember → (key : ℕ) → Key
  mutant_run : (mutant test : ℕ) → Key

abbrev pub or_new {ℓ} : {A : Type ℓ} → A → Option A → A
or_new a none = a
or_new a (some b) = b

-- `measures[key]`, which makes a new measure when there is none, changed by `f`.
abbrev pub change_entry : (MetricsMeasure → MetricsMeasure) → (key : ℕ) → Measures → Measures
change_entry f key measures =
    insert ℕ_discrete key (f (or_new new_measure (lookup ℕ_discrete key measures))) measures

unfoldable pub change : (MetricsMeasure → MetricsMeasure) → Key → Metrics → Metrics
unfolding member_discrete map_member_discrete
change f (member m) s = record s {
  members = λ n. ite (member_discrete m n) (f (s.members n)) (s.members n);
}
change f (entry m key) s = record s {
  maps = λ n. ite (map_member_discrete m n) (change_entry f key (s.maps n)) (s.maps n);
}
change f (mutant_run mutant test) s = record s {
  mutant_runs =
      insert ℕ_discrete mutant
        (change_entry f test (or_new [] (lookup ℕ_discrete mutant s.mutant_runs))) s.mutant_runs;
}

unfoldable pub begin_metric : Key → (now : ℕ) → Metrics → Metrics
unfolding change
begin_metric key now s = change (λ m. record m { begin = now }) key s

unfoldable pub end_metric : Key → (now : ℕ) → Metrics → Metrics
unfolding change
end_metric key now s = change (λ m. record m { end = now }) key s

unfoldable pub accumulate_duration : Measures → ℕ
unfolding duration
accumulate_duration [] = 0
accumulate_duration ((key, m) ∷ measures) = (duration m + accumulate_duration measures) % word

unfoldable pub average_duration : Measures → ℕ
unfolding accumulate_duration
average_duration [] = 0
average_duration (e ∷ measures) = accumulate_duration (e ∷ measures) / length (e ∷ measures)

unfoldable pub total_mutant_run_time : List (ℕ × Measures) → ℕ
unfolding accumulate_duration
total_mutant_run_time [] = 0
total_mutant_run_time ((mutant, measures) ∷ runs) =
    (accumulate_duration measures + total_mutant_run_time runs) % word

unfoldable pub average_mutant_run_time : List (ℕ × Measures) → ℕ
unfolding total_mutant_run_time
average_mutant_run_time runs =
    total_mutant_run_time runs / (if length runs == 0 then 1 else length runs)
