-- ===== src/Metrics/Tests.antt =====
-- Two tests that run one after the other, and a mutant of one of them.
use mull.Base.{ℕ, ◌+◌, ◌*◌, ◌≤◌, ◌<◌, List, [], ◌∷◌, length, ℕ_discrete, ◌≡◌, refl, arith}
use mull.Base.Dict.{lookup, insert}
use mull.Metrics.{
  new_measure, Member, MapMember, Measures, Metrics, Key, entry, mutant_run, member, begin_metric,
  end_metric, change, average_duration, duration, accumulate_duration, member_discrete,
  map_member_discrete,
}
use mull.Metrics.Times.{Call, begins, ends, calls, measure_of, last_begin, last_end, calls-last}
use mull.Metrics.Durations.{sum_of_times, average_duration-sum}

abbrev start : Metrics
start = record { members = λ m. new_measure; maps = λ m. []; mutant_runs = [] }

abbrev test_run : ℕ → Key
test_run test = entry MapMember.run_original_test test

abbrev log : List Call
log =
    begins (member Member.run_time) 5
    ∷ begins (test_run 1) 10
    ∷ ends (test_run 1) 14
    ∷ begins (test_run 2) 14
    ∷ begins (mutant_run 7 2) 15
    ∷ ends (mutant_run 7 2) 19
    ∷ ends (test_run 2) 21
    ∷ []

second_test : measure_of (test_run 2) (calls log start) ≡ record { begin = 14; end = 21 }
unfolding begin_metric end_metric change lookup insert ℕ_discrete member_discrete
    map_member_discrete
second_test = refl

calls-last_example :
    measure_of (mutant_run 7 2) (calls log start)
    ≡ record { begin = last_begin (mutant_run 7 2) log 0; end = last_end (mutant_run 7 2) log 0 }
unfolding lookup
calls-last_example = calls-last log (mutant_run 7 2) start

abbrev tests : Measures
tests = (1, record { begin = 10; end = 14 }) ∷ (2, record { begin = 14; end = 21 }) ∷ []

mean_of_tests : average_duration tests ≡ 5
unfolding average_duration accumulate_duration duration
mean_of_tests = refl

average_duration-sum_example :
    (average_duration tests * length tests ≤ sum_of_times tests)
    × (sum_of_times tests < (average_duration tests * length tests) + length tests)
average_duration-sum_example =
    average_duration-sum (1, record { begin = 10; end = 14 })
      ((2, record { begin = 14; end = 21 }) ∷ [])
      ((omega arith, omega arith), ((omega arith, omega arith), tt)) (omega arith)
