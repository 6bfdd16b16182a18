-- ===== src/Metrics/Times.antt =====
-- The measures of lib/Metrics/Metrics.cpp against the calls that were made.
use mathlib.Core.Logic.{ite}
use mull.Base.{ℕ, List, [], ◌∷◌, ℕ_discrete, ◌≡◌, ◌≢◌, refl, ap, ◌∙◌, subst}
use mull.Base.Dict.{lookup, insert, lookup-insert_self, lookup-insert_ne}
use mull.Metrics.{
  MetricsMeasure, new_measure, Member, Measures, Metrics, Key, member, entry, mutant_run, or_new,
  change_entry, change, member_discrete, map_member_discrete, begin_metric, end_metric,
}

abbrev pub in_map : ℕ → Measures → MetricsMeasure
in_map key measures = or_new new_measure (lookup ℕ_discrete key measures)

abbrev pub runs_of : ℕ → List (ℕ × Measures) → Measures
runs_of mutant runs = or_new [] (lookup ℕ_discrete mutant runs)

-- The measure of a key, a new one when there is none.
abbrev pub measure_of : Key → Metrics → MetricsMeasure
measure_of (member m) s = s.members m
measure_of (entry m key) s = in_map key (s.maps m)
measure_of (mutant_run mutant test) s = in_map test (runs_of mutant s.mutant_runs)

in_map-change_entry :
    (f : MetricsMeasure → MetricsMeasure) (k j : ℕ) (ms : Measures)
    → in_map j (change_entry f k ms) ≡ ite (ℕ_discrete k j) (f (in_map j ms)) (in_map j ms)
in_map-change_entry f k j ms =
    elim (ℕ_discrete k j)
      as (λ d. in_map j (change_entry f k ms) ≡ ite d (f (in_map j ms)) (in_map j ms)) [
        | yes e ↦
            subst (λ x. in_map x (change_entry f k ms) ≡ f (in_map x ms)) e
              (ap (or_new new_measure) (lookup-insert_self ℕ_discrete k (f (in_map k ms)) ms))
        | no apart ↦
            ap (or_new new_measure) (lookup-insert_ne ℕ_discrete k j (f (in_map k ms)) ms apart)
      ]

pub key_discrete : Discrete Key
key_discrete = hlevel (ℕ_discrete)

pub measure_of-change_self :
    (f : MetricsMeasure → MetricsMeasure) (k : Key) (s : Metrics)
    → measure_of k (change f k s) ≡ f (measure_of k s)
unfolding change
measure_of-change_self f (member m) s =
    elim (member_discrete m m) as (λ d. ite d (f (s.members m)) (s.members m) ≡ f (s.members m)) [
      | yes e ↦ refl
      | no apart ↦ absurd (apart refl)
    ]
measure_of-change_self f (entry m key) s =
    elim (map_member_discrete m m)
      as (λ d.
        in_map key (ite d (change_entry f key (s.maps m)) (s.maps m)) ≡ f (in_map key (s.maps m))) [
          | yes e ↦ ap (or_new new_measure) (lookup-insert_self ℕ_discrete key _ (s.maps m))
          | no apart ↦ absurd (apart refl)
        ]
measure_of-change_self f (mutant_run mutant test) s =
    let runs = runs_of mutant s.mutant_runs in
    ap (λ o. in_map test (or_new [] o))
      (lookup-insert_self ℕ_discrete mutant (change_entry f test runs) s.mutant_runs)
    ∙ ap (or_new new_measure) (lookup-insert_self ℕ_discrete test (f (in_map test runs)) runs)

pub measure_of-change_ne :
    (f : MetricsMeasure → MetricsMeasure) (k j : Key) (s : Metrics)
    → k ≢ j
    → measure_of j (change f k s) ≡ measure_of j s
unfolding change
measure_of-change_ne f (member m) (member n) s apart =
    elim (member_discrete m n) as (λ d. ite d (f (s.members n)) (s.members n) ≡ s.members n) [
      | yes e ↦ absurd (apart (ap (λ (x : Member). member x) e))
      | no _ ↦ refl
    ]
measure_of-change_ne f (member m) (entry n key) s apart = refl
measure_of-change_ne f (member m) (mutant_run a b) s apart = refl
measure_of-change_ne f (entry m key) (member n) s apart = refl
measure_of-change_ne f (entry m key) (entry n other) s apart =
    elim (map_member_discrete m n)
      as (λ d.
        in_map other (ite d (change_entry f key (s.maps n)) (s.maps n)) ≡ in_map other (s.maps n)) [
          | yes e ↦ ap (or_new new_measure) (
              lookup-insert_ne ℕ_discrete key other _ (s.maps n)
                (λ k. apart (λ i. entry (e i) (k i))))
          | no _ ↦ refl
        ]
measure_of-change_ne f (entry m key) (mutant_run a b) s apart = refl
measure_of-change_ne f (mutant_run a b) (member n) s apart = refl
measure_of-change_ne f (mutant_run a b) (entry n key) s apart = refl
measure_of-change_ne f (mutant_run a b) (mutant_run c d) s apart = elim (ℕ_discrete a c) [
  | no other ↦
      ap (λ o. in_map d (or_new [] o)) (lookup-insert_ne ℕ_discrete a c _ s.mutant_runs other)
  | yes e ↦
      let runs = runs_of a s.mutant_runs in
      subst
        (λ x.
          in_map d (runs_of x (insert ℕ_discrete a (change_entry f b runs) s.mutant_runs))
          ≡ in_map d (runs_of x s.mutant_runs))
        e
        (ap (λ o. in_map d (or_new [] o))
            (lookup-insert_self ℕ_discrete a (change_entry f b runs) s.mutant_runs)
          ∙ ap (or_new new_measure)
              (lookup-insert_ne ℕ_discrete b d _ runs (λ k. apart (λ i. mutant_run (e i) (k i)))))
]

-- The calls, with the time that the clock shows.
pub data Call : Type 0 where
  begins ends : Key → (now : ℕ) → Call

abbrev pub call : Call → Metrics → Metrics
call (begins k now) s = begin_metric k now s
call (ends k now) s = end_metric k now s

abbrev pub calls : List Call → Metrics → Metrics
calls [] s = s
calls (c ∷ cs) s = calls cs (call c s)

-- The time of the last call of one sort for a key, or the earlier one.
abbrev pub last_begin : Key → List Call → ℕ → ℕ
last_begin k [] before = before
last_begin k (begins j now ∷ cs) before = last_begin k cs (ite (key_discrete j k) now before)
last_begin k (ends j now ∷ cs) before = last_begin k cs before

abbrev pub last_end : Key → List Call → ℕ → ℕ
last_end k [] before = before
last_end k (begins j now ∷ cs) before = last_end k cs before
last_end k (ends j now ∷ cs) before = last_end k cs (ite (key_discrete j k) now before)

measure_of-begin_metric :
    (j k : Key) (now : ℕ) (s : Metrics)
    → measure_of k (begin_metric j now s) ≡ record {
      begin = ite (key_discrete j k) now (measure_of k s).begin;
      end = (measure_of k s).end;
    }
unfolding begin_metric
measure_of-begin_metric j k now s =
    elim (key_discrete j k)
      as (λ d.
        measure_of k (change (λ m. record m { begin = now }) j s)
        ≡ record { begin = ite d now (measure_of k s).begin; end = (measure_of k s).end }) [
          | yes e ↦
              subst
                (λ x.
                  measure_of x (change (λ m. record m { begin = now }) j s)
                  ≡ record { begin = now; end = (measure_of x s).end })
                e (measure_of-change_self (λ m. record m { begin = now }) j s)
          | no apart ↦ measure_of-change_ne (λ m. record m { begin = now }) j k s apart
        ]

measure_of-end_metric :
    (j k : Key) (now : ℕ) (s : Metrics)
    → measure_of k (end_metric j now s) ≡ record {
      begin = (measure_of k s).begin;
      end = ite (key_discrete j k) now (measure_of k s).end;
    }
unfolding end_metric
measure_of-end_metric j k now s =
    elim (key_discrete j k)
      as (λ d.
        measure_of k (change (λ m. record m { end = now }) j s)
        ≡ record { begin = (measure_of k s).begin; end = ite d now (measure_of k s).end }) [
          | yes e ↦
              subst
                (λ x.
                  measure_of x (change (λ m. record m { end = now }) j s)
                  ≡ record { begin = (measure_of x s).begin; end = now })
                e (measure_of-change_self (λ m. record m { end = now }) j s)
          | no apart ↦ measure_of-change_ne (λ m. record m { end = now }) j k s apart
        ]

-- After any calls the measure of a key has the times of the last calls of each sort for that key,
-- or those that it had where there is no such call.
pub calls-last :
    (cs : List Call) (k : Key) (s : Metrics)
    → measure_of k (calls cs s) ≡ record {
      begin = last_begin k cs (measure_of k s).begin;
      end = last_end k cs (measure_of k s).end;
    }
calls-last [] k s = refl
calls-last (begins j now ∷ cs) k s =
    calls-last cs k (begin_metric j now s)
    ∙ ap
        (λ (x : MetricsMeasure). record {
          begin = last_begin k cs x.begin;
          end = last_end k cs x.end;
        })
        (measure_of-begin_metric j k now s)
calls-last (ends j now ∷ cs) k s =
    calls-last cs k (end_metric j now s)
    ∙ ap
        (λ (x : MetricsMeasure). record {
          begin = last_begin k cs x.begin;
          end = last_end k cs x.end;
        })
        (measure_of-end_metric j k now s)
