-- ===== src/Reporters/Ide/Counts.antt =====
-- The lists and counts of lib/Reporters/IDEReporter.cpp.
use mull.Base.{
  ℕ, ◌+◌, ◌^◌, ◌<◌, List, [], ◌∷◌, ◌++◌, Bool, true, false, not, ◌&&◌, ◌||◌, ltb, ◌==◌, ==_iff,
  if◌then◌else◌, length, count, All, map, Bool-cases, inl, inr, ◌≡◌, refl, sym, ap, ◌∙◌, subst,
  arith, fun_ext, some, ◌>>=◌,
}
use mull.ReachableFunction.Selection.{filter}
use mull.Sandbox.{ExecutionStatus}
use mull.Sandbox.Passing.{status_discrete, has_passed}
use mull.Reporters.Ide.{
  Execution, is_member, set_add, mutant_survived, killed_mutants, SourceLocation, Line, title,
  all_killed, score, print_mutants, size_difference, report_lists, report_results,
}
use mull.Reporters.Ide.Carets.{HasColumn, shown, print_mutant-shown}

-- Some execution of the mutant did not pass.
abbrev pub is_killed : List Execution → ℕ → Bool
is_killed [] m = false
is_killed (e ∷ es) m = (not (has_passed e.status) && (e.mutation_point == m)) || is_killed es m

mutant_survived-has_passed : (status : ExecutionStatus) → mutant_survived status ≡ has_passed status
unfolding mutant_survived status_discrete
mutant_survived-has_passed ExecutionStatus.passed = refl
mutant_survived-has_passed ExecutionStatus.invalid = refl
mutant_survived-has_passed ExecutionStatus.failed = refl
mutant_survived-has_passed ExecutionStatus.timedout = refl
mutant_survived-has_passed ExecutionStatus.crashed = refl
mutant_survived-has_passed ExecutionStatus.abnormal_exit = refl
mutant_survived-has_passed ExecutionStatus.dry_run = refl
mutant_survived-has_passed ExecutionStatus.fail_fast = refl

is_member-set_add :
    (m k : ℕ) (ks : List ℕ) → is_member m (set_add k ks) ≡ ((k == m) || is_member m ks)
is_member-set_add m k ks = elim (Bool-cases (is_member k ks)) [
  | inl old ↦ rw old (ground (arith, ap (λ (x : ℕ). is_member x ks)))
  | inr new ↦ ground arith
]

pub is_member-killed_mutants :
    (m : ℕ) (es : List Execution) (ks : List ℕ)
    → is_member m (killed_mutants es ks) ≡ (is_killed es m || is_member m ks)
unfolding killed_mutants
is_member-killed_mutants m [] ks = refl
is_member-killed_mutants m (e ∷ es) ks =
    let same = mutant_survived-has_passed e.status in
    elim (Bool-cases (has_passed e.status)) [
      | inl lives ↦ rw (same, lives) (is_member-killed_mutants m es ks)
      | inr dies ↦
          let rest = is_member-killed_mutants m es (set_add e.mutation_point ks) in
          rw (same, dies) (ground (arith, rest, is_member-set_add m e.mutation_point ks))
    ]

-- Adding a new mutant to the set selects it wherever it stands in the list.
length-filter_cons :
    (k : ℕ) (ks points : List ℕ)
    → is_member k ks ≡ false
    → length (filter (λ m. is_member m (k ∷ ks)) points)
      ≡ length (filter (λ m. is_member m ks) points) + count k points
length-filter_cons k ks [] new = refl
length-filter_cons k ks (x ∷ points) new = elim (Bool-cases (k == x)) [
  | inl same ↦
      let e : k ≡ x = (==_iff k x).0 same in
      let out : is_member x ks ≡ false = subst (λ y. is_member y ks ≡ false) e new in
      rw (same, out) (ground (arith, length-filter_cons k ks points new))
  | inr apart ↦ elim (Bool-cases (is_member x ks)) [
    | inl old ↦ rw (apart, old) (ground (arith, length-filter_cons k ks points new))
    | inr out ↦ rw (apart, out) (ground (arith, length-filter_cons k ks points new))
  ]
]

-- Each killed mutant stands once in the list of points.
abbrev pub IsAmong : List ℕ → Execution → Type 0
IsAmong points e = count e.mutation_point points ≡ 1

length-killed_mutants :
    (points : List ℕ) (es : List Execution) (ks : List ℕ)
    → All (IsAmong points) es
    → length ks ≡ length (filter (λ m. is_member m ks) points)
    → length (killed_mutants es ks)
      ≡ length (filter (λ m. is_member m (killed_mutants es ks)) points)
unfolding killed_mutants
length-killed_mutants points [] ks among h = h
length-killed_mutants points (e ∷ es) ks (a, among) h =
    elim (Bool-cases (mutant_survived e.status)) [
      | inl lives ↦ rw lives (length-killed_mutants points es ks among h)
      | inr dies ↦ elim (Bool-cases (is_member e.mutation_point ks)) [
        | inl old ↦ rw (dies, old) (length-killed_mutants points es ks among h)
        | inr new ↦
            rw (dies, new)
              (length-killed_mutants points es (e.mutation_point ∷ ks) among
                (omega (arith, h, a, length-filter_cons e.mutation_point ks points new)))
      ]
    ]

filter_none : (points : List ℕ) → filter (λ m. false) points ≡ []
filter_none [] = refl
filter_none (x ∷ points) = filter_none points

length-filter-not :
    (p : ℕ → Bool) (points : List ℕ)
    → length (filter p points) + length (filter (λ m. not (p m)) points) ≡ length points
length-filter-not p [] = omega arith
length-filter-not p (x ∷ points) = elim (Bool-cases (p x)) [
  | inl b ↦ rw b (omega (arith, length-filter-not p points))
  | inr b ↦ rw b (omega (arith, length-filter-not p points))
]

module _ (location_of : ℕ → SourceLocation) (line_of : ℕ → List ℕ) where
  print_mutants-killed :
      (killed points : List ℕ)
      → All (HasColumn location_of line_of) points
      → print_mutants location_of line_of false killed points
        ≡ some (map (shown location_of line_of false) (filter (λ m. is_member m killed) points))
  unfolding print_mutants
  print_mutants-killed killed [] columns = refl
  print_mutants-killed killed (x ∷ points) (c, columns) =
      let rest = print_mutants-killed killed points columns in
      elim (Bool-cases (is_member x killed)) [
        | inl b ↦ rw (b, print_mutant-shown location_of line_of false x c, rest) refl
        | inr b ↦ rw b rest
      ]

  print_mutants-survived :
      (killed points : List ℕ)
      → All (HasColumn location_of line_of) points
      → print_mutants location_of line_of true killed points
        ≡ some
            (map (shown location_of line_of true) (filter (λ m. not (is_member m killed)) points))
  unfolding print_mutants
  print_mutants-survived killed [] columns = refl
  print_mutants-survived killed (x ∷ points) (c, columns) =
      let rest = print_mutants-survived killed points columns in
      elim (Bool-cases (is_member x killed)) [
        | inl b ↦ rw b rest
        | inr b ↦ rw (b, print_mutant-shown location_of line_of true x c, rest) refl
      ]

  -- A list with its title, which has the length of the list.
  abbrev pub listed : (survived : Bool) → (mutants points : List ℕ) → List Line
  listed survived mutants points =
      title survived (length mutants) (length points)
      ∷ map (shown location_of line_of survived) mutants

  module _ (score_of : (killed total : ℕ) → ℕ) where
    abbrev pub expected : (show_killed : Bool) → (killed survived points : List ℕ) → List Line
    expected show_killed killed survived points =
        (if show_killed && ltb 0 (length killed) then listed false killed points else [])
        ++ ((if ltb 0 (length survived) then listed true survived points else all_killed ∷ [])
            ++ score (score_of (length killed) (length points)) ∷ [])

    report_lists-expected :
        (show_killed : Bool) (points killed : List ℕ)
        → length killed ≡ length (filter (λ m. is_member m killed) points)
        → length points < 2 ^ 64
        → All (HasColumn location_of line_of) points
        → report_lists location_of line_of score_of show_killed points killed
          ≡ some (
              expected show_killed
                (filter (λ m. is_member m killed) points)
                (filter (λ m. not (is_member m killed)) points)
                points)
    report_lists-expected show_killed points killed h small columns =
        let k = filter (λ m. is_member m killed) points in
        let s = filter (λ m. not (is_member m killed)) points in
        let all = length-filter-not (λ m. is_member m killed) points in
        let rest : size_difference (length points) (length k) ≡ length s = omega (arith, all) in
        rw
          (
            h,
            rest,
            print_mutants-killed killed points columns,
            print_mutants-survived killed points columns,
          )
          (by_tests (show_killed && ltb 0 (length k)) (ltb 0 (length s)))
      where
        by_tests :
            (a b : Bool)
            → ((do
              first ←
                  (if a
                    then some (listed false (filter (λ m. is_member m killed) points) points)
                    else some [])
              second ←
                  (if b
                    then some (listed true (filter (λ m. not (is_member m killed)) points) points)
                    else some (all_killed ∷ []))
              some (
                  first
                  ++ (second
                      ++ score (
                          score_of
                            (length (filter (λ m. is_member m killed) points))
                            (length points))
                        ∷ [])))
                ≡ some (
                    (if a
                      then listed false (filter (λ m. is_member m killed) points) points
                      else [])
                    ++ ((if b
                          then listed true (filter (λ m. not (is_member m killed)) points) points
                          else all_killed ∷ [])
                        ++ score (
                            score_of
                              (length (filter (λ m. is_member m killed) points))
                              (length points))
                          ∷ [])))
        by_tests true true = refl
        by_tests true false = refl
        by_tests false true = refl
        by_tests false false = refl

    -- When there is a mutation point, there are fewer than 2^64, the column of each is not 0 and lies
    -- in its line, and the mutant of every execution stands once among them, the report fails no
    -- assertion and lists the killed mutants, if they are shown and there are any, and those that
    -- survived, if there are any, in the order of the points, each with its line and the caret under
    -- its column; a mutant is killed exactly if some execution of it did not pass, and each title has
    -- the length of its list.
    pub report_results-expected :
        (show_killed : Bool) (p : ℕ) (points : List ℕ) (executions : List Execution)
        → length (p ∷ points) < 2 ^ 64
        → All (HasColumn location_of line_of) (p ∷ points)
        → All (IsAmong (p ∷ points)) executions
        → report_results location_of line_of score_of show_killed (p ∷ points) executions
          ≡ some (
              expected show_killed
                (filter (is_killed executions) (p ∷ points))
                (filter (λ m. not (is_killed executions m)) (p ∷ points))
                (p ∷ points))
    unfolding report_results
    report_results-expected show_killed p points executions small columns among =
        let killed = killed_mutants executions [] in
        let start : length {A = ℕ} [] ≡ length (filter (λ m. is_member m []) (p ∷ points)) =
          ap length (sym (filter_none (p ∷ points))) in
        let same : (λ m. is_member m killed) ≡ is_killed executions =
          fun_ext
            (λ m. is_member-killed_mutants m executions [] ∙ or_false (is_killed executions m)) in
        report_lists-expected show_killed (p ∷ points) killed
          (length-killed_mutants (p ∷ points) executions [] among start) small columns
        ∙ ap
            (λ (f : ℕ → Bool). some (
              expected show_killed (filter f (p ∷ points)) (filter (λ m. not (f m)) (p ∷ points))
                (p ∷ points)))
            same
      where
        or_false : (b : Bool) → (b || false) ≡ b
        or_false true = refl
        or_false false = refl
