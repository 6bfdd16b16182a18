-- ===== src/CommandLine/Workers.antt =====
-- A configured run has workers, so no item is lost.
use mull.Base.{
  ℕ, zero, suc, ◌^◌, ◌<◌, List, Bool, true, false, ltb, if◌then◌else◌, map, length, some, ◌≡◌, refl,
  arith, not, ◌&&◌, ◌||◌, Bool-cases, inl, inr, ap, ◌∙◌, fun_ext,
}
use mull.CommandLine.{
  pos, of_unsigned, is_zero, repetitions, normalize, default_config, parallelization_of, Options,
  configuration_of, FilterKind, compilation_database_info_available, filters_of,
}
use mull.Parallelization.{filter_mutations}
use mull.Parallelization.Filtering.{filter_mutations-filter}
use mull.ReachableFunction.Selection.{filter, none_skips}

-- The workers that are asked for, or as many as the hardware runs at once, and at least one.
abbrev pub wanted : (hardware_concurrency workers : ℕ) → ℕ
wanted hardware_concurrency zero = if ltb hardware_concurrency 1 then 1 else hardware_concurrency
wanted hardware_concurrency (suc n) = suc n

-- With less than 2^31 workers asked for and less than 2^31 threads of the hardware, each of the three
-- numbers of workers is the one that is asked for, or else that of the threads, and is not 0.
pub parallelization_of-wanted :
    (hardware_concurrency workers : ℕ)
    → hardware_concurrency < 2 ^ 31
    → workers < 2 ^ 31
    → (parallelization_of hardware_concurrency workers ≡ record {
      workers = pos (wanted hardware_concurrency workers);
      test_execution_workers = pos (wanted hardware_concurrency workers);
      mutant_execution_workers = pos (wanted hardware_concurrency workers);
    })
      × (0 < wanted hardware_concurrency workers)
unfolding parallelization_of normalize default_config of_unsigned is_zero
parallelization_of-wanted zero zero h w = (refl, omega arith)
parallelization_of-wanted (suc c) zero h w =
    let one : ltb (suc c) 1 ≡ false = ground arith in
    let small : ltb (suc c) (2 ^ 31) ≡ true = ground arith in rw one (rw small (refl, omega arith))
parallelization_of-wanted c (suc n) h w =
    let asked : ltb 0 (suc n) ≡ true = ground arith in
    let small : ltb (suc n) (2 ^ 31) ≡ true = ground arith in
    rw asked (rw small (refl, omega arith))

-- Whether no chosen filter skips the mutation: those without debug information and those of paths that
-- are filtered out always go; those that the search in syntax trees did not find go where that search
-- is enabled and flags are known for the compilation, from the bitcode, a database or the options; and
-- junk goes where flags are known.
abbrev pub is_kept : {A : Type 0} → Options → (should_skip : FilterKind → A → Bool) → A → Bool
is_kept o should_skip m =
    let flags_known = o.compilation_flags || o.compdb_path || o.bitcode_flags in
    not (should_skip FilterKind.no_debug_info_filter m)
    && not (should_skip FilterKind.file_path_filter m)
    && not (flags_known && o.enable_ast && should_skip FilterKind.ast_mutation_filter m)
    && not (flags_known && should_skip FilterKind.junk_mutation_filter m)

none_skips-is_kept :
    {A : Type 0} (o : Options) (should_skip : FilterKind → A → Bool) (m : A)
    → none_skips m (map should_skip (filters_of o).mutation_filters) ≡ is_kept o should_skip m
unfolding filters_of compilation_database_info_available
none_skips-is_kept o should_skip m =
    elim (Bool-cases (o.bitcode_flags || o.compdb_path || o.compilation_flags)) [
      | inl known ↦ elim (Bool-cases o.enable_ast) [
        | inl ast ↦ rw (known, ast) (ground arith)
        | inr no_ast ↦ rw (known, no_ast) (ground arith)
      ]
      | inr unknown ↦ elim (Bool-cases o.enable_ast) [
        | inl ast ↦ rw (unknown, ast) (ground arith)
        | inr no_ast ↦ rw (unknown, no_ast) (ground arith)
      ]
    ]

-- In a run that is configured from the options, the loop that makes the workers makes at least one,
-- so for any behaviour of the filters, filtering the mutations gives, in order, those that the filters
-- without debug information and of paths do not skip, nor, where flags are known for the compilation,
-- the filter of junk, nor, where the search in syntax trees is also enabled, the filter of that.
pub filter_mutations-configured :
    {A : Type 0} (hardware_concurrency : ℕ) (o : Options) (should_skip : FilterKind → A → Bool)
    (mutations : List A)
    → hardware_concurrency < 2 ^ 31
    → o.workers < 2 ^ 31
    → length mutations < 2 ^ 31
    → filter_mutations
        (repetitions (configuration_of hardware_concurrency o).parallelization.workers)
        (map should_skip (filters_of o).mutation_filters)
        mutations
      ≡ some (filter (is_kept o should_skip) mutations)
unfolding configuration_of repetitions
filter_mutations-configured hardware_concurrency o should_skip mutations h w l =
    let (e, positive) = parallelization_of-wanted hardware_concurrency o.workers h w in
    rw e (
      filter_mutations-filter (wanted hardware_concurrency o.workers)
        (map should_skip (filters_of o).mutation_filters) mutations positive l)
    ∙ ap (λ keep. some (filter keep mutations)) (fun_ext (none_skips-is_kept o should_skip))
