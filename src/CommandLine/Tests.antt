-- ===== src/CommandLine/Tests.antt =====
-- Runs with and without an explicit number of workers.
use mull.Base.{ℕ, [], ◌∷◌, Bool, true, false, some, map, ◌==◌, ◌≡◌, refl, arith}
use mull.CommandLine.{
  Options, FilterKind, timer, pos, repetitions, configuration_of, filters_of, parallelization_of,
  normalize, default_config, of_unsigned, is_zero,
}
use mull.CommandLine.Workers.{is_kept, filter_mutations-configured}
use mull.Parallelization.{filter_mutations}
use mull.ReachableFunction.Selection.{filter}

abbrev options : Options
options = record {
  workers = 0;
  dry_run = false;
  disable_cache = false;
  cache_dir = "/tmp/mull-cache";
  no_test_output = false;
  no_mutant_output = false;
  no_output = true;
  enable_ast = true;
  bitcode_flags = false;
  compilation_flags = true;
  compdb_path = false;
  sandbox = timer;
  reporters = [];
  report_name = "";
  report_dir = ".";
  ide_reporter_show_killed = false;
}

default_workers : (configuration_of 0 options).parallelization.workers ≡ pos 1
unfolding configuration_of parallelization_of normalize default_config of_unsigned is_zero
default_workers = refl

-- More than 2^31 - 1 workers are a negative number, for which no worker is made.
too_many_workers :
    repetitions
      (configuration_of 4 (record options { workers = 4294967295 })).parallelization.workers
    ≡ 0
unfolding configuration_of parallelization_of normalize default_config of_unsigned is_zero
    repetitions
too_many_workers = refl

abbrev skips : FilterKind → ℕ → Bool
skips FilterKind.no_debug_info_filter n = n == 1
skips FilterKind.file_path_filter n = n == 2
skips FilterKind.ast_mutation_filter n = n == 3
skips FilterKind.junk_mutation_filter n = n == 4

filter_mutations-configured_example :
    filter_mutations
      (repetitions (configuration_of 8 options).parallelization.workers)
      (map skips (filters_of options).mutation_filters)
      (1 ∷ 3 ∷ 5 ∷ [])
    ≡ some (filter (is_kept options skips) (1 ∷ 3 ∷ 5 ∷ []))
filter_mutations-configured_example =
    filter_mutations-configured 8 options skips (1 ∷ 3 ∷ 5 ∷ []) (omega arith) (omega arith)
      (omega arith)
