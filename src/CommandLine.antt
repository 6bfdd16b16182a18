-- ===== src/CommandLine.antt =====
-- From the command line to a configured run: main of tools/driver-cxx/driver-cxx.cpp, the reporters and
-- sandboxes of tools/driver-cxx/CLIOptions.cpp, lib/Config/Configuration.cpp and ConfigurationOptions.cpp.
-- Parsing is that of LLVM, so the options are a record; `hardware_concurrency` is that of the standard
-- library. Numbers of workers are `int`, which an `unsigned` option is converted to.
mod Workers
mod Reporting
mod Tests
use mull.Base.{
  ℕ, zero, suc, ◌-◌, ◌^◌, String, List, [], ◌∷◌, ◌++◌, Bool, true, false, not, ◌&&◌, ◌||◌, ltb,
  if◌then◌else◌,
}

pub data WorkerCount : Type 0 where
  pos : ℕ → WorkerCount
  negated : ℕ → WorkerCount

-- The conversion of a 32-bit `unsigned`.
unfoldable pub of_unsigned : ℕ → WorkerCount
of_unsigned n = if ltb n (2 ^ 31) then pos n else negated (2 ^ 32 - n)

unfoldable pub is_zero : WorkerCount → Bool
is_zero (pos zero) = true
is_zero (pos (suc n)) = false
is_zero (negated n) = false

-- How often a loop runs that counts from 0 while the counter is below the number.
unfoldable pub repetitions : WorkerCount → ℕ
repetitions (pos n) = n
repetitions (negated n) = 0

pub record ParallelizationConfig : Type 0 where
  pub workers : WorkerCount
  pub test_execution_workers : WorkerCount
  pub mutant_execution_workers : WorkerCount

abbrev pub new_parallelization : ParallelizationConfig
new_parallelization = record {
  workers = pos 0;
  test_execution_workers = pos 0;
  mutant_execution_workers = pos 0;
}

abbrev pub or_default : WorkerCount → WorkerCount → WorkerCount
or_default n default = if is_zero n then default else n

unfoldable pub normalize :
    (hardware_concurrency : ℕ) → ParallelizationConfig → ParallelizationConfig
unfolding is_zero of_unsigned
normalize hardware_concurrency c =
    let default_workers =
      of_unsigned (if ltb hardware_concurrency 1 then 1 else hardware_concurrency) in
    let workers = or_default c.workers default_workers in
    record {
      workers = workers;
      test_execution_workers = or_default c.test_execution_workers workers;
      mutant_execution_workers = or_default c.mutant_execution_workers workers;
    }

unfoldable pub default_config : (hardware_concurrency : ℕ) → ParallelizationConfig
unfolding normalize
default_config hardware_concurrency = normalize hardware_concurrency new_parallelization

abbrev pub single_thread_parallelization : ParallelizationConfig
single_thread_parallelization = record {
  workers = pos 1;
  test_execution_workers = pos 1;
  mutant_execution_workers = pos 1;
}

pub data SandboxKind : Type 0 where
  no_sandbox watchdog timer : SandboxKind

pub data ReporterKind : Type 0 where
  ide sqlite elements : ReporterKind

pub record CustomTestDefinition : Type 0 where
  pub test_name : String
  pub method_name : String
  pub program_name : String
  pub call_arguments : List String

pub record Configuration : Type 0 where
  pub dry_run_enabled : Bool
  pub fail_fast_enabled : Bool
  pub cache_enabled : Bool
  pub capture_test_output : Bool
  pub capture_mutant_output : Bool
  pub timeout : ℕ
  pub max_distance : ℕ
  pub custom_tests : List CustomTestDefinition
  pub cache_directory : String
  pub parallelization : ParallelizationConfig

-- The default constructor.
abbrev pub new_configuration : Configuration
new_configuration = record {
  dry_run_enabled = false;
  fail_fast_enabled = false;
  cache_enabled = false;
  capture_test_output = true;
  capture_mutant_output = true;
  timeout = 3000;
  max_distance = 128;
  custom_tests = [];
  cache_directory = "";
  parallelization = single_thread_parallelization;
}

-- The values of the options; `bitcode_flags` tells whether the bitcode holds compilation flags.
pub record Options : Type 0 where
  pub workers : ℕ
  pub dry_run : Bool
  pub disable_cache : Bool
  pub cache_dir : String
  pub no_test_output : Bool
  pub no_mutant_output : Bool
  pub no_output : Bool
  pub enable_ast : Bool
  pub bitcode_flags : Bool
  pub compilation_flags : Bool
  pub compdb_path : Bool
  pub sandbox : SandboxKind
  pub reporters : List ReporterKind
  pub report_name : String
  pub report_dir : String
  pub ide_reporter_show_killed : Bool

abbrev pub main_test : (method : String) → CustomTestDefinition
main_test method = record {
  test_name = "main";
  method_name = method;
  program_name = "mull";
  call_arguments = [];
}

unfoldable pub parallelization_of : (hardware_concurrency workers : ℕ) → ParallelizationConfig
unfolding of_unsigned normalize default_config
parallelization_of hardware_concurrency workers =
    if ltb 0 workers
    then normalize hardware_concurrency
        (record new_parallelization { workers = of_unsigned workers })
    else default_config hardware_concurrency

unfoldable pub configuration_of : (hardware_concurrency : ℕ) → Options → Configuration
unfolding parallelization_of
configuration_of hardware_concurrency o = record {
  dry_run_enabled = o.dry_run;
  fail_fast_enabled = true;
  cache_enabled = if not o.disable_cache then true else new_configuration.cache_enabled;
  capture_test_output =
      if o.no_test_output || o.no_output then false else new_configuration.capture_test_output;
  capture_mutant_output =
      if o.no_mutant_output || o.no_output then false else new_configuration.capture_mutant_output;
  timeout = new_configuration.timeout;
  max_distance = new_configuration.max_distance;
  custom_tests = main_test "main" ∷ main_test "_main" ∷ [];
  cache_directory = if not o.disable_cache then o.cache_dir else new_configuration.cache_directory;
  parallelization = parallelization_of hardware_concurrency o.workers;
}

pub data FilterKind : Type 0 where
  no_debug_info_filter file_path_filter ast_mutation_filter junk_mutation_filter : FilterKind

pub record Filters : Type 0 where
  pub mutation_filters : List FilterKind
  pub function_filters : List FilterKind
  pub instruction_filters : List FilterKind

unfoldable pub compilation_database_info_available : Options → Bool
compilation_database_info_available o = o.bitcode_flags || o.compdb_path || o.compilation_flags

unfoldable pub filters_of : Options → Filters
unfolding compilation_database_info_available
filters_of o = record {
  mutation_filters =
      no_debug_info_filter
      ∷ file_path_filter
      ∷ ((if o.enable_ast && compilation_database_info_available o
            then ast_mutation_filter ∷ []
            else [])
          ++ (if compilation_database_info_available o then junk_mutation_filter ∷ [] else []));
  function_filters = no_debug_info_filter ∷ file_path_filter ∷ [];
  instruction_filters = no_debug_info_filter ∷ [];
}

pub data ProcessSandbox : Type 0 where
  null_process_sandbox fork_watchdog_sandbox fork_timer_sandbox : ProcessSandbox

unfoldable pub sandbox_of : SandboxKind → ProcessSandbox
sandbox_of no_sandbox = null_process_sandbox
sandbox_of watchdog = fork_watchdog_sandbox
sandbox_of timer = fork_timer_sandbox

pub data Reporter : Type 0 where
  ide_reporter : (show_killed : Bool) → Reporter
  sqlite_reporter : (directory name : String) → Reporter
  elements_reporter : (directory name : String) → Reporter

unfoldable pub reporter_of : Options → ReporterKind → Reporter
reporter_of o ide = ide_reporter o.ide_reporter_show_killed
reporter_of o sqlite = sqlite_reporter o.report_dir o.report_name
reporter_of o elements = elements_reporter o.report_dir o.report_name

abbrev pub or_ide : Options → List Reporter → List Reporter
or_ide o [] = ide_reporter o.ide_reporter_show_killed ∷ []
or_ide o (r ∷ rs) = r ∷ rs

unfoldable pub each_reporter : Options → List ReporterKind → List Reporter
unfolding reporter_of
each_reporter o [] = []
each_reporter o (k ∷ ks) = reporter_of o k ∷ each_reporter o ks

unfoldable pub reporters_of : Options → List Reporter
unfolding each_reporter
reporters_of o = or_ide o (each_reporter o o.reporters)
