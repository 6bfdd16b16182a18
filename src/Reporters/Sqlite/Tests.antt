-- ===== src/Reporters/Sqlite/Tests.antt =====
-- A run of one test with two results for one mutation point, which is given twice.
use mull.Base.{List, [], ◌∷◌, ◌++◌, Option, some, none, map, String_discrete, ◌≡◌, refl}
use mull.Sandbox.{ExecutionStatus}
use mull.Reporters.Sqlite.{
  ExecutionResult, Test, MutationPoint, Result, Database, insert_tests, insert_results,
  insert_points, report_results,
}
use mull.Reporters.Sqlite.Identifiers.{test_entry}
use mull.Reporters.Sqlite.Points.{first_points}
use mull.Reporters.Sqlite.Rows.{test_execution, result_execution, result_row, report_results-rows}

abbrev run : ExecutionStatus → ExecutionResult
run status = record { status = status; running_time = 5; stdout_output = ""; stderr_output = "" }

abbrev first_test : Test
first_test = record {
  display_name = "main";
  unique_identifier = "main";
  location_file = "main.cpp";
  location_line = 3;
  execution_result = run ExecutionStatus.passed;
}

abbrev point : MutationPoint
point = record {
  mutator = "cxx_add_to_sub";
  module_name = "main.bc";
  function_name = "sum";
  function_index = 1;
  basic_block_index = 0;
  instruction_index = 4;
  file_path = "main.cpp";
  directory = "/src";
  diagnostics = "Replaced + with -";
  line = 8;
  column = 12;
  unique_identifier = "p1";
}

abbrev whole_run : Result
whole_run = record {
  tests = first_test ∷ [];
  mutation_results =
      record {
        test_id = "main";
        point_id = "p1";
        mutation_distance = 1;
        execution_result = run ExecutionStatus.failed;
      }
      ∷ [];
  mutation_points = point ∷ point ∷ [];
}

abbrev points_of : Option Database → List MutationPoint
points_of none = []
points_of (some db) = db.mutation_point

one_point : points_of (report_results none whole_run) ≡ point ∷ []
unfolding report_results insert_tests insert_results insert_points String_discrete
one_point = refl

tests_twice :
    insert_tests
      (first_test ∷ first_test ∷ [])
      (record { execution_result = []; test = []; mutation_result = []; mutation_point = [] })
    ≡ none
unfolding insert_tests String_discrete
tests_twice = refl

abbrev earlier_report : Database
earlier_report = record {
  execution_result = [];
  test = [];
  mutation_result = [];
  mutation_point = point ∷ [];
}

report_results-rows_example :
    (report_results none whole_run
      ≡ some record {
        execution_result =
            map test_execution whole_run.tests ++ map result_execution whole_run.mutation_results;
        test = map test_entry whole_run.tests;
        mutation_result = map result_row whole_run.mutation_results;
        mutation_point = first_points whole_run.mutation_points;
      })
    × (report_results (some earlier_report) whole_run ≡ none)
report_results-rows_example = report_results-rows whole_run earlier_report ((λ i. i), tt)
