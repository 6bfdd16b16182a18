-- ===== src/Reporters/Sqlite.antt =====
-- reportResults of lib/Reporters/SQLiteReporter.cpp: the rows of the tables that it creates. A table is
-- the list of its rows in the order of insertion; a plain INSERT of a row whose UNIQUE column is taken
-- fails, which ends the program and is `none`, and INSERT OR IGNORE leaves the table as it is. So does
-- creating a table that the file has. Texts have no null bytes, at which binding them would stop.
mod Identifiers
mod Points
mod Rows
mod Tests
use mathlib.Core.Logic.{ite}
use mull.Base.{
  ℕ, String, List, [], ◌∷◌, ◌++◌, Option, none, some, Bool, true, false, if◌then◌else◌,
  String_discrete, ◌>>=◌,
}
use mull.Sandbox.{ExecutionStatus}

pub record ExecutionResult : Type 0 where
  pub status : ExecutionStatus
  pub running_time : ℕ
  pub stdout_output : String
  pub stderr_output : String

pub record Test : Type 0 where
  pub display_name : String
  pub unique_identifier : String
  pub location_file : String
  pub location_line : ℕ
  pub execution_result : ExecutionResult

pub record MutationPoint : Type 0 where
  pub mutator : String
  pub module_name : String
  pub function_name : String
  pub function_index : ℕ
  pub basic_block_index : ℕ
  pub instruction_index : ℕ
  pub file_path : String
  pub directory : String
  pub diagnostics : String
  pub line : ℕ
  pub column : ℕ
  pub unique_identifier : String

-- A result names its test and its point by their identifiers.
pub record MutationResult : Type 0 where
  pub test_id : String
  pub point_id : String
  pub mutation_distance : ℕ
  pub execution_result : ExecutionResult

pub record Result : Type 0 where
  pub tests : List Test
  pub mutation_results : List MutationResult
  pub mutation_points : List MutationPoint

pub record ExecutionRow : Type 0 where
  pub test_id : String
  pub mutation_point_id : String
  pub status : ExecutionStatus
  pub duration : ℕ
  pub stdout : String
  pub stderr : String

pub record TestRow : Type 0 where
  pub test_name : String
  pub unique_id : String
  pub location_file : String
  pub location_line : ℕ

pub record ResultRow : Type 0 where
  pub test_id : String
  pub mutation_point_id : String
  pub mutation_distance : ℕ

-- The columns of `mutation_point` are those of a mutation point.
pub record Database : Type 0 where
  pub execution_result : List ExecutionRow
  pub test : List TestRow
  pub mutation_result : List ResultRow
  pub mutation_point : List MutationPoint

-- What stands in the file of the database: nothing, or the tables of an earlier report.
abbrev pub create_tables : (file : Option Database) → Option Database
create_tables (some earlier) = none
create_tables none =
    some record { execution_result = []; test = []; mutation_result = []; mutation_point = [] }

abbrev pub execution_row : (test_id mutation_point_id : String) → ExecutionResult → ExecutionRow
execution_row test_id mutation_point_id e = record {
  test_id = test_id;
  mutation_point_id = mutation_point_id;
  status = e.status;
  duration = e.running_time;
  stdout = e.stdout_output;
  stderr = e.stderr_output;
}

abbrev pub test_row : Test → TestRow
test_row t = record {
  test_name = t.display_name;
  unique_id = t.unique_identifier;
  location_file = t.location_file;
  location_line = t.location_line;
}

abbrev pub has_test : String → List TestRow → Bool
has_test id [] = false
has_test id (r ∷ rows) = ite (String_discrete r.unique_id id) true (has_test id rows)

abbrev pub has_point : String → List MutationPoint → Bool
has_point id [] = false
has_point id (p ∷ points) = ite (String_discrete p.unique_identifier id) true (has_point id points)

abbrev pub insert_test : Test → Database → Option Database
insert_test t db =
    if has_test t.unique_identifier db.test
    then none
    else some record db {
      execution_result =
          db.execution_result ++ execution_row t.unique_identifier "" t.execution_result ∷ [];
      test = db.test ++ test_row t ∷ [];
    }

unfoldable pub insert_tests : List Test → Database → Option Database
insert_tests [] db = some db
insert_tests (t ∷ ts) db = insert_test t db >>= insert_tests ts

abbrev pub insert_result : MutationResult → Database → Database
insert_result r db = record db {
  execution_result =
      db.execution_result ++ execution_row r.test_id r.point_id r.execution_result ∷ [];
  mutation_result =
      db.mutation_result
      ++ record {
        test_id = r.test_id;
        mutation_point_id = r.point_id;
        mutation_distance = r.mutation_distance;
      }
        ∷ [];
}

unfoldable pub insert_results : List MutationResult → Database → Database
insert_results [] db = db
insert_results (r ∷ rs) db = insert_results rs (insert_result r db)

abbrev pub insert_or_ignore_point : MutationPoint → Database → Database
insert_or_ignore_point p db =
    if has_point p.unique_identifier db.mutation_point
    then db
    else record db { mutation_point = db.mutation_point ++ p ∷ [] }

unfoldable pub insert_points : List MutationPoint → Database → Database
insert_points [] db = db
insert_points (p ∷ ps) db = insert_points ps (insert_or_ignore_point p db)

unfoldable pub report_results : (file : Option Database) → Result → Option Database
unfolding insert_tests insert_results insert_points
report_results file result = do
  created ← create_tables file
  db ← insert_tests result.tests created
  some (insert_points result.mutation_points (insert_results result.mutation_results db))
