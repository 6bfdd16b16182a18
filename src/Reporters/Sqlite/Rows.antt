-- ===== src/Reporters/Sqlite/Rows.antt =====
-- What lib/Reporters/SQLiteReporter.cpp stores, table by table.
use mull.Base.{
  List, [], ◌∷◌, ◌++◌, none, some, true, map, append_assoc, append-nil, ◌≡◌, refl, sym, ap, ◌∙◌,
}
use mull.Base.Names.{IsDistinct}
use mull.ReachableFunction.Selection.{filter}
use mull.Reporters.Sqlite.Identifiers.{test_entry, IsNew, identifiers, IsDistinct-IsNew}
use mull.Reporters.Sqlite.Points.{first_points, insert_points-first_points}
use mull.Reporters.Sqlite.{
  Test, MutationResult, Result, ExecutionRow, ResultRow, Database, insert_tests, insert_result,
  insert_results, insert_points, report_results,
}

abbrev pub test_execution : Test → ExecutionRow
test_execution t = record {
  test_id = t.unique_identifier;
  mutation_point_id = "";
  status = t.execution_result.status;
  duration = t.execution_result.running_time;
  stdout = t.execution_result.stdout_output;
  stderr = t.execution_result.stderr_output;
}

abbrev pub result_execution : MutationResult → ExecutionRow
result_execution r = record {
  test_id = r.test_id;
  mutation_point_id = r.point_id;
  status = r.execution_result.status;
  duration = r.execution_result.running_time;
  stdout = r.execution_result.stdout_output;
  stderr = r.execution_result.stderr_output;
}

abbrev pub result_row : MutationResult → ResultRow
result_row r = record {
  test_id = r.test_id;
  mutation_point_id = r.point_id;
  mutation_distance = r.mutation_distance;
}

insert_results-rows :
    (rs : List MutationResult) (db : Database)
    → insert_results rs db ≡ record db {
      execution_result = db.execution_result ++ map result_execution rs;
      mutation_result = db.mutation_result ++ map result_row rs;
    }
unfolding insert_results
insert_results-rows [] db = λ i. record db {
  execution_result = sym (append-nil db.execution_result) i;
  mutation_result = sym (append-nil db.mutation_result) i;
}
insert_results-rows (r ∷ rs) db = insert_results-rows rs (insert_result r db) ∙ (λ i. record db {
  execution_result =
      append_assoc db.execution_result (result_execution r ∷ []) (map result_execution rs) i;
  mutation_result = append_assoc db.mutation_result (result_row r ∷ []) (map result_row rs) i;
})

insert_tests-rows :
    (ts : List Test) (db : Database)
    → IsNew db.test ts
    → insert_tests ts db
      ≡ some record db {
        execution_result = db.execution_result ++ map test_execution ts;
        test = db.test ++ map test_entry ts;
      }
unfolding insert_tests
insert_tests-rows [] db new = λ i. some record db {
  execution_result = sym (append-nil db.execution_result) i;
  test = sym (append-nil db.test) i;
}
insert_tests-rows (t ∷ ts) db (n, new) =
    let next : Database = record db {
      execution_result = db.execution_result ++ test_execution t ∷ [];
      test = db.test ++ test_entry t ∷ [];
    } in
    rw n (
      insert_tests-rows ts next new ∙ (λ i. some record db {
        execution_result =
            append_assoc db.execution_result (test_execution t ∷ []) (map test_execution ts) i;
        test = append_assoc db.test (test_entry t ∷ []) (map test_entry ts) i;
      }))

filter_all : {A : Type 0} (xs : List A) → filter (λ x. true) xs ≡ xs
filter_all [] = refl
filter_all (x ∷ xs) = ap (λ l. x ∷ l) (filter_all xs)

abbrev no_rows : Database
no_rows = record { execution_result = []; test = []; mutation_result = []; mutation_point = [] }

-- When the file has no tables and the tests have identifiers of their own, the report is written, and
-- its tables hold a row for each test, a row for each mutation result, and the executions of the tests
-- and then of the results, all in their order, each with what the test or the result says, and the
-- mutation points without those of which an earlier one has the identifier. When the file has tables,
-- the report fails.
pub report_results-rows :
    (result : Result) (earlier : Database)
    → IsDistinct (identifiers result.tests)
    → (report_results none result
        ≡ some record {
          execution_result =
              map test_execution result.tests ++ map result_execution result.mutation_results;
          test = map test_entry result.tests;
          mutation_result = map result_row result.mutation_results;
          mutation_point = first_points result.mutation_points;
        })
      × (report_results (some earlier) result ≡ none)
unfolding report_results
report_results-rows result earlier distinct = (
  rw (insert_tests-rows result.tests no_rows (IsDistinct-IsNew result.tests distinct)) (
      ap (λ (db : Database). some (insert_points result.mutation_points db))
        (insert_results-rows result.mutation_results _)
      ∙ ap (λ (db : Database). some db) (insert_points-first_points result.mutation_points _)
      ∙ ap
          (λ l. some record {
            execution_result =
                map test_execution result.tests ++ map result_execution result.mutation_results;
            test = map test_entry result.tests;
            mutation_result = map result_row result.mutation_results;
            mutation_point = l;
          })
          (filter_all (first_points result.mutation_points))),
  refl,
)
