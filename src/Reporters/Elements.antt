-- ===== src/Reporters/Elements.antt =====
-- lib/Reporters/MutationTestingElementsReporter.cpp: the report of the mutation points by file. The
-- content of a file, the source information of a point, the score, a product of doubles, and the time,
-- as the text of a number, are parameters. Entries stand in the order in which files first occur; the
-- map of the source sorts them by name. The assertion that the column lies in the line is not modelled.
mod Files
use mathlib.Core.Logic.{ite}
use mull.Base.{
  ℕ, String, concat, List, [], ◌∷◌, Option, none, some, Bool, if◌then◌else◌, String_discrete,
  length,
}
use mull.Base.Groups.{group_all}
use mull.Reporters.Ide.{Execution, is_member, killed_mutants}

pub record SourceInfo : Type 0 where
  pub begin_line : ℕ
  pub begin_column : ℕ
  pub end_line : ℕ
  pub end_column : ℕ

pub record Mutant : Type 0 where
  pub id : ℕ
  pub mutator : String
  pub diagnostics : String
  pub replacement : String
  pub file_path : String

pub record MutantEntry : Type 0 where
  pub id : String
  pub mutator_name : String
  pub replacement : String
  pub location : SourceInfo
  pub status : String

pub record FileEntry : Type 0 where
  pub language : String
  pub source : String
  pub mutants : List MutantEntry

pub record Report : Type 0 where
  pub mutation_score : ℕ
  pub high : ℕ
  pub low : ℕ
  pub files : List (String × FileEntry)

-- The first step: from each file to its points.
unfoldable pub points_per_file : List Mutant → List (String × List Mutant)
points_per_file points = group_all (λ m. m.file_path) points []

module _ (source_of : String → String) (info_of : Mutant → SourceInfo) where
  unfoldable pub entry_of : (killed : List ℕ) → Mutant → MutantEntry
  entry_of killed m = record {
    id = m.mutator;
    mutator_name = m.diagnostics;
    replacement = m.replacement;
    location = info_of m;
    status = if is_member m.id killed then "Killed" else "Survived";
  }

  unfoldable pub entries_of : (killed : List ℕ) → List Mutant → List MutantEntry
  unfolding entry_of
  entries_of killed [] = []
  entries_of killed (m ∷ ms) = entry_of killed m ∷ entries_of killed ms

  unfoldable pub file_entries :
      (killed : List ℕ) → List (String × List Mutant) → List (String × FileEntry)
  unfolding entries_of
  file_entries killed [] = []
  file_entries killed ((file, ms) ∷ files) =
      (file, record { language = "cpp"; source = source_of file; mutants = entries_of killed ms })
      ∷ file_entries killed files

  unfoldable pub create_files : (killed : List ℕ) → List Mutant → List (String × FileEntry)
  unfolding points_per_file file_entries
  create_files killed points = file_entries killed (points_per_file points)

  -- Without mutation points no report is written.
  unfoldable pub create_report :
      (score_of : (killed total : ℕ) → ℕ) → List Mutant → List Execution → Option Report
  unfolding create_files killed_mutants
  create_report score_of [] executions = none
  create_report score_of (m ∷ points) executions =
      let killed = killed_mutants executions [] in
      some record {
        mutation_score = score_of (length killed) (length (m ∷ points));
        high = 80;
        low = 60;
        files = create_files killed (m ∷ points);
      }

unfoldable pub get_filename : (time name : String) → String
unfolding String_discrete
get_filename time name = ite (String_discrete name "") time name

unfoldable pub get_report_dir : String → String
unfolding String_discrete
get_report_dir dir = ite (String_discrete dir "") "." dir

unfoldable pub json_path : (time report_dir report_name : String) → String
unfolding get_filename get_report_dir
json_path time report_dir report_name =
    concat (get_report_dir report_dir) (concat "/" (concat (get_filename time report_name) ".json"))
