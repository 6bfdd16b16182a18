-- ===== src/Reporters/Ide.antt =====
-- lib/Reporters/IDEReporter.cpp: which mutants are listed as killed and as survived, and the line with
-- the caret under a mutant. Mutants have numbers that stand for their address; counts are `size_t`. The
-- score, a product of doubles cut down to an integer, is a parameter, and so are the source location of a
-- mutant and the line that `SourceManager::getLine` gives for it. A failed assertion and a write outside
-- a string are `none`.
pub mod Counts
mod Carets
mod Tests
use mull.Base.{
  ℕ, zero, suc, ◌+◌, ◌-◌, ◌%◌, ◌^◌, List, [], ◌∷◌, ◌++◌, Option, none, some, Bool, true, false, not,
  ◌&&◌, ltb, ◌==◌, if◌then◌else◌, length, get_elem?, assert, ◌>>=◌, ◌>>◌, update,
}
use mull.Sandbox.{ExecutionStatus}

-- A mutation result: its mutant and the status of the execution.
pub record Execution : Type 0 where
  pub mutation_point : ℕ
  pub status : ExecutionStatus

abbrev pub is_member : ℕ → List ℕ → Bool
is_member m [] = false
is_member m (k ∷ ks) = let rest = is_member m ks in if k == m then true else rest

-- `std::set::insert`; the order of the set does not matter.
abbrev pub set_add : ℕ → List ℕ → List ℕ
set_add m ks = if is_member m ks then ks else m ∷ ks

unfoldable pub mutant_survived : ExecutionStatus → Bool
mutant_survived ExecutionStatus.passed = true
mutant_survived ExecutionStatus.invalid = false
mutant_survived ExecutionStatus.failed = false
mutant_survived ExecutionStatus.timedout = false
mutant_survived ExecutionStatus.crashed = false
mutant_survived ExecutionStatus.abnormal_exit = false
mutant_survived ExecutionStatus.dry_run = false
mutant_survived ExecutionStatus.fail_fast = false

unfoldable pub killed_mutants : List Execution → (killed : List ℕ) → List ℕ
unfolding mutant_survived
killed_mutants [] killed = killed
killed_mutants (e ∷ es) killed =
    killed_mutants es
      (if not (mutant_survived e.status) then set_add e.mutation_point killed else killed)

-- The line under a mutant: a space for each character before the column, a tab where the line has
-- one, and the caret in the last place.
unfoldable pub blanks : (column : ℕ) → (line : List ℕ) → List ℕ
blanks zero line = []
blanks (suc n) [] = 32 ∷ blanks n []
blanks (suc n) (c ∷ line) = (if c == 9 then 9 else 32) ∷ blanks n line

abbrev pub set_at : (index value : ℕ) → List ℕ → Option (List ℕ)
set_at index value [] = none
set_at zero value (c ∷ cs) = some (value ∷ cs)
set_at (suc i) value (c ∷ cs) = set_at i value cs >>= λ rest. some (c ∷ rest)

abbrev pub set_before : (column value : ℕ) → List ℕ → Option (List ℕ)
set_before zero value cs = none
set_before (suc i) value cs = set_at i value cs

unfoldable pub caret_line : (line : List ℕ) → (column : ℕ) → Option (List ℕ)
unfolding blanks
caret_line line column = do
  assert (ltb column (length line))
  set_before column 94 (blanks column line)

-- The part of a source location that is printed under; `isNull` asks for no more.
pub record SourceLocation : Type 0 where
  pub line : ℕ
  pub column : ℕ

abbrev pub is_null : SourceLocation → Bool
is_null l = (l.line == 0) && (l.column == 0)

-- What is printed: the title of a list with its count and the number of all mutants, a mutant with
-- its line of source and the line under that, and the closing lines.
pub data Line : Type 0 where
  no_mutants all_killed : Line
  title : (survived : Bool) → (count total : ℕ) → Line
  mutant : (survived : Bool) → (mutation_point : ℕ) → (text caret : List ℕ) → Line
  score : ℕ → Line

abbrev pub size_difference : ℕ → ℕ → ℕ
size_difference a b = (a + 2 ^ 64 - b) % 2 ^ 64

module _ (location_of : ℕ → SourceLocation) (line_of : ℕ → List ℕ) where
  unfoldable pub print_mutant : (survived : Bool) → (mutation_point : ℕ) → Option Line
  unfolding caret_line
  print_mutant survived m = do
    assert (not (is_null (location_of m)))
    caret ← caret_line (line_of m) (location_of m).column
    some (mutant survived m (line_of m) caret)

  -- The loop that prints the mutants that are killed, or those that are not.
  unfoldable pub print_mutants : (survived : Bool) → (killed points : List ℕ) → Option (List Line)
  unfolding print_mutant
  print_mutants survived killed [] = some []
  print_mutants survived killed (m ∷ points) =
      let rest = print_mutants survived killed points in
      if (if survived then not (is_member m killed) else is_member m killed)
      then (do printed ← print_mutant survived m; lines ← rest; some (printed ∷ lines))
      else rest

  -- A title and the mutants under it.
  abbrev pub print_list :
      (survived : Bool) → (count : ℕ) → (killed points : List ℕ) → Option (List Line)
  print_list survived count killed points = do
    lines ← print_mutants survived killed points
    some (title survived count (length points) ∷ lines)

  module _ (score_of : (killed total : ℕ) → ℕ) where
    abbrev pub report_lists : (show_killed : Bool) → (points killed : List ℕ) → Option (List Line)
    report_lists show_killed points killed =
        let total = length points in
        let killed_count = length killed in
        let survived_count = size_difference total killed_count in
        do
          first ←
              (if show_killed && ltb 0 killed_count
                then print_list false killed_count killed points
                else some [])
          second ←
              (if ltb 0 survived_count
                then print_list true survived_count killed points
                else some (all_killed ∷ []))
          some (first ++ (second ++ score (score_of killed_count total) ∷ []))

    unfoldable pub report_results :
        (show_killed : Bool) → (points : List ℕ) → List Execution → Option (List Line)
    unfolding killed_mutants print_mutants
    report_results show_killed [] executions = some (no_mutants ∷ [])
    report_results show_killed (p ∷ points) executions =
        report_lists show_killed (p ∷ points) (killed_mutants executions [])
