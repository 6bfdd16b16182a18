-- ===== src/Reporters/Elements/Files.antt =====
-- The files of the report of lib/Reporters/MutationTestingElementsReporter.cpp.
use mathlib.Core.Logic.{ite}
use mull.Base.{
  ℕ, String, List, [], ◌∷◌, Option, none, some, Bool, false, ◌||◌, if◌then◌else◌, String_discrete,
  map, ◌≡◌, refl, ap, ◌∙◌, fun_ext, true,
}
use mull.Base.Dict.{lookup}
use mull.Base.Groups.{group_of, or_nil, with_key, group_of-group_all}
use mull.Reporters.Ide.{Execution, killed_mutants}
use mull.Reporters.Ide.Counts.{is_killed, is_member-killed_mutants}
use mull.Reporters.Elements.{
  SourceInfo, Mutant, MutantEntry, FileEntry, points_per_file, entry_of, entries_of, file_entries,
  create_files,
}

module _ (source_of : String → String) (info_of : Mutant → SourceInfo) where
  -- The entry of a mutant of which some execution did not pass, or none.
  abbrev pub reported : List Execution → Mutant → MutantEntry
  reported executions m = record {
    id = m.mutator;
    mutator_name = m.diagnostics;
    replacement = m.replacement;
    location = info_of m;
    status = if is_killed executions m.id then "Killed" else "Survived";
  }

  abbrev pub mutants_in : Option FileEntry → List MutantEntry
  mutants_in none = []
  mutants_in (some e) = e.mutants

  entries_of-map :
      (killed : List ℕ) (ms : List Mutant)
      → entries_of source_of info_of killed ms ≡ map (entry_of source_of info_of killed) ms
  unfolding entries_of
  entries_of-map killed [] = refl
  entries_of-map killed (m ∷ ms) =
      ap (λ l. entry_of source_of info_of killed m ∷ l) (entries_of-map killed ms)

  mutants_in-file_entries :
      (killed : List ℕ) (file : String) (groups : List (String × List Mutant))
      → mutants_in (lookup String_discrete file (file_entries source_of info_of killed groups))
        ≡ entries_of source_of info_of killed (group_of file groups)
  unfolding file_entries lookup entries_of
  mutants_in-file_entries killed file [] = refl
  mutants_in-file_entries killed file ((name, ms) ∷ groups) =
      by_name (mutants_in-file_entries killed file groups) (String_discrete name file)
    where
      by_name :
          mutants_in (lookup String_discrete file (file_entries source_of info_of killed groups))
            ≡ entries_of source_of info_of killed (group_of file groups)
          → (d : Dec (name ≡ file))
          → mutants_in (
              ite d
                (some record {
                  language = "cpp";
                  source = source_of name;
                  mutants = entries_of source_of info_of killed ms;
                })
                (lookup String_discrete file (file_entries source_of info_of killed groups)))
            ≡ entries_of source_of info_of killed
                (or_nil (ite d (some ms) (lookup String_discrete file groups)))
      by_name rest (yes e) = refl
      by_name rest (no n) = rest

  -- The mutants of a file in the report are the mutation points with that path, in their order, each
  -- killed exactly if some execution of it did not pass.
  pub create_files-reported :
      (points : List Mutant) (executions : List Execution) (file : String)
      → mutants_in (
          lookup String_discrete file
            (create_files source_of info_of (killed_mutants executions []) points))
        ≡ map (reported executions) (with_key (λ m. m.file_path) file points)
  unfolding create_files points_per_file entry_of lookup
  create_files-reported points executions file =
      let killed = killed_mutants executions [] in
      mutants_in-file_entries killed file (points_per_file points)
      ∙ entries_of-map killed (group_of file (points_per_file points))
      ∙ ap (map (entry_of source_of info_of killed))
          (group_of-group_all (λ m. m.file_path) file points [])
      ∙ ap
          (λ (f : ℕ → Bool).
            map (λ (m : Mutant). shown (f m.id) m) (with_key (λ m. m.file_path) file points))
          (fun_ext
            (λ m. is_member-killed_mutants m executions [] ∙ or_false (is_killed executions m)))
    where
      shown : Bool → Mutant → MutantEntry
      shown b m = record {
        id = m.mutator;
        mutator_name = m.diagnostics;
        replacement = m.replacement;
        location = info_of m;
        status = if b then "Killed" else "Survived";
      }

      or_false : (b : Bool) → (b || false) ≡ b
      or_false true = refl
      or_false false = refl
