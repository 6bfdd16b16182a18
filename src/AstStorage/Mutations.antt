-- ===== src/AstStorage/Mutations.antt =====
-- lib/AST/ASTMutationStorage.cpp: the mutations that were found in the syntax trees, by source
-- file, kind, and hash of line and column. A failed assertion is `none`.
pub mod Entries
pub mod Refinement
pub mod Log
use mull.Base.{
  ℕ, ◌+◌, String, Option, none, some, List, [], ◌∷◌, Bool, true, false, ◌||◌, if◌then◌else◌,
  String_discrete, ℕ_discrete, length, assert, ◌>>=◌, ◌>>◌,
}
use mull.Base.Dict.{lookup, insert, emplace}
use mull.Mutators.Kind.{MutatorKind, mutator_kind_discrete}
use mull.AstStorage.{line_column_hash}
use mathlib.Core.Logic.{ite}

-- `statement` stands for the pointer to the statement of the syntax tree.
pub record AstMutation : Type 0 where
  pub mutator_kind : MutatorKind
  pub line : ℕ
  pub column : ℕ
  pub statement : ℕ

abbrev pub mutation : MutatorKind → (statement line column : ℕ) → AstMutation
mutation kind statement line column = record {
  mutator_kind = kind;
  line = line;
  column = column;
  statement = statement;
}

abbrev pub Bucket : Type 0
Bucket = List (ℕ × AstMutation)

abbrev pub AstUnit : Type 0
AstUnit = List (MutatorKind × Bucket)

abbrev pub Storage : Type 0
Storage = List (String × AstUnit)

abbrev pub or_empty {ℓ} : {A : Type ℓ} → Option (List A) → List A
or_empty none = []
or_empty (some xs) = xs

-- The entry is made in the maps of its file and kind, which are made when they are missing.
abbrev pub store : (file : String) → MutatorKind → (hash : ℕ) → AstMutation → Storage → Storage
store file kind hash m storage =
    let unit = or_empty (lookup String_discrete file storage) in
    let bucket = or_empty (lookup mutator_kind_discrete kind unit) in
    insert String_discrete file
      (insert mutator_kind_discrete kind (emplace ℕ_discrete hash m bucket) unit) storage

-- `count`: the mutations of all buckets.
pub count_unit : AstUnit → ℕ
count_unit [] = 0
count_unit ((kind, bucket) ∷ unit) = length bucket + count_unit unit

pub count : Storage → ℕ
unfolding count_unit
count [] = 0
count ((file, unit) ∷ storage) = count_unit unit + count storage

-- `is_regular_file` is that of `llvm::sys::fs`.
module _ (is_regular_file : String → Bool) where
  unfoldable pub is_source : String → Bool
  unfolding String_discrete
  is_source file = is_regular_file file || ite (String_discrete file "input.cc") true false

  -- The three levels of maps, entered in turn; a level without the key fails an assertion.
  abbrev pub find_bucket : (file : String) → MutatorKind → Storage → Option Bucket
  find_bucket file kind storage = do
    assert (is_source file)
    unit ← lookup String_discrete file storage
    lookup mutator_kind_discrete kind unit

  pub get_mutation :
      (file : String) → MutatorKind → (line column : ℕ) → Storage → Option AstMutation
  unfolding is_source
  get_mutation file kind line column storage = do
    bucket ← find_bucket file kind storage
    hash ← line_column_hash line column
    lookup ℕ_discrete hash bucket

  unfoldable pub mutation_exists :
      (file : String) → MutatorKind → (line column : ℕ) → Storage → Option Bool
  unfolding is_source
  mutation_exists file kind line column storage = do
    bucket ← find_bucket file kind storage
    hash ← line_column_hash line column
    some (elim (lookup ℕ_discrete hash bucket) [ none ↦ false | some _ ↦ true ])

  unfoldable pub save_mutation :
      (file : String) → MutatorKind → (statement line column : ℕ) → Storage → Option Storage
  unfolding is_source
  save_mutation file kind statement line column storage = do
    assert (is_source file)
    hash ← line_column_hash line column
    some (store file kind hash (mutation kind statement line column) storage)

-- `saveMutations` swaps the storage with the given map; the second part is what the caller's map
-- then holds.
pub save_mutations : (mutations storage : Storage) → Storage × Storage
save_mutations mutations storage = (mutations, storage)
