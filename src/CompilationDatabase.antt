-- ===== src/CompilationDatabase.antt =====
-- lib/JunkDetection/CXX/CompilationDatabase.cpp: the compilation flags of a source file. Texts are
-- lists of their characters, and a map is an association list.
pub mod Flags
pub mod Escapes
mod Tests
use mull.Base.{
  ℕ, List, [], ◌∷◌, ◌++◌, Option, none, some, Bool, true, false, not, ◌&&◌, ◌||◌, ◌==◌, leb,
  if◌then◌else◌, drop, map, ℕ_discrete,
}
use mull.Base.Dict.{lookup, insert}
use mathlib.Core.Logic.{ite}

abbrev pub Text : Type 0
Text = List ℕ

unfoldable pub text_discrete : Discrete Text
text_discrete = hlevel ℕ_discrete

abbrev pub backslash : ℕ
backslash = 92

abbrev pub quote : ℕ
quote = 34

-- `regex_replace` of a backslash and the character `c` by `c`.
pub replace_pair : (c : ℕ) → Text → Text
replace_pair c [] = []
replace_pair c (a ∷ []) = a ∷ []
replace_pair c (a ∷ b ∷ text) =
    let after = replace_pair c text in
    let next = replace_pair c (b ∷ text) in
    if (a == backslash) && (b == c) then c ∷ after else a ∷ next

pub undo_escaping_string : Text → Text
unfolding replace_pair
undo_escaping_string text = replace_pair backslash (replace_pair quote text)

abbrev pub compile_only : Text
compile_only = 45 ∷ 99 ∷ []

abbrev pub is_text : Text → Text → Bool
is_text a b = ite (text_discrete a b) true false

-- The loop of `filterFlags`: "-c" goes, and so does what comes after it.
pub filter_loop : List Text → List Text
filter_loop [] = []
filter_loop (flag ∷ []) = if is_text flag compile_only then [] else flag ∷ []
filter_loop (flag ∷ value ∷ flags) =
    let after = filter_loop flags in
    let next = filter_loop (value ∷ flags) in
    if is_text flag compile_only then after else flag ∷ next

pub filter_flags : List Text → (strip_compiler : Bool) → List Text
unfolding filter_loop
filter_flags flags strip_compiler = filter_loop (if strip_compiler then drop 1 flags else flags)

-- White space in the default locale.
abbrev pub is_space : ℕ → Bool
is_space c = (c == 32) || (leb 9 c && leb c 13)

abbrev push_word : Text → List Text → List Text
push_word [] words = words
push_word (c ∷ cs) words = (c ∷ cs) ∷ words

-- The words of a text, of which `value` has been read.
pub words_from : (value : Text) → Text → List Text
words_from value [] = push_word value []
words_from value (c ∷ cs) =
    let ended = words_from [] cs in
    let longer = words_from (value ++ c ∷ []) cs in
    if is_space c then push_word value ended else longer

pub flags_from_string : Text → List Text
unfolding words_from
flags_from_string s = words_from [] s

pub record CompileCommand : Type 0 where
  pub directory : Text
  pub file : Text
  pub command : Text
  pub arguments : List Text

abbrev pub flags_from_command : CompileCommand → List Text
flags_from_command c = elim c.arguments [
  | [] ↦ filter_flags (flags_from_string c.command) true
  | a ∷ as' ↦ filter_flags (a ∷ as') true
]

-- `std::remove` and `erase`.
abbrev pub remove_text : Text → List Text → List Text
remove_text file [] = []
remove_text file (flag ∷ flags) =
    let rest = remove_text file flags in if is_text flag file then rest else flag ∷ rest

pub flags_with_extra : CompileCommand → (extra_flags : List Text) → List Text
unfolding undo_escaping_string
flags_with_extra c extra_flags =
    map undo_escaping_string (remove_text c.file (flags_from_command c)) ++ extra_flags

abbrev pub FlagsMap : Type 0
FlagsMap = List (Text × List Text)

abbrev slash : ℕ
slash = 47

-- `is_absolute` is that of `llvm::sys::path`, whose separator is a slash.
abbrev pub file_path : (is_absolute : Text → Bool) → CompileCommand → Text
file_path is_absolute c = elim c.file [
  | [] ↦ []
  | a ∷ rest ↦ if is_absolute (a ∷ rest) then a ∷ rest else c.directory ++ slash ∷ a ∷ rest
]

-- The loop of `loadDatabaseFromFile` over the commands that were read; there are none when the path is
-- empty or the file cannot be read.
pub load_database :
    (is_absolute : Text → Bool)
    → (extra_flags : List Text) → List CompileCommand
    → FlagsMap
    → FlagsMap
unfolding flags_with_extra
load_database is_absolute extra_flags [] database = database
load_database is_absolute extra_flags (c ∷ cs) database =
    load_database is_absolute extra_flags cs
      (insert text_discrete (file_path is_absolute c) (flags_with_extra c extra_flags) database)

pub create_bitcode_flags : (extra_flags : List Text) → List (Text × Text) → FlagsMap → FlagsMap
unfolding filter_flags flags_from_string
create_bitcode_flags extra_flags [] merged = merged
create_bitcode_flags extra_flags ((name, flags) ∷ entries) merged =
    create_bitcode_flags extra_flags entries (
      insert text_discrete name
        (remove_text name (filter_flags (flags_from_string flags) true) ++ extra_flags) merged)

pub record CompilationDatabase : Type 0 where
  pub extra_flags : List Text
  pub database : FlagsMap
  pub bitcode_flags : FlagsMap

-- The first of the names that the map has.
abbrev pub find_first : List Text → FlagsMap → Option (List Text)
find_first [] m = none
find_first (name ∷ names) m = elim (lookup text_discrete name m) [
  | some flags ↦ some flags
  | none ↦ find_first names m
]

abbrev first_of : List Text → List Text → FlagsMap → FlagsMap → List Text → List Text
first_of names more bitcode_flags database extra_flags = elim (find_first names bitcode_flags) [
  | some flags ↦ flags
  | none ↦ elim (find_first more database) [ some flags ↦ flags | none ↦ extra_flags ]
]

abbrev is_empty : FlagsMap → Bool
is_empty [] = true
is_empty (entry ∷ m) = false

-- `filename` and `remove_dots` are those of `llvm::sys::path`. The dots are removed once more before
-- the last look.
pub compilation_flags_for_file :
    (filename remove_dots : Text → Text) → CompilationDatabase → Text → List Text
compilation_flags_for_file filename remove_dots db path =
    let dotless = remove_dots path in
    let found =
      first_of (path ∷ filename path ∷ dotless ∷ [])
        (path ∷ filename path ∷ remove_dots dotless ∷ []) db.bitcode_flags db.database
        db.extra_flags in
    if is_empty db.database && is_empty db.bitcode_flags then db.extra_flags else found
