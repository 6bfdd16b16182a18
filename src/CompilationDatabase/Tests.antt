-- ===== src/CompilationDatabase/Tests.antt =====
-- Small command lines.
use mull.Base.{◌≡◌, ◌≢◌, refl, List, [], ◌∷◌, true, All}
use mull.CompilationDatabase.{
  Text, compile_only, filter_flags, flags_from_string, undo_escaping_string,
}
use mull.CompilationDatabase.Escapes.{escape, undo_escaping_string-escape}
use mull.CompilationDatabase.Flags.{joined_words, filter_flags-All, flags_from_string-joined_words}

abbrev compiler : Text
compiler = 99 ∷ 99 ∷ []

-- It has a backslash and a quote.
abbrev source : Text
source = 97 ∷ 92 ∷ 34 ∷ []

abbrev command_line : List Text
command_line = compiler ∷ compile_only ∷ source ∷ (45 ∷ 103 ∷ []) ∷ []

filter_flags-All_case : All (λ flag. flag ≢ compile_only) (filter_flags command_line true)
filter_flags-All_case = filter_flags-All command_line true

flags_from_string-joined_words_example :
    flags_from_string (joined_words command_line) ≡ command_line
flags_from_string-joined_words_example = flags_from_string-joined_words command_line (
  (refl, (refl, tt)),
  ((refl, (refl, tt)), ((refl, (refl, (refl, tt))), ((refl, (refl, tt)), tt))),
)

undo_escaping_string-escape_example : undo_escaping_string (escape source) ≡ source
undo_escaping_string-escape_example = undo_escaping_string-escape source
