-- ===== src/Program/Tests.antt =====
-- A program of two files.
use mull.Base.{
  ℕ, String, List, [], ◌∷◌, none, some, Bool, true, false, String_discrete, map, ◌≡◌, ◌≢◌, refl,
}
use mull.Base.Dict.{lookup, insert}
use mull.CommandLine.{CustomTestDefinition, main_test}
use mull.Program.{
  IrFunction, BitcodeFile, Program, new_program, add_bitcodes, add_bitcode, delete_callbacks,
  without_callback, is_named, register_functions, register_aliases, bitcode_with_identifier,
  lookup_defined_function, get_static_constructors, constructors_of_global, constructors_in, Test,
  find_custom_tests, custom_test, map_definitions, file_tests, function_tests, tests_of,
}
use mull.Program.Finding.{tests_for, of_method, all_functions, find_custom_tests-of_method}
use mull.Program.Lookup.{first_definition, new_program-first_definition}

abbrev function : ℕ → String → Bool → IrFunction
function id name is_declaration = record { id = id; name = name; is_declaration = is_declaration }

abbrev main_file : BitcodeFile
main_file = record {
  id = 1;
  identifier = "main.bc";
  functions =
      function 10 "main" false
      ∷ function 11 "sum" true
      ∷ function 12 "mull_enterFunction" false
      ∷ [];
  aliases = [];
  global_constructors = none;
}

abbrev sum_file : BitcodeFile
sum_file = record {
  id = 2;
  identifier = "sum.bc";
  functions = function 20 "sum" false ∷ function 21 "main" false ∷ [];
  aliases = record { name = "add"; aliasee = some 20 } ∷ [];
  global_constructors = some record {
    is_declaration = false;
    has_local_linkage = false;
    init_list = some (some (false, some 30) ∷ none ∷ some (true, some 31) ∷ []);
  };
}

constructors : get_static_constructors (main_file ∷ sum_file ∷ []) ≡ 30 ∷ []
unfolding get_static_constructors constructors_of_global constructors_in
constructors = refl

added_twice : new_program (main_file ∷ main_file ∷ []) ≡ none
unfolding new_program add_bitcodes add_bitcode delete_callbacks without_callback is_named
    register_functions register_aliases bitcode_with_identifier lookup insert String_discrete
added_twice = refl

identifiers_apart : main_file.identifier ≢ sum_file.identifier
unfolding String_discrete
identifiers_apart = λ e. elim (String_discrete "main.bc" "sum.bc") [ yes f ↦ cc (f) | no n ↦ n e ]

new_program-first_definition_example :
    (q : Program) × (new_program (main_file ∷ sum_file ∷ []) ≡ some q)
    × ((name : String)
        → lookup_defined_function name q ≡ first_definition name (main_file ∷ sum_file ∷ []))
new_program-first_definition_example =
    new_program-first_definition (main_file ∷ sum_file ∷ []) ((identifiers_apart, tt), (tt, tt))

abbrev configured : List CustomTestDefinition
configured = main_test "main" ∷ main_test "sum" ∷ []

abbrev both_files : Program
both_files = record {
  bitcode = main_file ∷ sum_file ∷ [];
  functions_registry = [];
  bitcode_registry = [];
}

find_custom_tests-of_method_example :
    find_custom_tests configured both_files
    ≡ tests_for
        (λ f. map (custom_test f) (of_method f.name configured))
        (all_functions both_files.bitcode)
find_custom_tests-of_method_example = find_custom_tests-of_method configured both_files

abbrev bodies : List Test → List ℕ
bodies [] = []
bodies (t ∷ ts) = t.test_body ∷ bodies ts

three_tests : bodies (find_custom_tests configured both_files) ≡ 10 ∷ 20 ∷ 21 ∷ []
unfolding find_custom_tests map_definitions file_tests function_tests tests_of custom_test lookup
    insert String_discrete
three_tests = refl
