-- ===== src/Program.antt =====
-- lib/Program/Program.cpp: the bitcode files of a program, their functions by name and their static
-- constructors; and the tests found in them, findTests of
-- lib/TestFrameworks/CustomTestFramework/CustomTestFinder.cpp. Functions and files have numbers that
-- stand for their address. A failed assertion is `none`.
mod Lookup
mod Finding
mod Tests
use mathlib.Core.Logic.{ite}
use mull.Base.{
  ℕ, String, List, [], ◌∷◌, ◌++◌, Option, none, some, Bool, true, false, not, ◌||◌, ◌&&◌,
  if◌then◌else◌, String_discrete, assert, ◌>>=◌, ◌>>◌,
}
use mull.Base.Dict.{lookup, emplace, insert}
use mull.Base.Groups.{group_all, group_of}
use mull.CommandLine.{CustomTestDefinition}

pub record IrFunction : Type 0 where
  pub id : ℕ
  pub name : String
  pub is_declaration : Bool

-- An alias, with the function that it stands for if it stands for one.
pub record Alias : Type 0 where
  pub name : String
  pub aliasee : Option ℕ

-- An operand of `llvm.global_ctors`: `none` where it is no struct, otherwise whether its function is
-- null, and the function, if it is one after a cast is taken off.
abbrev pub Constructor : Type 0
Constructor = Option (Bool × Option ℕ)

-- The global of that name: whether it is a declaration or local, and the array of its initializer.
pub record GlobalConstructors : Type 0 where
  pub is_declaration : Bool
  pub has_local_linkage : Bool
  pub init_list : Option (List Constructor)

pub record BitcodeFile : Type 0 where
  pub id : ℕ
  pub identifier : String
  pub functions : List IrFunction
  pub aliases : List Alias
  pub global_constructors : Option GlobalConstructors

pub record Program : Type 0 where
  pub bitcode : List BitcodeFile
  pub functions_registry : List (String × ℕ)
  pub bitcode_registry : List (String × ℕ)

unfoldable pub is_named : IrFunction → String → Bool
unfolding String_discrete
is_named f name = ite (String_discrete f.name name) true false

-- The callbacks lose their body, which makes them declarations.
unfoldable pub without_callback : IrFunction → IrFunction
unfolding is_named
without_callback f =
    if is_named f "mull_enterFunction" || is_named f "mull_leaveFunction"
    then record f { is_declaration = true }
    else f

unfoldable pub delete_callbacks : List IrFunction → List IrFunction
unfolding without_callback
delete_callbacks [] = []
delete_callbacks (f ∷ fs) = without_callback f ∷ delete_callbacks fs

abbrev pub register_function : IrFunction → List (String × ℕ) → List (String × ℕ)
register_function f registry =
    if f.is_declaration then registry else emplace String_discrete f.name f.id registry

unfoldable pub register_functions : List IrFunction → List (String × ℕ) → List (String × ℕ)
register_functions [] registry = registry
register_functions (f ∷ fs) registry = register_functions fs (register_function f registry)

abbrev pub register_alias : Alias → Option ℕ → List (String × ℕ) → List (String × ℕ)
register_alias a none registry = registry
register_alias a (some f) registry = emplace String_discrete a.name f registry

unfoldable pub register_aliases : List Alias → List (String × ℕ) → List (String × ℕ)
register_aliases [] registry = registry
register_aliases (a ∷ rest) registry = register_aliases rest (register_alias a a.aliasee registry)

unfoldable pub bitcode_with_identifier : String → Program → Option ℕ
bitcode_with_identifier identifier p = lookup String_discrete identifier p.bitcode_registry

unfoldable pub lookup_defined_function : String → Program → Option ℕ
lookup_defined_function name p = lookup String_discrete name p.functions_registry

abbrev pub is_none {ℓ} : {A : Type ℓ} → Option A → Bool
is_none none = true
is_none (some a) = false

unfoldable pub add_bitcode : BitcodeFile → Program → Option Program
unfolding delete_callbacks register_functions register_aliases bitcode_with_identifier
add_bitcode b p =
    let functions = delete_callbacks b.functions in
    do
      assert (is_none (bitcode_with_identifier b.identifier p))
      some record {
        bitcode = p.bitcode ++ record b { functions = functions } ∷ [];
        functions_registry =
            register_aliases b.aliases (register_functions functions p.functions_registry);
        bitcode_registry = insert String_discrete b.identifier b.id p.bitcode_registry;
      }

unfoldable pub add_bitcodes : List BitcodeFile → Program → Option Program
unfolding add_bitcode
add_bitcodes [] p = some p
add_bitcodes (b ∷ bs) p = add_bitcode b p >>= add_bitcodes bs

-- The constructor of `Program`.
unfoldable pub new_program : List BitcodeFile → Option Program
unfolding add_bitcodes
new_program bs =
    add_bitcodes bs record { bitcode = []; functions_registry = []; bitcode_registry = [] }

unfoldable pub constructors_in : List Constructor → List ℕ
constructors_in [] = []
constructors_in (none ∷ cs) = constructors_in cs
constructors_in (some (is_null, none) ∷ cs) = constructors_in cs
constructors_in (some (is_null, some f) ∷ cs) =
    let rest = constructors_in cs in if is_null then rest else f ∷ rest

abbrev pub constructors_of : Option (List Constructor) → List ℕ
constructors_of none = []
constructors_of (some cs) = constructors_in cs

unfoldable pub constructors_of_global : Option GlobalConstructors → List ℕ
unfolding constructors_in
constructors_of_global none = []
constructors_of_global (some g) =
    if g.is_declaration || g.has_local_linkage then [] else constructors_of g.init_list

unfoldable pub get_static_constructors : List BitcodeFile → List ℕ
unfolding constructors_of_global
get_static_constructors [] = []
get_static_constructors (b ∷ bs) =
    constructors_of_global b.global_constructors ++ get_static_constructors bs

pub record Test : Type 0 where
  pub test_name : String
  pub program_name : String
  pub driver_function_name : String
  pub arguments : List String
  pub test_body : ℕ

abbrev pub TestMapping : Type 0
TestMapping = List (String × List CustomTestDefinition)

-- `testMapping[definition.methodName].push_back(definition)` for each definition.
unfoldable pub map_definitions : List CustomTestDefinition → TestMapping → TestMapping
map_definitions ds m = group_all (λ d. d.method_name) ds m

unfoldable pub custom_test : IrFunction → CustomTestDefinition → Test
unfolding String_discrete
custom_test f d = record {
  test_name = d.test_name;
  program_name = ite (String_discrete d.program_name "") "mull" d.program_name;
  driver_function_name = "main";
  arguments = d.call_arguments;
  test_body = f.id;
}

unfoldable pub tests_of : IrFunction → List CustomTestDefinition → List Test
unfolding custom_test
tests_of f [] = []
tests_of f (d ∷ ds) = custom_test f d ∷ tests_of f ds

unfoldable pub function_tests : TestMapping → List IrFunction → List Test
unfolding tests_of
function_tests m [] = []
function_tests m (f ∷ fs) =
    let rest = function_tests m fs in
    if f.is_declaration then rest else tests_of f (group_of f.name m) ++ rest

unfoldable pub file_tests : TestMapping → List BitcodeFile → List Test
unfolding function_tests
file_tests m [] = []
file_tests m (b ∷ bs) = function_tests m b.functions ++ file_tests m bs

-- `CustomTestFinder::findTests`.
unfoldable pub find_custom_tests : List CustomTestDefinition → Program → List Test
unfolding map_definitions file_tests
find_custom_tests definitions p = file_tests (map_definitions definitions []) p.bitcode
