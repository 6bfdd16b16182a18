-- ===== src/Program/Finding.antt =====
-- The tests that lib/TestFrameworks/CustomTestFramework/CustomTestFinder.cpp finds.
use mull.Base.{
  String, List, [], ◌∷◌, ◌++◌, Bool, true, false, if◌then◌else◌, map, append_assoc, ◌≡◌, refl, sym,
  ap, ◌∙◌, fun_ext,
}
use mull.Base.Dict.{lookup}
use mull.Base.Groups.{group_of, with_key, group_of-group_all}
use mull.CommandLine.{CustomTestDefinition}
use mull.Program.{
  IrFunction, BitcodeFile, Program, Test, TestMapping, map_definitions, custom_test, tests_of,
  function_tests, file_tests, find_custom_tests,
}

-- The definitions of a method, in their order.
abbrev pub of_method : String → List CustomTestDefinition → List CustomTestDefinition
of_method name ds = with_key (λ d. d.method_name) name ds

-- The functions with a body.
abbrev pub with_body : List IrFunction → List IrFunction
with_body [] = []
with_body (f ∷ fs) = let rest = with_body fs in if f.is_declaration then rest else f ∷ rest

abbrev pub all_functions : List BitcodeFile → List IrFunction
all_functions [] = []
all_functions (b ∷ bs) = with_body b.functions ++ all_functions bs

-- For each function the tests that `each` gives.
abbrev pub tests_for : (IrFunction → List Test) → List IrFunction → List Test
tests_for each [] = []
tests_for each (f ∷ fs) = each f ++ tests_for each fs

tests_of-map :
    (f : IrFunction) (ds : List CustomTestDefinition) → tests_of f ds ≡ map (custom_test f) ds
unfolding tests_of
tests_of-map f [] = refl
tests_of-map f (d ∷ ds) = ap (λ l. custom_test f d ∷ l) (tests_of-map f ds)

function_tests-for :
    (m : TestMapping) (fs : List IrFunction)
    → function_tests m fs ≡ tests_for (λ f. map (custom_test f) (group_of f.name m)) (with_body fs)
unfolding function_tests
function_tests-for m [] = refl
function_tests-for m (f ∷ fs) = declared f.is_declaration (function_tests-for m fs)
  where
    declared :
        (d : Bool)
        → function_tests m fs
          ≡ tests_for (λ g. map (custom_test g) (group_of g.name m)) (with_body fs)
        → (if d then function_tests m fs else tests_of f (group_of f.name m) ++ function_tests m fs)
          ≡ tests_for
              (λ g. map (custom_test g) (group_of g.name m))
              (if d then with_body fs else f ∷ with_body fs)
    declared true rest = rest
    declared false rest = λ i. tests_of-map f (group_of f.name m) i ++ rest i

tests_for-append :
    (each : IrFunction → List Test) (fs gs : List IrFunction)
    → tests_for each (fs ++ gs) ≡ tests_for each fs ++ tests_for each gs
tests_for-append each [] gs = refl
tests_for-append each (f ∷ fs) gs =
    ap (λ l. each f ++ l) (tests_for-append each fs gs)
    ∙ sym (append_assoc (each f) (tests_for each fs) (tests_for each gs))

file_tests-for :
    (m : TestMapping) (bs : List BitcodeFile)
    → file_tests m bs ≡ tests_for (λ f. map (custom_test f) (group_of f.name m)) (all_functions bs)
unfolding file_tests
file_tests-for m [] = refl
file_tests-for m (b ∷ bs) =
    (λ i. function_tests-for m b.functions i ++ file_tests-for m bs i)
    ∙ sym (tests_for-append _ (with_body b.functions) (all_functions bs))

-- The tests are, for each function with a body in the order of the files, one for each definition
-- whose method is that function, in the order of the definitions.
pub find_custom_tests-of_method :
    (definitions : List CustomTestDefinition) (p : Program)
    → find_custom_tests definitions p
      ≡ tests_for
          (λ f. map (custom_test f) (of_method f.name definitions))
          (all_functions p.bitcode)
unfolding find_custom_tests lookup
find_custom_tests-of_method definitions p =
    file_tests-for (map_definitions definitions []) p.bitcode
    ∙ ap (λ (each : IrFunction → List Test). tests_for each (all_functions p.bitcode))
        (fun_ext (λ f.
          ap (map (custom_test f)) (group_of-group_all (λ d. d.method_name) f.name definitions [])))
