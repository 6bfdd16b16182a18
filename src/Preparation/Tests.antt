-- ===== src/Preparation/Tests.antt =====
-- A bitcode file of three functions, two mutants in one of them and one in another.
use mull.Base.{
  String, ℕ_discrete, ℕ, List, [], ◌∷◌, Option, none, some, map, ◌==◌, if◌then◌else◌, ◌≡◌, refl,
  arith,
}
use mull.Base.Dict.{lookup, insert}
use mull.Preparation.{
  Block, code, indirect_call, Function, MutationPoint, Bitcode, clone_functions, mutated_functions,
  delete_functions, insert_trampolines, apply_mutations, prepare,
}
use mull.Preparation.Prepared.{prepare-IsRedirected}
use mull.Preparation.Redirected.{IsPreparable, IsRedirected}

abbrev source : ℕ → Function ℕ
source k =
    if k == 0
    then record { name = "main"; blocks = code 10 ∷ [] }
    else if k == 1
    then record { name = "sum"; blocks = code 20 ∷ code 21 ∷ [] }
    else record { name = "max"; blocks = code 30 ∷ [] }

abbrev bitcode : Bitcode ℕ
bitcode = record {
  unique_identifier = "a_1";
  functions = source;
  next = 3;
  globals = [];
  mutation_points = [];
  mutated_function = λ i. none;
}

abbrev points : List MutationPoint
points =
    record { id = 7; unique_identifier = "m7"; original_function = 1 }
    ∷ record { id = 8; unique_identifier = "m8"; original_function = 2 }
    ∷ record { id = 9; unique_identifier = "m9"; original_function = 1 }
    ∷ []

-- A mutator that puts its point's number into every block.
abbrev mark : MutationPoint → List (Block ℕ) → List (Block ℕ)
mark p bs = map (λ _. code p.id) bs

abbrev blocks_after : ℕ → Option (Bitcode ℕ × List String) → List (Block ℕ)
blocks_after k none = []
blocks_after k (some (c, names)) = (c.functions k).blocks

redirected_sum :
    blocks_after 1 (prepare mark points bitcode) ≡ indirect_call "sum_a_1_trampoline" ∷ []
unfolding prepare clone_functions mutated_functions delete_functions insert_trampolines
    apply_mutations lookup insert ℕ_discrete
redirected_sum = refl

points-IsPreparable : IsPreparable points bitcode
points-IsPreparable = record {
  in_use = (omega arith, (omega arith, (omega arith, tt)));
  single = λ i. ground arith;
  no_points = refl;
  no_mutants = λ i. refl;
}

prepare-IsRedirected_example :
    (c : Bitcode ℕ) × (names : List String) × (prepare mark points bitcode ≡ some (c, names))
    × IsRedirected mark points bitcode c names
prepare-IsRedirected_example = prepare-IsRedirected mark points bitcode points-IsPreparable
