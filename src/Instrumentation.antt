-- ===== src/Instrumentation.antt =====
-- lib/Instrumentation/Instrumentation.cpp and the index arithmetic of
-- lib/Instrumentation/Callbacks.cpp: numbering the functions of all modules, and what a callback
-- passes at run time. A module is its identifier and its functions in order; the instrumented copy
-- of a module lists the same functions.
mod Tests
pub mod Offsets
pub mod Reports
use mull.Base.{
  ℕ, suc, ◌+◌, ◌%◌, ◌^◌, List, [], ◌∷◌, ◌++◌, Option, none, some, Bool, String, String_discrete,
  length, map,
}
use mull.Base.Dict.{insert}
use mull.CallTree.{Build, create_call_tree}
use mull.CallTree.Search.{Reached, extract_test_subtrees, create_reachable_functions, bind_list}

pub record Function : Type 0 where
  pub address : ℕ
  pub is_declaration : Bool

pub record Module : Type 0 where
  pub identifier : String
  pub function_list : List Function

-- `functions` holds the functions of all modules behind the phony root's null pointer, and
-- `functionOffsetMapping` where each module's functions start.
pub record Instrumentation : Type 0 where
  pub functions : List (Option ℕ)
  pub function_offset_mapping : List (String × ℕ)

-- The constructor.
unfoldable pub new_instrumentation : Instrumentation
new_instrumentation = record { functions = none ∷ []; function_offset_mapping = [] }

-- The functions of a module that are not declarations, in order.
unfoldable pub defined : List Function → List ℕ
defined [] = []
defined (f ∷ fs) = elim f.is_declaration [
  | Bool.true ↦ defined fs
  | Bool.false ↦ f.address ∷ defined fs
]

unfoldable pub record_functions : Module → Instrumentation → Instrumentation
unfolding defined
record_functions original s = record {
  functions = s.functions ++ map some (defined original.function_list);
  function_offset_mapping =
      insert String_discrete original.identifier (length s.functions) s.function_offset_mapping;
}

-- The loop of `Driver::compileInstrumentedBitcodeFiles` over the modules (lib/Driver.cpp).
unfoldable pub record_all : List Module → Instrumentation → Instrumentation
unfolding record_functions
record_all [] s = s
record_all (original ∷ rest) s = record_all rest (record_functions original s)

-- The loop of `insertCallbacks`: each defined function with the index that its callbacks carry.
unfoldable pub insert_callbacks : ℕ → List Function → List (ℕ × ℕ)
insert_callbacks index [] = []
insert_callbacks index (f ∷ fs) = elim f.is_declaration [
  | Bool.true ↦ insert_callbacks index fs
  | Bool.false ↦ (f.address, index) ∷ insert_callbacks (index + 1) fs
]

-- The `add` that `injectCallbacks` inserts, on 32-bit integers.
pub callback_index : (index offset : ℕ) → ℕ
callback_index index offset = (index + offset) % 2 ^ 32

-- `getReachableFunctions` of a test whose body is `entry`.
pub get_reachable_functions : ℕ → (ℕ → ℕ) → List (Option ℕ) → Option ℕ → ℕ → Option (List Reached)
get_reachable_functions fuel mapping functions entry distance =
    elim (create_call_tree fuel mapping functions) [
      | none ↦ none
      | some tree ↦
          bind_list (extract_test_subtrees fuel tree.nodes 0 entry)
            (λ subtrees. create_reachable_functions fuel tree.nodes subtrees distance)
    ]
