-- ===== src/Instrumentation/Tests.antt =====
-- The instrumentation of two modules, and the reports of an execution.
use mull.Base.{
  ℕ, ◌^◌, ◌≤◌, ◌≡◌, refl, List, [], ◌∷◌, none, some, arith, String_discrete, true, false, length,
  get_elem?,
}
use mull.Base.Dict.{lookup, insert}
use mull.CallTree.Search.{Reached}
use mull.CallTree.Tests.{calls, addresses, recorded, calls-run, calls-IsBelow}
use mull.Instrumentation.{
  Module, new_instrumentation, record_all, record_functions, defined, insert_callbacks,
  callback_index, get_reachable_functions,
}
use mull.Instrumentation.Offsets.{callback_index-function}
use mull.Instrumentation.Reports.{IsReachReport, get_reachable_functions-run}

get_reachable_functions-run_example :
    (found : List Reached) × (get_reachable_functions 9 recorded.mapping
        (none ∷ addresses)
        (some 11)
        2
      ≡ some found)
    × IsReachReport recorded.mapping (none ∷ addresses) (some 11) 2 found
get_reachable_functions-run_example =
    get_reachable_functions-run calls addresses recorded (some 11) 2 9 calls-IsBelow calls-run
      (omega arith) (omega arith)

abbrev first_module : Module
first_module = record {
  identifier = "first.bc";
  function_list =
      record { address = 21; is_declaration = false }
      ∷ record { address = 22; is_declaration = true }
      ∷ [];
}

abbrev second_module : Module
second_module = record {
  identifier = "second.bc";
  function_list =
      record { address = 22; is_declaration = false }
      ∷ record { address = 21; is_declaration = true }
      ∷ record { address = 23; is_declaration = false }
      ∷ [];
}

second_callback : get_elem? (insert_callbacks 0 second_module.function_list) 1 ≡ some (23, 1)
unfolding insert_callbacks
second_callback = refl

few_functions :
    length (record_all (first_module ∷ second_module ∷ []) new_instrumentation).functions ≤ 2 ^ 32
unfolding record_all record_functions new_instrumentation defined insert String_discrete
few_functions = omega arith

callback_index-function_example :
    (offset : ℕ) × (lookup String_discrete "second.bc"
        (record_all (first_module ∷ second_module ∷ []) new_instrumentation).function_offset_mapping
      ≡ some offset)
    × (get_elem?
          (record_all (first_module ∷ second_module ∷ []) new_instrumentation).functions
          (callback_index 1 offset)
        ≡ some (some 23))
callback_index-function_example =
    callback_index-function (first_module ∷ []) [] second_module 1 23 1 tt second_callback
      few_functions
