-- ===== src/Preparation.antt =====
-- How the functions of a bitcode file are made ready for its mutants: addMutation of lib/Bitcode.cpp,
-- setMutatedFunction and the names of lib/MutationPoint.cpp, and the tasks of
-- lib/Parallelization/Tasks/MutantPreparationTasks.cpp and ApplyMutationTask.cpp in the order of
-- normalRunMutations of lib/Driver.cpp. Functions and points are numbers that stand for their address,
-- `next` is the first number not in use; the blocks of the source and what a mutator does to the
-- blocks of a function are parameters. A name is the one asked for: what LLVM appends to a name that is
-- taken is not modelled. A failed assertion is `none`.
mod Groups
mod Clones
mod Originals
mod Applied
mod Redirected
mod Trampolines
mod Prepared
mod Tests
use mull.Base.{
  String, concat, ℕ, suc, List, [], ◌∷◌, ◌++◌, Option, none, some, update, ℕ_discrete, ◌>>=◌,
}
use mull.Base.Dict.{lookup, insert}
use mull.Base.Names.{set_insert}

pub data Block (Code : Type 0) : Type 0 where
  code : Code → Block Code
  indirect_call : (pointer : String) → Block Code

pub record Function (Code : Type 0) : Type 0 where
  pub name : String
  pub blocks : List (Block Code)

pub record MutationPoint : Type 0 where
  pub id : ℕ
  pub unique_identifier : String
  pub original_function : ℕ

-- The vector of a function's points: the first one, and the others.
abbrev pub Points : Type 0
Points = MutationPoint × List MutationPoint

abbrev pub PointsMap : Type 0
PointsMap = List (ℕ × Points)

-- `mutated_function` holds that member of each point.
pub record Bitcode (Code : Type 0) : Type 0 where
  pub unique_identifier : String
  pub functions : ℕ → Function Code
  pub next : ℕ
  pub globals : List String
  pub mutation_points : PointsMap
  pub mutated_function : ℕ → Option ℕ

abbrev pub push_point : MutationPoint → Option Points → Points
push_point p none = (p, [])
push_point p (some (first, others)) = (first, others ++ p ∷ [])

abbrev pub add_point : MutationPoint → PointsMap → PointsMap
add_point p g =
    insert ℕ_discrete p.original_function (push_point p (lookup ℕ_discrete p.original_function g)) g

abbrev pub add_points : List MutationPoint → PointsMap → PointsMap
add_points [] g = g
add_points (p ∷ ps) g = add_points ps (add_point p g)

module _ {Code : Type 0} where
  abbrev pub with_functions : (ℕ → Function Code) → Bitcode Code → Bitcode Code
  with_functions functions b = record b { functions = functions }

  abbrev pub add_mutation : MutationPoint → Bitcode Code → Bitcode Code
  add_mutation p b = record b { mutation_points = add_point p b.mutation_points }

  abbrev pub add_mutations : List MutationPoint → Bitcode Code → Bitcode Code
  add_mutations [] b = b
  add_mutations (p ∷ ps) b = add_mutations ps (add_mutation p b)

  abbrev pub trampoline_name : Bitcode Code → MutationPoint → String
  trampoline_name b p =
      concat (b.functions p.original_function).name
        (concat "_" (concat b.unique_identifier "_trampoline"))

  abbrev pub original_function_name : Bitcode Code → MutationPoint → String
  original_function_name b p =
      concat (b.functions p.original_function).name
        (concat "_" (concat b.unique_identifier "_original"))

  -- `CloneFunction` with `setName`.
  abbrev pub clone_function : (original : ℕ) → (name : String) → Bitcode Code → Bitcode Code
  clone_function f name b = record b {
    functions = update b.functions b.next record { name = name; blocks = (b.functions f).blocks };
    next = suc b.next;
  }

  abbrev pub set_mutated_function : MutationPoint → ℕ → Bitcode Code → Bitcode Code
  set_mutated_function p k b = record b {
    mutated_function = update b.mutated_function p.id (some k);
  }

  abbrev pub clone_for : ℕ → MutationPoint → Bitcode Code → Bitcode Code
  clone_for f p b = set_mutated_function p b.next (clone_function f p.unique_identifier b)

  abbrev pub clone_points : ℕ → List MutationPoint → Bitcode Code → Bitcode Code
  clone_points f [] b = b
  clone_points f (p ∷ ps) b = clone_points f ps (clone_for f p b)

  unfoldable pub clone_functions : PointsMap → Bitcode Code → Bitcode Code
  clone_functions [] b = b
  clone_functions ((f, (p, ps)) ∷ g) b = clone_functions g (clone_points f (p ∷ ps) b)

  unfoldable pub mutated_functions : PointsMap → Bitcode Code → List String
  mutated_functions [] b = []
  mutated_functions ((f, (p, ps)) ∷ g) b = trampoline_name b p ∷ mutated_functions g b

  abbrev pub delete_body : ℕ → Bitcode Code → Bitcode Code
  delete_body f b =
      with_functions (update b.functions f record { name = (b.functions f).name; blocks = [] }) b

  unfoldable pub delete_functions : PointsMap → Bitcode Code → Bitcode Code
  delete_functions [] b = b
  delete_functions ((f, (p, ps)) ∷ g) b =
      delete_functions g (delete_body f (clone_function f (original_function_name b p) b))

  abbrev pub append_block : ℕ → Block Code → Bitcode Code → Bitcode Code
  append_block f block b =
      with_functions
        (update b.functions f
          record { name = (b.functions f).name; blocks = (b.functions f).blocks ++ block ∷ [] })
        b

  abbrev pub insert_trampoline : ℕ → String → Bitcode Code → Bitcode Code
  insert_trampoline f pointer b =
      append_block f (indirect_call pointer) record b { globals = set_insert pointer b.globals }

  unfoldable pub insert_trampolines : PointsMap → Bitcode Code → Bitcode Code
  insert_trampolines [] b = b
  insert_trampolines ((f, (p, ps)) ∷ g) b =
      insert_trampolines g (insert_trampoline f (trampoline_name b p) b)

  module _ (change : MutationPoint → List (Block Code) → List (Block Code)) where
    abbrev pub change_function : MutationPoint → ℕ → Bitcode Code → Bitcode Code
    change_function p k b =
        with_functions
          (update b.functions k
            record { name = (b.functions k).name; blocks = change p (b.functions k).blocks })
          b

    abbrev pub apply_to : MutationPoint → Option ℕ → Bitcode Code → Option (Bitcode Code)
    apply_to p none b = none
    apply_to p (some k) b = some (change_function p k b)

    abbrev pub apply_mutation : MutationPoint → Bitcode Code → Option (Bitcode Code)
    apply_mutation p b = apply_to p (b.mutated_function p.id) b

    unfoldable pub apply_mutations : List MutationPoint → Bitcode Code → Option (Bitcode Code)
    apply_mutations [] b = some b
    apply_mutations (p ∷ ps) b = apply_mutation p b >>= apply_mutations ps

    -- The steps of `normalRunMutations` up to the compilation, with the names of the trampolines.
    unfoldable pub prepare : List MutationPoint → Bitcode Code → Option (Bitcode Code × List String)
    unfolding clone_functions mutated_functions delete_functions insert_trampolines apply_mutations
    prepare points b0 =
        let b = add_mutations points b0 in
        let g = b.mutation_points in
        do
          c ←
              apply_mutations points
                (insert_trampolines g (delete_functions g (clone_functions g b)))
          some (c, mutated_functions g b)
