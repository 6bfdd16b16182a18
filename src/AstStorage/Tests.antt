-- ===== src/AstStorage/Tests.antt =====
-- The hash of line 3, column 5, a log of three calls, and three declarations.
use mull.Base.{
  ℕ, ◌≡◌, ◌↔◌, refl, String, List, [], ◌∷◌, some, none, Bool, true, false, if◌then◌else◌,
  String_discrete, IsIn, ltb, arith,
}
use mull.Mutators.Kind.{MutatorKind, cxx_add_to_sub, cxx_mul_to_div}
use mull.AstStorage.{line_column_hash}
use mull.AstStorage.Mutations.{Storage, is_source, get_mutation, mutation_exists}
use mull.AstStorage.Mutations.Refinement.{Save, first_saved}
use mull.AstStorage.Mutations.Log.{save_all, is_known, is_some, save_all-first_saved}
use mull.AstStorage.Declarations.{Declaration, record_declarations, get_decl}
use mull.AstStorage.Declarations.Search.{Around, get_decl-Around}
use mull.AstStorage.Pairing.{line_column_hash-injective}

abbrev line : ℕ
line = 3

abbrev column : ℕ
column = 5

hash_39 : line_column_hash line column ≡ some 39
unfolding line_column_hash
hash_39 = refl

line_column_hash-injective_example : (line ≡ line) × (column ≡ column)
line_column_hash-injective_example =
    line_column_hash-injective line column line column 39 hash_39 hash_39

-- The product overflows from line 46340 on.
hash_overflow : line_column_hash 46340 1 ≡ none
unfolding line_column_hash
hash_overflow = refl

abbrev nothing_regular : String → Bool
nothing_regular file = false

abbrev save_at : MutatorKind → (statement line column : ℕ) → Save
save_at kind statement line column = record {
  file = "input.cc";
  kind = kind;
  statement = statement;
  line = line;
  column = column;
}

-- The third call is for the position of the first.
abbrev log : List Save
log =
    save_at cxx_add_to_sub 1 3 5 ∷ save_at cxx_mul_to_div 2 3 5 ∷ save_at cxx_add_to_sub 3 3 5 ∷ []

input-is_source : is_source nothing_regular "input.cc" ≡ true
unfolding is_source String_discrete
input-is_source = refl

save_all-first_saved_example :
    (t : Storage) × (save_all nothing_regular log [] ≡ some t)
    × (get_mutation nothing_regular "input.cc" cxx_add_to_sub 3 5 t
        ≡ first_saved "input.cc" cxx_add_to_sub 3 5 log)
    × (mutation_exists nothing_regular "input.cc" cxx_add_to_sub 3 5 t ≡ (
        if is_known "input.cc" cxx_add_to_sub log
        then some (is_some (first_saved "input.cc" cxx_add_to_sub 3 5 log))
        else none))
save_all-first_saved_example =
    save_all-first_saved nothing_regular log "input.cc" cxx_add_to_sub 3 5 39
      (
        (input-is_source, 39, hash_39),
        ((input-is_source, 39, hash_39), ((input-is_source, 39, hash_39), tt)),
      )
      input-is_source hash_39

abbrev declaration : (id begin end : ℕ) → Declaration
declaration id begin end = record { id = id; begin = begin; end = end; has_body = true }

-- The second lies in the first.
abbrev visited : List Declaration
visited = declaration 1 10 20 ∷ declaration 2 12 15 ∷ declaration 3 30 40 ∷ []

get_decl-Around_example :
    (get_decl 35 (record_declarations (λ ds. ds) (ltb 100) visited) ≡ some (declaration 3 30 40))
    ↔ (IsIn (declaration 3 30 40) (record_declarations (λ ds. ds) (ltb 100) visited)
        × Around 35 (declaration 3 30 40))
get_decl-Around_example =
    get_decl-Around (λ ds. ds) (ltb 100) visited 35 (declaration 3 30 40) (λ ds x k. k)
      (omega arith, (omega arith, (omega arith, tt)))
