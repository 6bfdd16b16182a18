-- ===== src/Program/Lookup.antt =====
-- Which function a name leads to, in a program with its bitcode files.
use mull.Base.{
  ℕ, String, List, [], ◌∷◌, ◌++◌, Option, none, some, Bool, true, false, ◌||◌, if◌then◌else◌,
  String_discrete, or_else, IsIn-All, All, Bool-cases, ◌≡◌, ◌≢◌, inl, inr, refl, sym, ap, ◌∙◌,
  subst,
}
use mathlib.Core.Logic.{ite}
use mull.Base.Dict.{
  lookup, emplace, insert, lookup-insert_ne, lookup-emplace_self, lookup-emplace_ne,
}
use mull.Program.{
  IrFunction, Alias, BitcodeFile, Program, is_named, without_callback, delete_callbacks,
  register_function, register_functions, register_alias, register_aliases, bitcode_with_identifier,
  lookup_defined_function, add_bitcode, add_bitcodes, new_program,
}

-- The definition that a function gives a name: the callbacks of the instrumentation give none.
abbrev pub defines : String → IrFunction → Option ℕ
defines name f =
    if is_named f "mull_enterFunction" || is_named f "mull_leaveFunction"
    then none
    else if f.is_declaration
    then none
    else ite (String_discrete f.name name) (some f.id) none

abbrev pub first_function : String → List IrFunction → Option ℕ
first_function name [] = none
first_function name (f ∷ fs) = or_else (defines name f) (first_function name fs)

abbrev pub first_alias : String → List Alias → Option ℕ
first_alias name [] = none
first_alias name (a ∷ rest) =
    or_else (ite (String_discrete a.name name) a.aliasee none) (first_alias name rest)

-- The first definition in the order of the files, functions before aliases in each of them.
abbrev pub first_definition : String → List BitcodeFile → Option ℕ
first_definition name [] = none
first_definition name (b ∷ bs) =
    or_else (or_else (first_function name b.functions) (first_alias name b.aliases))
      (first_definition name bs)

assoc_or_else {ℓ} :
    {A : Type ℓ} (a b c : Option A) → or_else (or_else a b) c ≡ or_else a (or_else b c)
assoc_or_else none b c = refl
assoc_or_else (some a) b c = refl

or_else-none {ℓ} : {A : Type ℓ} (a : Option A) → or_else a none ≡ a
or_else-none none = refl
or_else-none (some a) = refl

-- `insert` of a pair in a registry, seen from any name.
lookup-emplace :
    (k name : String) (f : ℕ) (registry : List (String × ℕ))
    → lookup String_discrete name (emplace String_discrete k f registry)
      ≡ or_else (lookup String_discrete name registry) (ite (String_discrete k name) (some f) none)
lookup-emplace k name f registry =
    elim (String_discrete k name)
      as (λ d.
        lookup String_discrete name (emplace String_discrete k f registry)
        ≡ or_else (lookup String_discrete name registry) (ite d (some f) none)) [
          | yes e ↦
              subst
                (λ n.
                  lookup String_discrete n (emplace String_discrete k f registry)
                  ≡ or_else (lookup String_discrete n registry) (some f))
                e (lookup-emplace_self String_discrete k f registry)
          | no apart ↦
              lookup-emplace_ne String_discrete k name f registry apart
              ∙ sym (or_else-none (lookup String_discrete name registry))
        ]

lookup-register_function :
    (name : String) (f : IrFunction) (registry : List (String × ℕ))
    → lookup String_discrete name (register_function (without_callback f) registry)
      ≡ or_else (lookup String_discrete name registry) (defines name f)
unfolding without_callback
lookup-register_function name f registry =
    elim (Bool-cases (is_named f "mull_enterFunction" || is_named f "mull_leaveFunction")) [
      | inl callback ↦ rw callback (sym (or_else-none (lookup String_discrete name registry)))
      | inr other ↦ rw other (declared f.is_declaration)
    ]
  where
    declared :
        (d : Bool)
        → lookup String_discrete name
            (if d then registry else emplace String_discrete f.name f.id registry)
          ≡ or_else
              (lookup String_discrete name registry)
              (if d then none else ite (String_discrete f.name name) (some f.id) none)
    declared true = sym (or_else-none (lookup String_discrete name registry))
    declared false = lookup-emplace f.name name f.id registry

lookup-register_functions :
    (name : String) (fs : List IrFunction) (registry : List (String × ℕ))
    → lookup String_discrete name (register_functions (delete_callbacks fs) registry)
      ≡ or_else (lookup String_discrete name registry) (first_function name fs)
unfolding register_functions delete_callbacks
lookup-register_functions name [] registry =
    sym (or_else-none (lookup String_discrete name registry))
lookup-register_functions name (f ∷ fs) registry =
    lookup-register_functions name fs (register_function (without_callback f) registry)
    ∙ ap (λ o. or_else o (first_function name fs)) (lookup-register_function name f registry)
    ∙ assoc_or_else (lookup String_discrete name registry) (defines name f) (first_function name fs)

lookup-register_aliases :
    (name : String) (aliases : List Alias) (registry : List (String × ℕ))
    → lookup String_discrete name (register_aliases aliases registry)
      ≡ or_else (lookup String_discrete name registry) (first_alias name aliases)
unfolding register_aliases
lookup-register_aliases name [] registry = sym (or_else-none (lookup String_discrete name registry))
lookup-register_aliases name (a ∷ rest) registry =
    lookup-register_aliases name rest (register_alias a a.aliasee registry)
    ∙ ap (λ o. or_else o (first_alias name rest)) (one a.aliasee)
    ∙ assoc_or_else (lookup String_discrete name registry)
        (ite (String_discrete a.name name) a.aliasee none) (first_alias name rest)
  where
    one :
        (o : Option ℕ)
        → lookup String_discrete name (register_alias a o registry)
          ≡ or_else
              (lookup String_discrete name registry)
              (ite (String_discrete a.name name) o none)
    one none =
        elim (String_discrete a.name name)
          as (λ d.
            lookup String_discrete name registry
            ≡ or_else (lookup String_discrete name registry) (ite d none none)) [
              | yes _ ↦ sym (or_else-none (lookup String_discrete name registry))
              | no _ ↦ sym (or_else-none (lookup String_discrete name registry))
            ]
    one (some f) = lookup-emplace a.name name f registry

-- No two files have one identifier.
abbrev pub IsDistinctFiles : List BitcodeFile → Type 0
IsDistinctFiles [] = Unit
IsDistinctFiles (b ∷ bs) = All (λ c. b.identifier ≢ c.identifier) bs × IsDistinctFiles bs

abbrev added : BitcodeFile → Program → Program
added b p = record {
  bitcode = p.bitcode ++ record b { functions = delete_callbacks b.functions } ∷ [];
  functions_registry =
      register_aliases b.aliases
        (register_functions (delete_callbacks b.functions) p.functions_registry);
  bitcode_registry = insert String_discrete b.identifier b.id p.bitcode_registry;
}

add_bitcode-added :
    (b : BitcodeFile) (p : Program)
    → lookup String_discrete b.identifier p.bitcode_registry ≡ none
    → add_bitcode b p ≡ some (added b p)
unfolding add_bitcode bitcode_with_identifier
add_bitcode-added b p new = rw new refl

lookup-added :
    (name : String) (b : BitcodeFile) (p : Program)
    → lookup_defined_function name (added b p)
      ≡ or_else
          (lookup_defined_function name p)
          (or_else (first_function name b.functions) (first_alias name b.aliases))
unfolding lookup_defined_function
lookup-added name b p =
    lookup-register_aliases name b.aliases _
    ∙ ap (λ o. or_else o (first_alias name b.aliases))
        (lookup-register_functions name b.functions p.functions_registry)
    ∙ assoc_or_else (lookup String_discrete name p.functions_registry)
        (first_function name b.functions) (first_alias name b.aliases)

All-new :
    (b : BitcodeFile) (p : Program) (bs : List BitcodeFile)
    → All (λ c. b.identifier ≢ c.identifier) bs
    → All (λ c. lookup String_discrete c.identifier p.bitcode_registry ≡ none) bs
    → All (λ c. lookup String_discrete c.identifier (added b p).bitcode_registry ≡ none) bs
All-new b p [] apart new = tt
All-new b p (c ∷ bs) (a, apart) (n, new) = (
  lookup-insert_ne String_discrete b.identifier c.identifier b.id p.bitcode_registry a ∙ n,
  All-new b p bs apart new,
)

add_bitcodes-lookup :
    (bs : List BitcodeFile) (p : Program)
    → IsDistinctFiles bs
    → All (λ c. lookup String_discrete c.identifier p.bitcode_registry ≡ none) bs
    → (q : Program) × (add_bitcodes bs p ≡ some q)
      × ((name : String)
          → lookup_defined_function name q
            ≡ or_else (lookup_defined_function name p) (first_definition name bs))
unfolding add_bitcodes
add_bitcodes-lookup [] p d new =
    (p, refl, λ name. sym (or_else-none (lookup_defined_function name p)))
add_bitcodes-lookup (b ∷ bs) p d new =
    let (q, run, found) = add_bitcodes-lookup bs (added b p) d.1 (All-new b p bs d.0 new.1) in
    (
      q,
      rw (add_bitcode-added b p new.0) run,
      λ name.
          found name
          ∙ ap (λ o. or_else o (first_definition name bs)) (lookup-added name b p)
          ∙ assoc_or_else (lookup_defined_function name p)
              (or_else (first_function name b.functions) (first_alias name b.aliases))
              (first_definition name bs),
    )

-- A program of files with identifiers of their own is made without a failed assertion, and each name
-- then leads to the first definition of that name in the order of the files, functions before aliases
-- in each file, where the two callbacks of the instrumentation define nothing.
pub new_program-first_definition :
    (bs : List BitcodeFile)
    → IsDistinctFiles bs
    → (q : Program) × (new_program bs ≡ some q)
      × ((name : String) → lookup_defined_function name q ≡ first_definition name bs)
unfolding new_program lookup lookup_defined_function
new_program-first_definition bs d =
    add_bitcodes-lookup bs record { bitcode = []; functions_registry = []; bitcode_registry = [] } d
      (IsIn-All _ bs (λ c i. refl))
