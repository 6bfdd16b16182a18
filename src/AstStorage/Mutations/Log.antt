-- ===== src/AstStorage/Mutations/Log.antt =====
-- A sequence of calls of lib/AST/ASTMutationStorage.cpp against the log of what they saved.
use mull.Base.{
  ℕ, ◌≡◌, refl, sym, ap, ◌∙◌, subst, String, Option, none, some, List, [], ◌∷◌, Bool, true, false,
  ◌||◌, if◌then◌else◌, String_discrete, ℕ_discrete, or_else, ◌>>=◌, All,
}
use mull.Base.Dict.{lookup}
use mull.Mutators.Kind.{MutatorKind, mutator_kind_discrete}
use mull.AstStorage.{line_column_hash}
use mull.AstStorage.Mutations.{
  AstMutation, mutation, AstUnit, Bucket, Storage, is_source, find_bucket, get_mutation,
  mutation_exists, save_mutation,
}
use mull.AstStorage.Mutations.Entries.{
  find, bucket_at, in_bucket, bucket_of, bucket_at-store_self, bucket_at-store_kind,
  bucket_at-store_file,
}
use mull.AstStorage.Mutations.Refinement.{Save, here, first_saved, find-store, saved, or_else-none}
use mathlib.Core.Logic.{ite}

abbrev pub is_some {ℓ} : {A : Type ℓ} → Option A → Bool
is_some none = false
is_some (some a) = true

-- A call was for the file and the kind.
abbrev pub is_for : String → MutatorKind → Save → Bool
is_for file kind e =
    ite (String_discrete e.file file) (ite (mutator_kind_discrete e.kind kind) true false) false

-- Some call was for the file and the kind.
abbrev pub is_known : String → MutatorKind → List Save → Bool
is_known file kind [] = false
is_known file kind (e ∷ es) = is_known file kind es || is_for file kind e

or_else_assoc {ℓ} :
    {A : Type ℓ} (a b c : Option A) → or_else (or_else a b) c ≡ or_else a (or_else b c)
or_else_assoc none b c = refl
or_else_assoc (some a) b c = refl

||_assoc : (a b c : Bool) → ((a || b) || c) ≡ (a || (c || b))
||_assoc true b c = refl
||_assoc false true true = refl
||_assoc false true false = refl
||_assoc false false true = refl
||_assoc false false false = refl

||-false : (b : Bool) → (b || false) ≡ b
||-false true = refl
||-false false = refl

||-true : (b : Bool) → (b || true) ≡ true
||-true true = refl
||-true false = refl

is_some-store :
    (file : String) (kind : MutatorKind) (k : ℕ) (e : Save) (s : Storage)
    → is_some (bucket_at file kind (saved k e s))
      ≡ (is_some (bucket_at file kind s) || is_for file kind e)
is_some-store file kind k e s =
    let m = mutation e.kind e.statement e.line e.column in
    let after = saved k e s in
    elim (String_discrete e.file file)
      as (λ d. is_some (bucket_at file kind after) ≡ (
        is_some (bucket_at file kind s)
        || ite d (ite (mutator_kind_discrete e.kind kind) true false) false)) [
          | no n ↦
              ap is_some (bucket_at-store_file e.file e.kind k m s file kind n)
              ∙ sym (||-false (is_some (bucket_at file kind s)))
          | yes p ↦
              elim (mutator_kind_discrete e.kind kind)
                as (λ d.
                  is_some (bucket_at file kind after)
                  ≡ (is_some (bucket_at file kind s) || ite d true false)) [
                    | no n ↦
                        subst
                          (λ x.
                            is_some (bucket_at x kind after)
                            ≡ (is_some (bucket_at x kind s) || false))
                          p
                          (ap is_some (bucket_at-store_kind e.file e.kind k m s kind n)
                            ∙ sym (||-false (is_some (bucket_at e.file kind s))))
                    | yes q ↦
                        subst
                          (λ x.
                            is_some (bucket_at x kind after)
                            ≡ (is_some (bucket_at x kind s) || true))
                          p
                          (subst
                            (λ y.
                              is_some (bucket_at e.file y after)
                              ≡ (is_some (bucket_at e.file y s) || true))
                            q
                            (ap is_some (bucket_at-store_self e.file e.kind k m s)
                              ∙ sym (||-true (is_some (bucket_at e.file e.kind s)))))
                  ]
        ]

module _ (is_regular_file : String → Bool) where
  -- The calls in turn.
  abbrev pub save_all : List Save → Storage → Option Storage
  save_all [] s = some s
  save_all (e ∷ es) s =
      save_mutation is_regular_file e.file e.kind e.statement e.line e.column s >>= save_all es

  -- No assertion of the call fails, and its hash does not overflow.
  abbrev pub IsFine : Save → Type 0
  IsFine e =
      (is_source is_regular_file e.file ≡ true)
      × (k : ℕ) × (line_column_hash e.line e.column ≡ some k)

  -- What a storage holds, when it held `s` before the calls of the log.
  pub record Holds (log : List Save) (s t : Storage) : Type 0 where
    pub at :
        (file : String) (kind : MutatorKind) (line column h : ℕ)
        → line_column_hash line column ≡ some h
        → find file kind h t ≡ or_else (find file kind h s) (first_saved file kind line column log)
    pub known :
        (file : String) (kind : MutatorKind)
        → is_some (bucket_at file kind t)
          ≡ (is_some (bucket_at file kind s) || is_known file kind log)

  save_mutation-saved :
      (e : Save) (s : Storage) (k : ℕ)
      → is_source is_regular_file e.file ≡ true
      → line_column_hash e.line e.column ≡ some k
      → save_mutation is_regular_file e.file e.kind e.statement e.line e.column s
        ≡ some (saved k e s)
  unfolding save_mutation
  save_mutation-saved e s k source hash = rw (source, hash) refl

  save_all-Holds :
      (log : List Save) (s : Storage)
      → All IsFine log
      → (t : Storage) × (save_all log s ≡ some t) × Holds log s t
  save_all-Holds [] s fine = (
    s,
    refl,
    record {
      at = λ file kind line column h e. sym (or_else-none (find file kind h s));
      known = λ file kind. sym (||-false _);
    },
  )
  save_all-Holds (e ∷ es) s ((source, k, hash), fine) =
      let (t, is_t, rest) = save_all-Holds es (saved k e s) fine in
      (
        t,
        ap (λ o. o >>= save_all es) (save_mutation-saved e s k source hash) ∙ is_t,
        record {
          at = λ file kind line column h at_h.
              rest.at file kind line column h at_h
              ∙ ap (λ o. or_else o (first_saved file kind line column es))
                  (find-store line column h k e s file kind at_h hash)
              ∙ or_else_assoc (find file kind h s) (here file kind line column e)
                  (first_saved file kind line column es);
          known = λ file kind.
              rest.known file kind
              ∙ ap (λ b. b || is_known file kind es) (is_some-store file kind k e s)
              ∙ ||_assoc (is_some (bucket_at file kind s)) (is_for file kind e)
                  (is_known file kind es);
        },
      )

  module _ (file : String) (kind : MutatorKind) (line column h : ℕ) (t : Storage) where
    find_bucket-bucket_at :
        is_source is_regular_file file ≡ true
        → find_bucket is_regular_file file kind t ≡ bucket_at file kind t
    find_bucket-bucket_at source = rw source (inner (lookup String_discrete file t))
      where
        inner :
            (o : Option AstUnit)
            → (o >>= λ unit. lookup mutator_kind_discrete kind unit) ≡ bucket_of kind o
        inner none = refl
        inner (some unit) = refl

    get_mutation-find :
        is_source is_regular_file file ≡ true
        → line_column_hash line column ≡ some h
        → get_mutation is_regular_file file kind line column t ≡ find file kind h t
    unfolding get_mutation
    get_mutation-find source hash =
        rw (find_bucket-bucket_at source, hash) (inner (bucket_at file kind t))
      where
        inner : (o : Option Bucket) → (o >>= λ bucket. lookup ℕ_discrete h bucket) ≡ in_bucket h o
        inner none = refl
        inner (some bucket) = refl

    mutation_exists-find :
        is_source is_regular_file file ≡ true
        → line_column_hash line column ≡ some h
        → mutation_exists is_regular_file file kind line column t
          ≡ (if is_some (bucket_at file kind t) then some (is_some (find file kind h t)) else none)
    unfolding mutation_exists
    mutation_exists-find source hash =
        rw (find_bucket-bucket_at source, hash) (inner (bucket_at file kind t))
      where
        replied :
            (o : Option AstMutation)
            → some (elim o [ none ↦ false | some _ ↦ true ]) ≡ some (is_some o)
        replied none = refl
        replied (some m) = refl

        inner :
            (o : Option Bucket)
            → (o >>= λ bucket.
                some (elim (lookup ℕ_discrete h bucket) [ none ↦ false | some _ ↦ true ]))
              ≡ (if is_some o then some (is_some (in_bucket h o)) else none)
        inner none = refl
        inner (some bucket) = replied (lookup ℕ_discrete h bucket)

  -- Calls on source files at positions whose hash does not overflow all succeed, starting from the
  -- empty storage. What is then read at such a position of a source file is the first mutation that
  -- was saved there. Whether there is one is answered when something was saved for the file and the
  -- kind, and else an assertion fails.
  pub save_all-first_saved :
      (log : List Save) (file : String) (kind : MutatorKind) (line column h : ℕ)
      → All IsFine log
      → is_source is_regular_file file ≡ true
      → line_column_hash line column ≡ some h
      → (t : Storage) × (save_all log [] ≡ some t)
        × (get_mutation is_regular_file file kind line column t
            ≡ first_saved file kind line column log)
        × (mutation_exists is_regular_file file kind line column t ≡ (
            if is_known file kind log
            then some (is_some (first_saved file kind line column log))
            else none))
  unfolding lookup
  save_all-first_saved log file kind line column h fine source hash =
      let (t, is_t, holds) = save_all-Holds log [] fine in
      let first = holds.at file kind line column h hash in
      (
        t,
        is_t,
        get_mutation-find file kind line column h t source hash ∙ first,
        mutation_exists-find file kind line column h t source hash
            ∙ ap (λ b. if b then some (is_some (find file kind h t)) else none)
                (holds.known file kind)
            ∙ ap (λ o. if is_known file kind log then some (is_some o) else none) first,
      )
