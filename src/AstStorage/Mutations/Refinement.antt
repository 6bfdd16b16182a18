-- ===== src/AstStorage/Mutations/Refinement.antt =====
-- The storage of lib/AST/ASTMutationStorage.cpp against a log of what was saved.
use mull.Base.{
  ℕ, ◌≡◌, ◌≢◌, refl, sym, ap, ◌∙◌, subst, String, Option, none, some, List, [], ◌∷◌, ◌&&◌, ◌==◌,
  if◌then◌else◌, String_discrete, arith, or_else, Bool-cases, inl, inr, some_injective,
}
use mull.Mutators.Kind.{MutatorKind, mutator_kind_discrete}
use mull.AstStorage.{line_column_hash}
use mull.AstStorage.Mutations.{AstMutation, mutation, Storage, store}
use mull.AstStorage.Mutations.Entries.{
  find, in_bucket, find-store_self, find-store_hash, bucket_at-store_kind, bucket_at-store_file,
}
use mull.AstStorage.Pairing.{line_column_hash-injective}
use mathlib.Core.Logic.{ite}

-- One call of `saveMutation`.
pub record Save : Type 0 where
  pub file : String
  pub kind : MutatorKind
  pub statement : ℕ
  pub line : ℕ
  pub column : ℕ

-- The mutation of a call, when its position is the one asked for.
abbrev pub placed : (line column : ℕ) → Save → Option AstMutation
placed line column e =
    if (e.line == line) && (e.column == column)
    then some (mutation e.kind e.statement e.line e.column)
    else none

-- What a call saves at a position.
abbrev pub here : String → MutatorKind → (line column : ℕ) → Save → Option AstMutation
here file kind line column e =
    ite (String_discrete e.file file)
      (ite (mutator_kind_discrete e.kind kind) (placed line column e) none) none

-- The first mutation that was saved at a position.
abbrev pub first_saved : String → MutatorKind → (line column : ℕ) → List Save → Option AstMutation
first_saved file kind line column [] = none
first_saved file kind line column (e ∷ es) =
    or_else (here file kind line column e) (first_saved file kind line column es)

pub or_else-none {ℓ} : {A : Type ℓ} (o : Option A) → or_else o none ≡ o
or_else-none none = refl
or_else-none (some a) = refl

-- The storage after a call whose hash is `k`.
abbrev pub saved : (k : ℕ) → Save → Storage → Storage
saved k e s = store e.file e.kind k (mutation e.kind e.statement e.line e.column) s

module _ (line column h k : ℕ) (e : Save) (s : Storage) where
  find-store_position :
      line_column_hash line column ≡ some h
      → line_column_hash e.line e.column ≡ some k
      → find e.file e.kind h (saved k e s) ≡ or_else (find e.file e.kind h s) (placed line column e)
  find-store_position at_h at_k = elim (Bool-cases ((e.line == line) && (e.column == column))) [
    | inl b ↦
        let lines : e.line ≡ line = ground arith in
        let columns : e.column ≡ column = ground arith in
        let same : k ≡ h = some_injective (
          sym at_k
          ∙ ap (λ l. line_column_hash l e.column) lines
          ∙ ap (line_column_hash line) columns
          ∙ at_h) in
        rw b (
          subst
            (λ x.
              find e.file e.kind x (saved k e s)
              ≡ or_else (find e.file e.kind x s)
                  (some (mutation e.kind e.statement e.line e.column)))
            same (find-store_self e.file e.kind k (mutation e.kind e.statement e.line e.column) s))
    | inr b ↦
        let apart : k ≢ h = λ p.
          let q =
            line_column_hash-injective e.line e.column line column h (at_k ∙ ap some p) at_h in
          absurd (ground (arith, q.0, q.1)) in
        rw b (
          find-store_hash e.file e.kind k (mutation e.kind e.statement e.line e.column) s h apart
          ∙ sym (or_else-none (find e.file e.kind h s)))
  ]

  find-store_kind :
      (kind : MutatorKind)
      → line_column_hash line column ≡ some h
      → line_column_hash e.line e.column ≡ some k
      → find e.file kind h (saved k e s)
        ≡ or_else
            (find e.file kind h s)
            (ite (mutator_kind_discrete e.kind kind) (placed line column e) none)
  find-store_kind kind at_h at_k =
      elim (mutator_kind_discrete e.kind kind)
        as (λ d.
          find e.file kind h (saved k e s)
          ≡ or_else (find e.file kind h s) (ite d (placed line column e) none)) [
            | yes p ↦
                subst
                  (λ x.
                    find e.file x h (saved k e s)
                    ≡ or_else (find e.file x h s) (placed line column e))
                  p (find-store_position at_h at_k)
            | no n ↦
                ap (in_bucket h) (
                  bucket_at-store_kind e.file e.kind k (mutation e.kind e.statement e.line e.column)
                    s kind n)
                ∙ sym (or_else-none (find e.file kind h s))
          ]

  pub find-store :
      (file : String) (kind : MutatorKind)
      → line_column_hash line column ≡ some h
      → line_column_hash e.line e.column ≡ some k
      → find file kind h (saved k e s) ≡ or_else (find file kind h s) (here file kind line column e)
  find-store file kind at_h at_k =
      let kinds = ite (mutator_kind_discrete e.kind kind) (placed line column e) none in
      elim (String_discrete e.file file)
        as (λ d. find file kind h (saved k e s) ≡ or_else (find file kind h s) (ite d kinds none)) [
          | yes p ↦
              subst (λ x. find x kind h (saved k e s) ≡ or_else (find x kind h s) kinds) p
                (find-store_kind kind at_h at_k)
          | no n ↦
              ap (in_bucket h) (
                bucket_at-store_file e.file e.kind k (mutation e.kind e.statement e.line e.column) s
                  file kind n)
              ∙ sym (or_else-none (find file kind h s))
        ]
