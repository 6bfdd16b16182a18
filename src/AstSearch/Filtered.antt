-- ===== src/AstSearch/Filtered.antt =====
-- What the filter of lib/AST/ASTMutationFilter.cpp lets through, after a search.
use mull.Base.{
  ℕ, String, Option, none, some, List, Bool, true, false, not, ℕ_discrete, ◌>>=◌, ◌≡◌, ◌⊎◌, ◌↔◌,
}
use mull.Base.Dict.{lookup}
use mull.Mutators.Kind.{MutatorKind, mutator_kind_discrete}
use mull.AstStorage.Mutations.{AstUnit, Bucket}

module _ (is_regular_file should_skip_path : String → Bool) (set : List MutatorKind) where
  -- The filter fails without a bucket for the kind, and answers with one.
  abbrev pub Answers : MutatorKind → (h : ℕ) → AstUnit → Option Bool → (found : Type 0) → Type 0
  Answers kind h unit answer found =
      ((lookup mutator_kind_discrete kind unit ≡ none) × (answer ≡ none))
      ⊎ ((bucket : Bucket) × (skip : Bool) × (lookup mutator_kind_discrete kind unit ≡ some bucket)
          × (answer ≡ some skip)
          × ((skip ≡ false) ↔ found))

  -- The rest of `mutationExists`, from the bucket of the kind on.
  abbrev in_bucket : ℕ → Option Bucket → Option Bool
  in_bucket h o = do
    bucket ← o
    some (elim (lookup ℕ_discrete h bucket) [ none ↦ false | some _ ↦ true ])

  abbrev answer_of : ℕ → Option Bucket → Option Bool
  answer_of h o = in_bucket h o >>= λ b. some (not b)
