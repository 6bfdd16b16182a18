-- ===== src/AstStorage/Mutations/Entries.antt =====
-- What a new entry changes in the three levels of maps of lib/AST/ASTMutationStorage.cpp.
use mull.Base.{
  ℕ, ◌≡◌, ◌≢◌, refl, ap, ◌∙◌, String, Option, none, some, String_discrete, ℕ_discrete, or_else,
}
use mull.Base.Dict.{
  lookup, emplace, lookup-insert_self, lookup-insert_ne, lookup-emplace_self, lookup-emplace_ne,
}
use mull.Mutators.Kind.{MutatorKind, mutator_kind_discrete}
use mull.AstStorage.Mutations.{AstMutation, Bucket, AstUnit, Storage, or_empty, store}

abbrev pub in_bucket : ℕ → Option Bucket → Option AstMutation
in_bucket hash none = none
in_bucket hash (some bucket) = lookup ℕ_discrete hash bucket

abbrev pub bucket_of : MutatorKind → Option AstUnit → Option Bucket
bucket_of kind none = none
bucket_of kind (some unit) = lookup mutator_kind_discrete kind unit

abbrev pub bucket_at : String → MutatorKind → Storage → Option Bucket
bucket_at file kind s = bucket_of kind (lookup String_discrete file s)

-- What the three levels of maps hold at a file, a kind and a hash.
abbrev pub find : String → MutatorKind → ℕ → Storage → Option AstMutation
find file kind hash s = in_bucket hash (bucket_at file kind s)

in_bucket-or_empty :
    (hash : ℕ) (o : Option Bucket) → lookup ℕ_discrete hash (or_empty o) ≡ in_bucket hash o
unfolding lookup
in_bucket-or_empty hash none = refl
in_bucket-or_empty hash (some bucket) = refl

bucket_of-or_empty :
    (kind : MutatorKind) (o : Option AstUnit)
    → lookup mutator_kind_discrete kind (or_empty o) ≡ bucket_of kind o
unfolding lookup
bucket_of-or_empty kind none = refl
bucket_of-or_empty kind (some unit) = refl

module _ (file : String) (kind : MutatorKind) (hash : ℕ) (m : AstMutation) (s : Storage) where
  pub bucket_at-store_self :
      bucket_at file kind (store file kind hash m s)
      ≡ some (emplace ℕ_discrete hash m (or_empty (bucket_at file kind s)))
  bucket_at-store_self =
      let unit = or_empty (lookup String_discrete file s) in
      let bucket = or_empty (lookup mutator_kind_discrete kind unit) in
      ap (bucket_of kind) (lookup-insert_self String_discrete file _ s)
      ∙ lookup-insert_self mutator_kind_discrete kind (emplace ℕ_discrete hash m bucket) unit
      ∙ ap (λ o. some (emplace ℕ_discrete hash m (or_empty o)))
          (bucket_of-or_empty kind (lookup String_discrete file s))

  pub find-store_self :
      find file kind hash (store file kind hash m s) ≡ or_else (find file kind hash s) (some m)
  find-store_self =
      ap (in_bucket hash) bucket_at-store_self
      ∙ lookup-emplace_self ℕ_discrete hash m (or_empty (bucket_at file kind s))
      ∙ ap (λ o. or_else o (some m)) (in_bucket-or_empty hash (bucket_at file kind s))

  pub find-store_hash :
      (h : ℕ) → hash ≢ h → find file kind h (store file kind hash m s) ≡ find file kind h s
  find-store_hash h apart =
      ap (in_bucket h) bucket_at-store_self
      ∙ lookup-emplace_ne ℕ_discrete hash h m (or_empty (bucket_at file kind s)) apart
      ∙ in_bucket-or_empty h (bucket_at file kind s)

  pub bucket_at-store_kind :
      (k : MutatorKind)
      → kind ≢ k
      → bucket_at file k (store file kind hash m s) ≡ bucket_at file k s
  bucket_at-store_kind k apart =
      let unit = or_empty (lookup String_discrete file s) in
      ap (bucket_of k) (lookup-insert_self String_discrete file _ s)
      ∙ lookup-insert_ne mutator_kind_discrete kind k _ unit apart
      ∙ bucket_of-or_empty k (lookup String_discrete file s)

  pub bucket_at-store_file :
      (f : String) (k : MutatorKind)
      → file ≢ f
      → bucket_at f k (store file kind hash m s) ≡ bucket_at f k s
  bucket_at-store_file f k apart =
      ap (bucket_of k) (lookup-insert_ne String_discrete file f _ s apart)
