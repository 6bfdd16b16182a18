-- ===== src/FilePathFilter.antt =====
-- lib/Filters/FilePathFilter.cpp: skipping by the path of the source file, with a cache. A regular
-- expression is a number, and `std::regex_search` a parameter. The mutex makes queries a sequence.
mod Tests
pub mod Caching
use mull.Base.{
  ℕ, List, [], ◌∷◌, ◌++◌, Option, none, some, Bool, true, false, not, String, String_discrete,
  if◌then◌else◌,
}
use mull.Base.Dict.{lookup, insert}

pub record PathFilter : Type 0 where
  pub include_filters : List ℕ
  pub exclude_filters : List ℕ
  pub cache : List (String × Bool)

module _ (regex_search : String → ℕ → Bool) where
  -- The two loops over filters, which stop at the first that matches.
  pub matches_any : String → List ℕ → Bool
  matches_any path [] = false
  matches_any path (r ∷ rs) = if regex_search path r then true else matches_any path rs

  pub allows : PathFilter → String → Bool
  unfolding matches_any
  allows f path = elim f.include_filters [
    | [] ↦ not (matches_any path f.exclude_filters)
    | r ∷ rs ↦ matches_any path (r ∷ rs)
  ]

  -- The cached answer, or a new one and the cache with it.
  abbrev pub answer : PathFilter → String → Option Bool → Bool × PathFilter
  answer f path (some allow) = (not allow, f)
  answer f path none = (
    not (allows f path),
    record f { cache = insert String_discrete path (allows f path) f.cache },
  )

  pub should_skip : PathFilter → String → Bool × PathFilter
  unfolding allows
  should_skip f path = answer f path (lookup String_discrete path f.cache)

  -- A sequence of queries.
  pub should_skip_all : PathFilter → List String → List Bool
  unfolding should_skip
  should_skip_all f [] = []
  should_skip_all f (path ∷ paths) =
      let (skip, g) = should_skip f path in skip ∷ should_skip_all g paths

abbrev pub exclude : ℕ → PathFilter → PathFilter
exclude r f = record f { exclude_filters = f.exclude_filters ++ r ∷ [] }

abbrev pub include : ℕ → PathFilter → PathFilter
include r f = record f { include_filters = f.include_filters ++ r ∷ [] }
