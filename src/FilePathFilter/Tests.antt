-- ===== src/FilePathFilter/Tests.antt =====
-- One included expression, asked twice about one path.
use mull.Base.{ℕ, ◌≡◌, List, [], ◌∷◌, Bool, true, ◌↔◌, not, String, ◌==◌, map}
use mull.Base.Dict.{lookup}
use mull.FilePathFilter.{PathFilter, allows, should_skip_all}
use mull.FilePathFilter.Caching.{IsConsistent, IsAllowed, should_skip_all-allows}

abbrev filter : PathFilter
filter = record { include_filters = 1 ∷ []; exclude_filters = 2 ∷ []; cache = [] }

abbrev search : String → ℕ → Bool
search path r = r == 1

abbrev paths : List String
paths = "a.cpp" ∷ "b.cpp" ∷ "a.cpp" ∷ []

empty-IsConsistent : IsConsistent search (allows search filter) []
unfolding lookup
empty-IsConsistent path allow e = cc

should_skip_all-allows_example :
    (should_skip_all search filter paths ≡ map (λ path. not (allows search filter path)) paths)
    × ((path : String) → (allows search filter path ≡ true) ↔ IsAllowed search filter path)
should_skip_all-allows_example = should_skip_all-allows search filter paths empty-IsConsistent
