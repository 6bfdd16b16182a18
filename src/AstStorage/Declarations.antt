-- ===== src/AstStorage/Declarations.antt =====
-- lib/JunkDetection/CXX/ASTStorage.cpp: the declarations of a translation unit, kept in order so that
-- the one around a location is found by a binary search. Locations are numbers in the order of
-- `clang::BeforeThanCompare`.
pub mod Search
use mull.Base.{
  ℕ, Option, none, some, List, [], ◌∷◌, ◌++◌, Bool, true, false, not, ◌&&◌, ltb, if◌then◌else◌,
}

pub record Declaration : Type 0 where
  pub id : ℕ
  pub begin : ℕ
  pub end : ℕ
  pub has_body : Bool

-- `addDecl`, with the test for system headers.
abbrev pub add_decl : (ℕ → Bool) → Declaration → List Declaration → List Declaration
add_decl is_in_system_header d decls =
    if not d.has_body then decls else if is_in_system_header d.begin then decls else decls ++ d ∷ []

-- The visitor, on the function declarations and function templates in the order of the traversal.
pub visit : (ℕ → Bool) → List Declaration → (decls : List Declaration) → List Declaration
visit is_in_system_header [] decls = decls
visit is_in_system_header (d ∷ ds) decls =
    visit is_in_system_header ds (add_decl is_in_system_header d decls)

-- `std::unique` with the comparator for overlaps: a declaration stays when it begins after the last
-- one that stays has ended.
pub kept_after : Declaration → List Declaration → List Declaration
kept_after last [] = []
kept_after last (d ∷ ds) = if ltb last.end d.begin then d ∷ kept_after d ds else kept_after last ds

pub unique : List Declaration → List Declaration
unfolding kept_after
unique [] = []
unique (d ∷ ds) = d ∷ kept_after d ds

-- `sort` is `std::sort` by the beginnings.
pub record_declarations :
    (sort : List Declaration → List Declaration)
    → (is_in_system_header : ℕ → Bool) → (visited : List Declaration) → List Declaration
unfolding visit unique
record_declarations sort is_in_system_header visited =
    unique (sort (visit is_in_system_header visited []))

-- `std::lower_bound`: the first declaration that does not end before the location.
pub lower_bound : ℕ → List Declaration → Option Declaration
lower_bound location [] = none
lower_bound location (d ∷ ds) = if ltb d.end location then lower_bound location ds else some d

abbrev pub if_around : ℕ → Option Declaration → Option Declaration
if_around location none = none
if_around location (some d) = if ltb d.begin location && ltb location d.end then some d else none

-- `getDecl`; no declaration is the null pointer.
pub get_decl : ℕ → List Declaration → Option Declaration
unfolding lower_bound
get_decl location decls = if_around location (lower_bound location decls)
