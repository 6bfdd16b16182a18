-- ===== src/Reporters/Sqlite/Identifiers.antt =====
-- The identifiers of tests, which lib/Reporters/SQLiteReporter.cpp declares UNIQUE.
use mathlib.Core.Logic.{ite}
use mull.Base.{
  String, List, [], ◌∷◌, ◌++◌, true, false, String_discrete, map, IsIn, inl, inr, ◌≡◌, refl, sym,
  subst,
}
use mull.Base.Names.{IsDistinct}
use mull.Reporters.Sqlite.{Test, TestRow, has_test}

abbrev pub test_entry : Test → TestRow
test_entry t = record {
  test_name = t.display_name;
  unique_id = t.unique_identifier;
  location_file = t.location_file;
  location_line = t.location_line;
}

-- No test has the identifier of a row or of an earlier test.
abbrev pub IsNew : List TestRow → List Test → Type 0
IsNew rows [] = Unit
IsNew rows (t ∷ ts) =
    (has_test t.unique_identifier rows ≡ false) × IsNew (rows ++ test_entry t ∷ []) ts

abbrev pub identifiers : List Test → List String
identifiers = map λ t. t.unique_identifier

has_test-append :
    (id : String) (rows : List TestRow) (t : Test)
    → has_test id rows ≡ false
    → ¬ (t.unique_identifier ≡ id)
    → has_test id (rows ++ test_entry t ∷ []) ≡ false
has_test-append id [] t none_yet apart = by_name (String_discrete t.unique_identifier id)
  where
    by_name : (d : Dec (t.unique_identifier ≡ id)) → ite d true false ≡ false
    by_name (yes e) = absurd (apart e)
    by_name (no n) = refl
has_test-append id (r ∷ rows) t none_yet apart =
    by_name (λ h. has_test-append id rows t h apart) (String_discrete r.unique_id id) none_yet
  where
    by_name :
        (has_test id rows ≡ false → has_test id (rows ++ test_entry t ∷ []) ≡ false)
        → (d : Dec (r.unique_id ≡ id)) → ite d true (has_test id rows) ≡ false
        → ite d true (has_test id (rows ++ test_entry t ∷ [])) ≡ false
    by_name rec (yes e) h = cc (h)
    by_name rec (no n) h = rec h

IsNew-after :
    (rows : List TestRow) (ts : List Test)
    → IsDistinct (identifiers ts)
    → ((id : String) → IsIn id (identifiers ts) → has_test id rows ≡ false)
    → IsNew rows ts
IsNew-after rows [] d none_yet = tt
IsNew-after rows (t ∷ ts) (alone, d) none_yet = (
  none_yet t.unique_identifier (inl refl),
  IsNew-after (rows ++ test_entry t ∷ []) ts d (λ id i.
      has_test-append id rows t (none_yet id (inr i))
        (λ e. alone (subst (λ x. IsIn x (identifiers ts)) (sym e) i))),
)

-- Tests with identifiers of their own are all new to an empty table.
pub IsDistinct-IsNew : (ts : List Test) → IsDistinct (identifiers ts) → IsNew [] ts
IsDistinct-IsNew ts d = IsNew-after [] ts d (λ id i. refl)
