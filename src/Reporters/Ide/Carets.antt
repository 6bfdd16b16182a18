-- ===== src/Reporters/Ide/Carets.antt =====
-- The caret of lib/Reporters/IDEReporter.cpp stands under the column.
use mull.Base.{
  ℕ, zero, suc, ◌-◌, ◌≤◌, ◌<◌, List, [], ◌∷◌, ◌++◌, some, length, ltb, ◌≡◌, refl, ap, ◌∙◌, arith,
  true, ◌==◌, ◌&&◌, if◌then◌else◌, map, take, not, Bool,
}
use mull.Reporters.Ide.{SourceLocation, Line, mutant, blanks, set_at, caret_line, print_mutant}

-- A tab under a tab, and a space under any other character.
abbrev pub blank_under : ℕ → ℕ
blank_under c = if c == 9 then 9 else 32

-- A blank under each character in front of the one at the column, and the caret.
abbrev pub under : (column : ℕ) → (line : List ℕ) → List ℕ
under column line = map blank_under (take (column - 1) line) ++ 94 ∷ []

set_at-blanks :
    (n : ℕ) (line : List ℕ) → set_at n 94 (blanks (suc n) line) ≡ some (blanks n line ++ 94 ∷ [])
unfolding blanks
set_at-blanks zero [] = refl
set_at-blanks zero (c ∷ line) = refl
set_at-blanks (suc n) [] = rw (set_at-blanks n []) refl
set_at-blanks (suc n) (c ∷ line) = rw (set_at-blanks n line) refl

blanks-take :
    (n : ℕ) (line : List ℕ) → n ≤ length line → blanks n line ≡ map blank_under (take n line)
unfolding blanks
blanks-take zero line h = refl
blanks-take (suc n) [] h = absurd (omega arith)
blanks-take (suc n) (c ∷ line) h = ap (λ l. blank_under c ∷ l) (blanks-take n line (omega arith))

-- For a column from 1 on that is less than the length of the line, the line under it is a blank for
-- each character before the one at the column, and the caret.
pub caret_line-under :
    (line : List ℕ) (column : ℕ)
    → 0 < column
    → column < length line
    → caret_line line column ≡ some (under column line)
unfolding caret_line
caret_line-under line zero pos h = absurd (omega arith)
caret_line-under line (suc n) pos h =
    let inside : ltb (suc n) (length line) ≡ true = ground arith in
    let same : suc n - 1 ≡ n = omega arith in
    rw (inside, same)
      (set_at-blanks n line ∙ ap (λ l. some (l ++ 94 ∷ [])) (blanks-take n line (omega arith)))

module _ (location_of : ℕ → SourceLocation) (line_of : ℕ → List ℕ) where
  -- The column of a mutant is not 0 and lies in its line.
  abbrev pub HasColumn : ℕ → Type 0
  HasColumn m = (0 < (location_of m).column) × ((location_of m).column < length (line_of m))

  abbrev pub shown : (survived : Bool) → ℕ → Line
  shown survived m = mutant survived m (line_of m) (under (location_of m).column (line_of m))

  pub print_mutant-shown :
      (survived : Bool) (m : ℕ)
      → HasColumn m
      → print_mutant location_of line_of survived m ≡ some (shown survived m)
  unfolding print_mutant
  print_mutant-shown survived m (pos, inside) =
      let not_null : not (((location_of m).line == 0) && ((location_of m).column == 0)) ≡ true =
        ground arith in
      rw (not_null, caret_line-under (line_of m) (location_of m).column pos inside) refl
