-- ===== src/Reporters/Tests.antt =====
-- A file of two lines, of which the last has no newline: "ab\ncd".
use mull.Base.{ℕ, zero, suc, ◌≡◌, refl, List, [], ◌∷◌, none, some, get_elem?, arith}
use mull.Reporters.SourceManager.{get_line, line_offsets, scan, read_bytes, until_null}
use mull.Reporters.SourceManager.Lines.{get_line-lines_of, lines_of}

abbrev file : List ℕ
file = 97 ∷ 98 ∷ 10 ∷ 99 ∷ 100 ∷ []

get_line-lines_of_example :
    (get_line zero (line_offsets file) file ≡ none)
    × (get_line (suc 1) (line_offsets file) file ≡ get_elem? (lines_of file) 1)
get_line-lines_of_example = get_line-lines_of 1 file (omega arith) (
  (ground arith, ground arith),
  (
    (ground arith, ground arith),
    (
      (ground arith, ground arith),
      ((ground arith, ground arith), ((ground arith, ground arith), tt)),
    ),
  ),
)

first_line : get_line 1 (line_offsets file) file ≡ some (some 97 ∷ some 98 ∷ some 10 ∷ [])
unfolding get_line scan read_bytes until_null
first_line = refl

-- The last line comes with an undefined byte.
second_line : get_line 2 (line_offsets file) file ≡ some (some 99 ∷ some 100 ∷ none ∷ [])
unfolding get_line scan read_bytes until_null
second_line = refl
