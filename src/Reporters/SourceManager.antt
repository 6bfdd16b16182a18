-- ===== src/Reporters/SourceManager.antt =====
-- lib/Reporters/SourceManager.cpp: the lines of a source file, read by their offsets. A file is the
-- list of its bytes. `char` is signed, so a byte 255 compares equal to `EOF`. A failed assertion and
-- an access out of bounds are `none`.
pub mod Lines
use mull.Base.{
  ℕ, zero, suc, ◌+◌, ◌-◌, ◌^◌, ◌%◌, List, [], ◌∷◌, Option, none, some, String, ◌==◌, ltb,
  if◌then◌else◌, length, get_elem?, drop, ◌>>=◌, ◌>>◌, assert, String_discrete, not,
}
use mull.Base.Dict.{lookup, insert}

abbrev pub newline : ℕ
newline = 10

abbrev pub end_of_file : ℕ
end_of_file = 255

abbrev next_offset : ℕ → ℕ
next_offset offset = (offset + 1) % 2 ^ 32

-- The loop over the characters, after the first round, which enters the offset 0.
unfoldable pub scan : (offset : ℕ) → List ℕ → List ℕ
scan offset [] = next_offset offset ∷ []
scan offset (c ∷ cs) =
    let rest = scan (next_offset offset) cs in
    if c == end_of_file
    then next_offset offset ∷ []
    else if c == newline
    then next_offset offset ∷ rest
    else rest

abbrev pub line_offsets : List ℕ → List ℕ
line_offsets file = 0 ∷ scan 0 file

-- The buffer after `fread`: bytes that were not read are undefined.
unfoldable pub read_bytes : (line_length : ℕ) → List ℕ → List (Option ℕ)
read_bytes zero bytes = []
read_bytes (suc n) [] = none ∷ read_bytes n []
read_bytes (suc n) (c ∷ cs) = some c ∷ read_bytes n cs

-- `std::string(buffer)` ends at the first null.
unfoldable pub until_null : List (Option ℕ) → List (Option ℕ)
until_null [] = []
until_null (none ∷ cs) = none ∷ until_null cs
until_null (some c ∷ cs) = if c == 0 then [] else some c ∷ until_null cs

-- The line between two offsets.
abbrev pub between : List ℕ → Option ℕ → Option ℕ → Option (List (Option ℕ))
between file (some line_begin) (some line_end) =
    some (until_null (read_bytes (line_end - line_begin) (drop line_begin file)))
between file _ _ = none

-- `getLine`, for the offsets of the file.
unfoldable pub get_line : (line : ℕ) → (offsets file : List ℕ) → Option (List (Option ℕ))
unfolding scan read_bytes until_null
get_line line offsets file = do
  assert (not (line == 0))
  assert (ltb line (length offsets))
  between file (get_elem? offsets (line - 1)) (get_elem? offsets line)

abbrev pub get_number_of_lines : (offsets : List ℕ) → ℕ
get_number_of_lines offsets = length offsets - 1

abbrev computed_offsets :
    (String → List ℕ)
    → String
    → List (String × List ℕ)
    → Option (List ℕ)
    → List ℕ × List (String × List ℕ)
computed_offsets read path cache (some offsets) = (offsets, cache)
computed_offsets read path cache none =
    let offsets = line_offsets (read path) in (offsets, insert String_discrete path offsets cache)

-- `getLineOffset`: the offsets of a file are computed once. `read` gives the bytes of a path.
pub get_line_offset :
    (read : String → List ℕ)
    → (path : String) → (cache : List (String × List ℕ)) → List ℕ × List (String × List ℕ)
unfolding scan
get_line_offset read path cache =
    computed_offsets read path cache (lookup String_discrete path cache)
