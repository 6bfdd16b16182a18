-- ===== src/Reporters/SourceManager/Lines.antt =====
-- The lines that lib/Reporters/SourceManager.cpp reads are those of the file, with one byte that is
-- undefined after the last.
use mull.Base.{
  ℕ, zero, suc, ◌+◌, ◌-◌, ◌^◌, ◌%◌, ◌<◌, ◌≤◌, ◌≡◌, ◌≢◌, refl, sym, subst, ap, ◌∙◌, List, [], ◌∷◌,
  ◌++◌, Option, none, some, false, ◌==◌, ltb, if◌then◌else◌, length, length-append, get_elem?, drop,
  arith, All, Bool-cases, inl, inr, append_assoc,
}
use mull.Reporters.SourceManager.{
  newline, end_of_file, scan, line_offsets, read_bytes, until_null, between, get_line,
}

abbrev prepend {ℓ} : {A : Type ℓ} → A → List (List A) → List (List A)
prepend c [] = (c ∷ []) ∷ []
prepend c (l ∷ ls) = (c ∷ l) ∷ ls

-- The lines of a file, each with its newline, and the last one with an undefined byte.
abbrev pub lines_of : List ℕ → List (List (Option ℕ))
lines_of [] = (none ∷ []) ∷ []
lines_of (c ∷ cs) =
    let rest = lines_of cs in if c == newline then (some c ∷ []) ∷ rest else prepend (some c) rest

-- A byte of a text is neither null nor the one that compares equal to `EOF`.
abbrev pub IsText : ℕ → Type 0
IsText c = (c ≢ 0) × (c ≢ end_of_file)

abbrev concat_all {ℓ} : {A : Type ℓ} → List (List A) → List A
concat_all [] = []
concat_all (l ∷ ls) = l ++ concat_all ls

-- The lengths of lines when `k` more bytes stand before the first.
abbrev widths {ℓ} : {A : Type ℓ} → ℕ → List (List A) → List ℕ
widths k [] = []
widths k (l ∷ ls) = (k + length l) ∷ widths 0 ls

abbrev sums : ℕ → List ℕ → List ℕ
sums b [] = []
sums b (w ∷ ws) = (b + w) ∷ sums (b + w) ws

widths-prepend {ℓ} :
    {A : Type ℓ} (k : ℕ) (c : A) (l : List A) (ls : List (List A))
    → widths k (prepend c (l ∷ ls)) ≡ widths (suc k) (l ∷ ls)
widths-prepend k c l ls = ap (λ n. n ∷ widths 0 ls) (omega arith)

lines_of-cons :
    (cs : List ℕ) → (l : List (Option ℕ)) × (ls : List (List (Option ℕ))) × (lines_of cs ≡ l ∷ ls)
lines_of-cons [] = (none ∷ [], [], refl)
lines_of-cons (c ∷ cs) = elim (Bool-cases (c == newline)) [
  | inl b ↦ (some c ∷ [], lines_of cs, rw b refl)
  | inr b ↦ let (l, ls, e) = lines_of-cons cs in (some c ∷ l, ls, rw b (ap (prepend (some c)) e))
]

scan-sums :
    (b k : ℕ) (cs : List ℕ)
    → b + k + length cs + 1 < 2 ^ 32
    → All IsText cs
    → scan (b + k) cs ≡ sums b (widths k (lines_of cs))
unfolding scan
scan-sums b k [] small text = ap (λ n. n ∷ []) (omega arith)
scan-sums b k (c ∷ cs) small (t, text) =
    let next : (b + k + 1) % 2 ^ 32 ≡ b + suc k = omega arith in
    let not_end : (c == end_of_file) ≡ false = ground (arith, t.1) in
    elim (Bool-cases (c == newline)) [
      | inl n ↦
          let ends : b + suc k ≡ b + (k + 1) = omega arith in
          let starts : b + (k + 1) ≡ b + (k + 1) + 0 = omega arith in
          rw (not_end, n)
            (ap (λ x. x ∷ scan x cs) (next ∙ ends)
              ∙ ap (λ r. (b + (k + 1)) ∷ r)
                  (ap (λ x. scan x cs) starts ∙ scan-sums (b + (k + 1)) 0 cs (omega arith) text))
      | inr n ↦
          let (l, ls, e) = lines_of-cons cs in
          rw (not_end, n)
            (ap (λ x. scan x cs) next
              ∙ scan-sums b (suc k) cs (omega arith) text
              ∙ ap (λ m. sums b (widths (suc k) m)) e
              ∙ ap (sums b) (sym (widths-prepend k (some c) l ls))
              ∙ ap (λ m. sums b (widths k (prepend (some c) m))) (sym e))
    ]

-- The bytes of the file, with undefined ones for what is read behind its end.
abbrev readable : List ℕ → List (Option ℕ)
readable [] = none ∷ []
readable (c ∷ cs) = some c ∷ readable cs

concat_all-prepend {ℓ} :
    {A : Type ℓ} (c : A) (ls : List (List A)) → concat_all (prepend c ls) ≡ c ∷ concat_all ls
concat_all-prepend c [] = refl
concat_all-prepend c (l ∷ ls) = refl

concat_all-lines_of : (cs : List ℕ) → concat_all (lines_of cs) ≡ readable cs
concat_all-lines_of [] = refl
concat_all-lines_of (c ∷ cs) = elim (Bool-cases (c == newline)) [
  | inl b ↦ rw b (ap (λ r. some c ∷ r) (concat_all-lines_of cs))
  | inr b ↦
      rw b
        (concat_all-prepend (some c) (lines_of cs) ∙ ap (λ r. some c ∷ r) (concat_all-lines_of cs))
]

-- No byte of the list is null.
abbrev IsClean : List (Option ℕ) → Type 0
IsClean [] = Unit
IsClean (none ∷ cs) = IsClean cs
IsClean (some c ∷ cs) = (c ≢ 0) × IsClean cs

until_null-IsClean : (cs : List (Option ℕ)) → IsClean cs → until_null cs ≡ cs
unfolding until_null
until_null-IsClean [] clean = refl
until_null-IsClean (none ∷ cs) clean = ap (λ r. none ∷ r) (until_null-IsClean cs clean)
until_null-IsClean (some c ∷ cs) (n, clean) =
    let b : (c == 0) ≡ false = ground arith in
    rw b (ap (λ r. some c ∷ r) (until_null-IsClean cs clean))

-- A line of the stream `l ++ rest` is read back when it stands before the end.
read_bytes-line :
    (l rest : List (Option ℕ)) (cs : List ℕ)
    → l ++ rest ≡ readable cs
    → read_bytes (length l) cs ≡ l
unfolding read_bytes
read_bytes-line [] rest cs e = refl
read_bytes-line (o ∷ []) rest [] e = cc
read_bytes-line (o ∷ x ∷ l) rest [] e = cc
read_bytes-line (o ∷ l) rest (c ∷ cs) e =
    let tails : l ++ rest ≡ readable cs = cc in let rec = read_bytes-line l rest cs tails in cc

-- So is a line behind others.
read_bytes-behind :
    (before l rest : List (Option ℕ)) (cs : List ℕ)
    → before ++ l ++ rest ≡ readable cs
    → read_bytes (length l) (drop (length before) cs) ≡ l
unfolding read_bytes
read_bytes-behind [] l rest cs e = read_bytes-line l rest cs e
read_bytes-behind (o ∷ []) [] rest [] e = refl
read_bytes-behind (o ∷ []) (x ∷ l) rest [] e = cc
read_bytes-behind (o ∷ x ∷ before) l rest [] e = cc
read_bytes-behind (o ∷ before) l rest (c ∷ cs) e =
    let tails : before ++ l ++ rest ≡ readable cs = cc in read_bytes-behind before l rest cs tails

IsClean-append : (us vs : List (Option ℕ)) → IsClean (us ++ vs) → IsClean us × IsClean vs
IsClean-append [] vs clean = (tt, clean)
IsClean-append (none ∷ us) vs clean = IsClean-append us vs clean
IsClean-append (some c ∷ us) vs (n, clean) = let (l, r) = IsClean-append us vs clean in ((n, l), r)

IsClean-readable : (cs : List ℕ) → All IsText cs → IsClean (readable cs)
IsClean-readable [] text = tt
IsClean-readable (c ∷ cs) (t, text) = (t.0, IsClean-readable cs text)

-- The line with the number `i`, counted from 0.
abbrev line_at : (offsets : List ℕ) → (i : ℕ) → List ℕ → Option (List (Option ℕ))
line_at offsets i file = between file (get_elem? offsets i) (get_elem? offsets (suc i))

line_at-sums :
    (before : List (Option ℕ)) (ls : List (List (Option ℕ))) (file : List ℕ) (i : ℕ)
    → before ++ concat_all ls ≡ readable file
    → IsClean (concat_all ls)
    → line_at (length before ∷ sums (length before) (widths 0 ls)) i file ≡ get_elem? ls i
line_at-sums before [] file zero e clean = refl
line_at-sums before [] file (suc i) e clean = refl
line_at-sums before (l ∷ ls) file zero e clean =
    let n : length before + (0 + length l) - length before ≡ length l = omega arith in
    let (of_l, of_rest) = IsClean-append l (concat_all ls) clean in
    ap some (
      ap (λ k. until_null (read_bytes k (drop (length before) file))) n
      ∙ ap until_null (
          read_bytes-behind before l (concat_all ls) file
            (append_assoc before l (concat_all ls) ∙ e))
      ∙ until_null-IsClean l of_l)
line_at-sums before (l ∷ ls) file (suc i) e clean =
    let (of_l, of_rest) = IsClean-append l (concat_all ls) clean in
    let n : length before + (0 + length l) ≡ length (before ++ l) =
      omega (arith, length-append before l) in
    ap (λ k. line_at (k ∷ sums k (widths 0 ls)) i file) n
    ∙ line_at-sums (before ++ l) ls file i (append_assoc before l (concat_all ls) ∙ e) of_rest

get_elem?-none {ℓ} : {A : Type ℓ} (xs : List A) (i : ℕ) → length xs ≤ i → get_elem? xs i ≡ none
get_elem?-none [] i h = refl
get_elem?-none (x ∷ xs) zero h = absurd (omega arith)
get_elem?-none (x ∷ xs) (suc i) h = get_elem?-none xs i (omega arith)

between-none : (file : List ℕ) (o : Option ℕ) → between file o none ≡ none
between-none file none = refl
between-none file (some n) = refl

get_line-line_at :
    (line : ℕ) (offsets file : List ℕ)
    → get_line (suc line) offsets file ≡ line_at offsets line file
unfolding get_line
get_line-line_at line offsets file =
    let z : (suc line == 0) ≡ false = ground arith in
    let p : suc line - 1 ≡ line = omega arith in
    elim (Bool-cases (ltb (suc line) (length offsets))) [
      | inl b ↦ rw (b, z, p) refl
      | inr b ↦
          rw (b, z)
            (sym (
              ap (between file (get_elem? offsets line))
                (get_elem?-none offsets (suc line) (ground arith))
              ∙ between-none file (get_elem? offsets line)))
    ]

-- In a file without null bytes and bytes that compare equal to `EOF`, smaller than 4 GB, the line
-- that is read is the one with that number, where the last line has an undefined byte at its end,
-- and there is none when the number is 0 or larger than the number of lines.
pub get_line-lines_of :
    (line : ℕ) (file : List ℕ)
    → length file + 1 < 2 ^ 32
    → All IsText file
    → (get_line zero (line_offsets file) file ≡ none)
      × (get_line (suc line) (line_offsets file) file ≡ get_elem? (lines_of file) line)
unfolding get_line
get_line-lines_of line file small text =
    let all = concat_all-lines_of file in
    (
      refl,
      get_line-line_at line (line_offsets file) file
          ∙ ap (λ ends. line_at (0 ∷ ends) line file) (scan-sums 0 0 file (omega arith) text)
          ∙ line_at-sums [] (lines_of file) file line all
              (subst IsClean (sym all) (IsClean-readable file text)),
    )
