-- ===== src/CompilationDatabase/Flags.antt =====
-- What lib/JunkDetection/CXX/CompilationDatabase.cpp keeps of a command line.
use mull.Base.{
  ◌≡◌, ◌≢◌, refl, sym, ap, ◌∙◌, List, [], ◌∷◌, ◌++◌, Bool, true, false, if◌then◌else◌, All, drop,
  append_assoc, append-nil, Bool-cases, inl, inr,
}
use mull.CompilationDatabase.{
  Text, text_discrete, compile_only, is_text, filter_loop, filter_flags, is_space, words_from,
  flags_from_string,
}
use mathlib.Core.Logic.{ite}

is_text-apart : (a b : Text) → is_text a b ≡ false → a ≢ b
is_text-apart a b e =
    elim (text_discrete a b) as (λ d. ite d true false ≡ false → a ≢ b) [
      | yes p ↦ λ f. cc
      | no n ↦ λ f. n
    ]
      e

filter_loop-All : (flags : List Text) → All (λ flag. flag ≢ compile_only) (filter_loop flags)
unfolding filter_loop
filter_loop-All [] = tt
filter_loop-All (flag ∷ []) = elim (Bool-cases (is_text flag compile_only)) [
  | inl b ↦ rw b tt
  | inr b ↦ rw b (is_text-apart flag compile_only b, tt)
]
filter_loop-All (flag ∷ value ∷ flags) =
    let after = filter_loop-All flags in
    let next = filter_loop-All (value ∷ flags) in
    elim (Bool-cases (is_text flag compile_only)) [
      | inl b ↦ rw b after
      | inr b ↦ rw b (is_text-apart flag compile_only b, next)
    ]

-- The flags that are kept have no "-c".
pub filter_flags-All :
    (flags : List Text) (strip_compiler : Bool)
    → All (λ flag. flag ≢ compile_only) (filter_flags flags strip_compiler)
unfolding filter_flags
filter_flags-All flags strip_compiler =
    filter_loop-All (if strip_compiler then drop 1 flags else flags)

-- A word is not empty and has no white space.
abbrev pub IsWord : Text → Type 0
IsWord [] = ⊥
IsWord (c ∷ cs) = All (λ x. is_space x ≡ false) (c ∷ cs)

-- The words with a space after each.
abbrev pub joined_words : List Text → Text
joined_words [] = []
joined_words (w ∷ ws) = w ++ 32 ∷ joined_words ws

words_from-word :
    (value w rest : Text)
    → All (λ x. is_space x ≡ false) w
    → words_from value (w ++ 32 ∷ rest) ≡ words_from (value ++ w) (32 ∷ rest)
unfolding words_from
words_from-word value [] rest plain = ap (λ v. words_from v (32 ∷ rest)) (sym (append-nil value))
words_from-word value (c ∷ cs) rest (p, plain) = rw p (
    words_from-word (value ++ c ∷ []) cs rest plain
    ∙ ap (λ v. words_from v (32 ∷ rest)) (append_assoc value (c ∷ []) cs))

-- Words with spaces between them are read back as they were.
pub flags_from_string-joined_words :
    (ws : List Text) → All IsWord ws → flags_from_string (joined_words ws) ≡ ws
unfolding flags_from_string words_from
flags_from_string-joined_words [] words = refl
flags_from_string-joined_words ([] ∷ ws) (none_there, words) = absurd none_there
flags_from_string-joined_words ((c ∷ cs) ∷ ws) (word, words) =
    words_from-word [] (c ∷ cs) (joined_words ws) word
    ∙ ap (λ l. (c ∷ cs) ∷ l) (flags_from_string-joined_words ws words)
