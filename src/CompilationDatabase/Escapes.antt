-- ===== src/CompilationDatabase/Escapes.antt =====
-- `undoEscapingString` (lib/JunkDetection/CXX/CompilationDatabase.cpp) undoes escaping.
use mull.Base.{
  ℕ, ◌≡◌, refl, sym, subst, ap, ◌∙◌, [], ◌∷◌, true, false, ◌||◌, ◌==◌, if◌then◌else◌, arith,
  Bool-cases, inl, inr, ==_iff,
}
use mull.CompilationDatabase.{Text, backslash, quote, replace_pair, undo_escaping_string}

-- A backslash is put before each backslash and each quote.
abbrev pub escape : Text → Text
escape [] = []
escape (c ∷ cs) =
    let rest = escape cs in
    if (c == backslash) || (c == quote) then backslash ∷ c ∷ rest else c ∷ rest

-- The text after the escapes of quotes are undone.
abbrev half_escaped : Text → Text
half_escaped [] = []
half_escaped (c ∷ cs) =
    let rest = half_escaped cs in if c == backslash then backslash ∷ c ∷ rest else c ∷ rest

replace_pair-plain :
    (q c : ℕ) (text : Text)
    → (c == backslash) ≡ false
    → replace_pair q (c ∷ text) ≡ c ∷ replace_pair q text
unfolding replace_pair
replace_pair-plain q c [] e = refl
replace_pair-plain q c (d ∷ text) e = rw e refl

replace_pair-apart :
    (c : ℕ) (text : Text)
    → (c == quote) ≡ false
    → replace_pair quote (backslash ∷ c ∷ text) ≡ backslash ∷ replace_pair quote (c ∷ text)
unfolding replace_pair
replace_pair-apart c text e = rw e refl

replace_pair-quote :
    (c : ℕ) (text : Text)
    → (c == quote) ≡ true
    → replace_pair quote (backslash ∷ c ∷ text) ≡ quote ∷ replace_pair quote text
unfolding replace_pair
replace_pair-quote c text e = rw e refl

-- After a backslash an escaped text is not taken for an escaped quote.
replace_pair-escape_behind :
    (text : Text)
    → replace_pair quote (backslash ∷ escape text) ≡ backslash ∷ replace_pair quote (escape text)
unfolding replace_pair
replace_pair-escape_behind [] = refl
replace_pair-escape_behind (c ∷ cs) = elim (Bool-cases ((c == backslash) || (c == quote))) [
  | inl b ↦ rw b (replace_pair-apart backslash (c ∷ escape cs) refl)
  | inr b ↦ let e : (c == quote) ≡ false = ground arith in rw b (replace_pair-apart c (escape cs) e)
]

replace_pair-escape : (text : Text) → replace_pair quote (escape text) ≡ half_escaped text
unfolding replace_pair
replace_pair-escape [] = refl
replace_pair-escape (c ∷ cs) =
    let rest = replace_pair-escape cs in
    elim (Bool-cases (c == backslash)) [
      | inl b ↦
          let same : c ≡ backslash = (==_iff c backslash).0 b in
          let doubled : replace_pair quote (backslash ∷ backslash ∷ escape cs)
              ≡ backslash ∷ backslash ∷ half_escaped cs =
            replace_pair-apart backslash (escape cs) refl
            ∙ ap (λ l. backslash ∷ l)
                (replace_pair-escape_behind cs ∙ ap (λ l. backslash ∷ l) rest) in
          rw b (
            subst
              (λ x.
                replace_pair quote (backslash ∷ x ∷ escape cs) ≡ backslash ∷ x ∷ half_escaped cs)
              (sym same) doubled)
      | inr b ↦ elim (Bool-cases (c == quote)) [
        | inl q ↦
            rw (b, q)
              (replace_pair-quote c (escape cs) q
                ∙ ap (λ x. x ∷ replace_pair quote (escape cs)) (sym ((==_iff c quote).0 q))
                ∙ ap (λ l. c ∷ l) rest)
        | inr q ↦ rw (b, q) (replace_pair-plain quote c (escape cs) b ∙ ap (λ l. c ∷ l) rest)
      ]
    ]

replace_pair-half_escaped : (text : Text) → replace_pair backslash (half_escaped text) ≡ text
unfolding replace_pair
replace_pair-half_escaped [] = refl
replace_pair-half_escaped (c ∷ cs) =
    let rest = replace_pair-half_escaped cs in
    elim (Bool-cases (c == backslash)) [
      | inl b ↦
          let same : c ≡ backslash = (==_iff c backslash).0 b in
          rw b (
            subst (λ x. replace_pair backslash (backslash ∷ x ∷ half_escaped cs) ≡ x ∷ cs)
              (sym same) (ap (λ l. backslash ∷ l) rest))
      | inr b ↦ rw b (replace_pair-plain backslash c (half_escaped cs) b ∙ ap (λ l. c ∷ l) rest)
    ]

-- A text whose backslashes and quotes are escaped is read as the text itself.
pub undo_escaping_string-escape : (text : Text) → undo_escaping_string (escape text) ≡ text
unfolding undo_escaping_string
undo_escaping_string-escape text =
    ap (replace_pair backslash) (replace_pair-escape text) ∙ replace_pair-half_escaped text
