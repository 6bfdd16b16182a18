-- ===== src/AstStorage/Pairing.antt =====
-- `lineColumnHash` (lib/AST/ASTMutationStorage.cpp) tells positions apart.
use mull.Base.{
  ℕ, zero, suc, ◌+◌, ◌*◌, ◌/◌, ◌^◌, ◌<◌, ◌≡◌, ap, inl, inr, some, arith, ◌||◌, leb, ltb, ◌==◌,
  Bool-cases, some_injective,
}
use mull.AstStorage.{line_column_hash}

abbrev triangle : ℕ → ℕ
triangle s = s * (s + 1) / 2

triangle-suc : (s : ℕ) → triangle (suc s) ≡ triangle s + suc s
triangle-suc s = omega arith

triangle-lt : (s t : ℕ) → s < t → triangle s + s < triangle t
triangle-lt s zero h = absurd (omega arith)
triangle-lt s (suc t) h = elim (Bool-cases (ltb s t)) [
  | inl less ↦ omega (arith, triangle-suc t, triangle-lt s t (ground arith))
  | inr last ↦ let e : s ≡ t = ground arith in omega (arith, ap triangle e, triangle-suc t)
]

line_column_hash-triangle :
    (line column hash : ℕ)
    → line_column_hash line column ≡ some hash
    → triangle (line + column) + line ≡ hash
unfolding line_column_hash
line_column_hash-triangle line column hash e = elim (Bool-cases ((line == 0) || (column == 0))) [
  | inl bad ↦ cc (rw bad at e)
  | inr good ↦ elim (Bool-cases (leb (2 ^ 31) ((line + column) * (line + column + 1)))) [
    | inl big ↦ cc (rw (good, big) at e)
    | inr small ↦ some_injective (rw (good, small) at e)
  ]
]

-- Two positions with the same hash, computed without a failed assertion or an overflow, are the same.
pub line_column_hash-injective :
    (line column line' column' hash : ℕ)
    → line_column_hash line column ≡ some hash
    → line_column_hash line' column' ≡ some hash
    → (line ≡ line') × (column ≡ column')
line_column_hash-injective line column line' column' hash e e' =
    let h = line_column_hash-triangle line column hash e in
    let h' = line_column_hash-triangle line' column' hash e' in
    let a = triangle-lt (line + column) (line' + column') in
    let b = triangle-lt (line' + column') (line + column) in
    elim (Bool-cases (ltb (line + column) (line' + column'))) [
      | inl less ↦ absurd (omega (arith, h, h', a (ground arith)))
      | inr not_less ↦ elim (Bool-cases (ltb (line' + column') (line + column))) [
        | inl more ↦ absurd (omega (arith, h, h', b (ground arith)))
        | inr not_more ↦
            let s : line + column ≡ line' + column' = ground arith in
            let t = ap triangle s in (omega (arith, h, h', t), omega (arith, h, h', t, s))
      ]
    ]
