-- ===== src/AstStorage/Declarations/Search.antt =====
-- The search for the declaration around a location finds it, and none but it.
use mull.Base.{
  ℕ, ◌≡◌, ◌↔◌, ◌<◌, ◌≤◌, sym, ap, ◌∙◌, inl, inr, Option, none, some, List, [], ◌∷◌, ◌++◌, Bool,
  true, false, not, ◌&&◌, ltb, if◌then◌else◌, arith, Bool-cases, All, IsIn, IsIn-All, All-IsIn,
  All-append, some_injective, subst,
}
use mull.AstStorage.Declarations.{
  Declaration, add_decl, visit, kept_after, unique, record_declarations, lower_bound, get_decl,
  if_around,
}

abbrev pub IsProper : Declaration → Type 0
IsProper d = d.begin ≤ d.end

-- Each declaration begins after the one before it has ended.
abbrev pub Follows : Declaration → List Declaration → Type 0
Follows last [] = Unit
Follows last (d ∷ ds) = (last.end < d.begin) × IsProper d × Follows d ds

abbrev pub IsApart : List Declaration → Type 0
IsApart [] = Unit
IsApart (d ∷ ds) = Follows d ds

abbrev pub Around : ℕ → Declaration → Type 0
Around location d = (d.begin < location) × (location < d.end)

kept_after-Follows :
    (last : Declaration) (ds : List Declaration)
    → All IsProper ds
    → Follows last (kept_after last ds)
unfolding kept_after
kept_after-Follows last [] proper = tt
kept_after-Follows last (d ∷ ds) (p, ps) = elim (Bool-cases (ltb last.end d.begin)) [
  | inl b ↦ rw b ((ground arith), p, kept_after-Follows d ds ps)
  | inr b ↦ rw b (kept_after-Follows last ds ps)
]

unique-IsApart : (ds : List Declaration) → All IsProper ds → IsApart (unique ds)
unfolding unique
unique-IsApart [] proper = tt
unique-IsApart (d ∷ ds) (p, ps) = kept_after-Follows d ds ps

Follows-lt :
    (last d : Declaration) (ds : List Declaration)
    → Follows last ds
    → IsIn d ds
    → last.end < d.begin
Follows-lt last d [] follows k = absurd k
Follows-lt last d (x ∷ xs) (less, p, follows) (inl e) = subst (λ y. last.end < y.begin) e less
Follows-lt last d (x ∷ xs) (less, p, follows) (inr k) =
    let after = Follows-lt x d xs follows k in omega arith

lower_bound-IsIn :
    (location : ℕ) (d : Declaration) (ds : List Declaration)
    → lower_bound location ds ≡ some d
    → IsIn d ds
unfolding lower_bound
lower_bound-IsIn location d [] e = cc
lower_bound-IsIn location d (x ∷ xs) e = elim (Bool-cases (ltb x.end location)) [
  | inl b ↦ inr (lower_bound-IsIn location d xs (rw b at e))
  | inr b ↦ inl (some_injective (rw b at e))
]

IsIn-lower_bound :
    (location : ℕ) (d : Declaration) (ds : List Declaration)
    → IsApart ds
    → IsIn d ds
    → Around location d
    → lower_bound location ds ≡ some d
unfolding lower_bound
IsIn-lower_bound location d [] apart k around = absurd k
IsIn-lower_bound location d (x ∷ xs) apart (inl e) around =
    let around' = subst (Around location) (sym e) around in
    let b : ltb x.end location ≡ false = ground arith in rw b (ap some e)
IsIn-lower_bound location d (x ∷ xs) apart (inr k) around =
    let before = Follows-lt x d xs apart k in
    let b : ltb x.end location ≡ true = ground arith in
    rw b (IsIn-lower_bound location d xs (rest xs apart) k around)
  where
    rest : (ds : List Declaration) → Follows x ds → IsApart ds
    rest [] f = tt
    rest (y ∷ ys) f = f.2

if_around-Around :
    (location : ℕ) (d : Declaration) (o : Option Declaration)
    → if_around location o ≡ some d
    → (o ≡ some d) × Around location d
if_around-Around location d none e = cc
if_around-Around location d (some x) e =
    elim (Bool-cases (ltb x.begin location && ltb location x.end)) [
      | inl b ↦
          let same = some_injective (rw b at e) in
          (ap some same, subst (Around location) same (ground arith, ground arith))
      | inr b ↦ cc (rw b at e)
    ]

visit-All {ℓ} :
    (P : Declaration → Type ℓ) (is_in_system_header : ℕ → Bool) (visited decls : List Declaration)
    → All P visited
    → All P decls
    → All P (visit is_in_system_header visited decls)
unfolding visit
visit-All P is_in_system_header [] decls of_visited of_decls = of_decls
visit-All P is_in_system_header (d ∷ ds) decls (p, ps) of_decls =
    visit-All P is_in_system_header ds (add_decl is_in_system_header d decls) ps
      (added d.has_body (is_in_system_header d.begin))
  where
    added :
        (body system : Bool)
        → All P (if not body then decls else if system then decls else decls ++ d ∷ [])
    added false system = of_decls
    added true true = of_decls
    added true false = All-append P decls (d ∷ []) of_decls (p, tt)

-- When each visited declaration ends no earlier than it begins, and sorting adds no element, the
-- search in the recorded declarations finds a declaration exactly when it was recorded and the
-- location is strictly inside it.
pub get_decl-Around :
    (sort : List Declaration → List Declaration) (is_in_system_header : ℕ → Bool)
    (visited : List Declaration) (location : ℕ) (d : Declaration)
    → ((ds : List Declaration) (x : Declaration) → IsIn x (sort ds) → IsIn x ds)
    → All IsProper visited
    → (get_decl location (record_declarations sort is_in_system_header visited) ≡ some d)
      ↔ (IsIn d (record_declarations sort is_in_system_header visited) × Around location d)
unfolding get_decl record_declarations
get_decl-Around sort is_in_system_header visited location d rearranges proper =
    let ds = visit is_in_system_header visited [] in
    let all : All IsProper ds = visit-All IsProper is_in_system_header visited [] proper tt in
    let sorted =
      IsIn-All IsProper (sort ds) (λ x k. All-IsIn IsProper ds x all (rearranges ds x k)) in
    (
      λ e.
          let (found, around) =
            if_around-Around location d (lower_bound location (unique (sort ds))) e in
          (lower_bound-IsIn location d (unique (sort ds)) found, around),
      λ (k, around).
          ap (if_around location) (
            IsIn-lower_bound location d (unique (sort ds)) (unique-IsApart (sort ds) sorted) k
              around)
          ∙ ground arith,
    )
