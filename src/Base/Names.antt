-- ===== src/Base/Names.antt =====
-- `std::set<std::string>` as a list of names in their order, each once.
use Prim.Native.Nat.{Ordering}
use Prim.Native.String.{String, compare}
use mathlib.Core.Path.{◌≡◌, refl, sym, subst}
use mathlib.Core.Logic.{ite, ◌↔◌, ◌⊎◌, inl, inr}
use mathlib.Core.Bool.{Bool, true, false}
use mathlib.Core.List.{List, [], ◌∷◌}
use mull.Base.Tests.{if◌then◌else◌, Bool-cases}
use mull.Base.Texts.{String_discrete}
use mull.Base.Lists.{IsIn}

abbrev is_before : String → String → Bool
is_before s t = elim (compare s t) [
  | Ordering.lt ↦ true
  | Ordering.eq ↦ false
  | Ordering.gt ↦ false
]

abbrev place : String → List String → List String
place x [] = x ∷ []
place x (y ∷ ys) = if is_before x y then x ∷ y ∷ ys else y ∷ place x ys

-- Whether the set has a name.
abbrev pub contains : String → List String → Bool
contains x [] = false
contains x (y ∷ ys) = ite (String_discrete y x) true (contains x ys)

abbrev pub set_insert : String → List String → List String
set_insert x xs = if contains x xs then xs else place x xs

-- No name stands twice.
abbrev pub IsDistinct : List String → Type 0
IsDistinct [] = Unit
IsDistinct (x ∷ xs) = ¬ IsIn x xs × IsDistinct xs

pub contains-IsIn : (x : String) (xs : List String) → (contains x xs ≡ true) ↔ IsIn x xs
contains-IsIn x [] = (λ e. cc, λ n. absurd n)
contains-IsIn x (y ∷ ys) =
    elim (String_discrete y x) as (λ d. (ite d true (contains x ys) ≡ true) ↔ IsIn x (y ∷ ys)) [
      | yes e ↦ (λ _. inl e, λ _. refl)
      | no n ↦
          let rec = contains-IsIn x ys in
          (λ h. inr (rec.0 h), λ h. elim h [ inl e ↦ absurd (n e) | inr k ↦ rec.1 k ])
    ]

place-IsIn : (a x : String) (xs : List String) → IsIn a (place x xs) ↔ ((x ≡ a) ⊎ IsIn a xs)
place-IsIn a x [] = (λ h. h, λ h. h)
place-IsIn a x (y ∷ ys) = elim (Bool-cases (is_before x y)) [
  | inl b ↦ rw b (λ h. h, λ h. h)
  | inr b ↦
      let rec = place-IsIn a x ys in
      rw b (
        λ h. elim h [
          | inl e ↦ inr (inl e)
          | inr k ↦ elim (rec.0 k) [ inl e ↦ inl e | inr l ↦ inr (inr l) ]
        ],
        λ h. elim h [
          | inl e ↦ inr (rec.1 (inl e))
          | inr k ↦ elim k [ inl e ↦ inl e | inr l ↦ inr (rec.1 (inr l)) ]
        ],
      )
]

place-IsDistinct :
    (x : String) (xs : List String) → ¬ IsIn x xs → IsDistinct xs → IsDistinct (place x xs)
place-IsDistinct x [] n d = (n, d)
place-IsDistinct x (y ∷ ys) n d = elim (Bool-cases (is_before x y)) [
  | inl b ↦ rw b (n, d)
  | inr b ↦ rw b (
    λ k. elim ((place-IsIn y x ys).0 k) [ inl e ↦ n (inl (sym e)) | inr l ↦ d.0 l ],
    place-IsDistinct x ys (λ k. n (inr k)) d.1,
  )
]

pub set_insert-IsIn :
    (a x : String) (xs : List String) → IsIn a (set_insert x xs) ↔ ((x ≡ a) ⊎ IsIn a xs)
set_insert-IsIn a x xs = elim (Bool-cases (contains x xs)) [
  | inl has ↦ rw has (
    inr,
    λ h. elim h [ inl e ↦ subst (λ k. IsIn k xs) e ((contains-IsIn x xs).0 has) | inr k ↦ k ],
  )
  | inr new ↦ rw new (place-IsIn a x xs)
]

pub set_insert-IsDistinct :
    (x : String) (xs : List String) → IsDistinct xs → IsDistinct (set_insert x xs)
set_insert-IsDistinct x xs d = elim (Bool-cases (contains x xs)) [
  | inl has ↦ rw has d
  | inr new ↦ rw new (place-IsDistinct x xs (λ k. cc ((contains-IsIn x xs).1 k)) d)
]
