-- ===== src/Base/Lists.antt =====
-- Lists measured and indexed by native numbers, under the library's names, and predicates on
-- the elements of a list.
use Prim.Native.Nat.{ℕ, zero, suc, ◌+◌, ◌<◌, ◌≤◌}
use mathlib.Core.Path.{◌≡◌, refl, ap, subst}
use mathlib.Core.Logic.{◌≢◌, ◌↔◌, ◌⊎◌, inl, inr}
use mathlib.Core.List.{List, [], ◌∷◌, ◌++◌}
use mathlib.Core.Option.{Option, none, some}
use native.Mathlib.Omega.{arith}
use mull.Base.Tests.{◌==◌, if◌then◌else◌}

module _ {ℓ} {A : Type ℓ} where
  abbrev pub length : List A → ℕ
  length [] = 0
  length (x ∷ xs) = suc (length xs)

  abbrev pub get_elem? : List A → ℕ → Option A
  get_elem? [] i = none
  get_elem? (x ∷ xs) zero = some x
  get_elem? (x ∷ xs) (suc i) = get_elem? xs i

  abbrev pub take : ℕ → List A → List A
  take zero xs = []
  take (suc n) [] = []
  take (suc n) (x ∷ xs) = x ∷ take n xs

  abbrev pub drop : ℕ → List A → List A
  drop zero xs = xs
  drop (suc n) [] = []
  drop (suc n) (x ∷ xs) = drop n xs

  pub length-append : (xs ys : List A) → length (xs ++ ys) ≡ length xs + length ys
  length-append [] ys = omega arith
  length-append (x ∷ xs) ys = omega (arith, length-append xs ys)

  pub take-append-drop : (n : ℕ) (xs : List A) → take n xs ++ drop n xs ≡ xs
  take-append-drop zero xs = refl
  take-append-drop (suc n) [] = refl
  take-append-drop (suc n) (x ∷ xs) = rw (take-append-drop n xs)

  -- Every element satisfies `Q`.
  abbrev pub All {κ} : (Q : A → Type κ) → List A → Type κ
  All Q [] = Unit
  All Q (u ∷ us) = Q u × All Q us

  pub All-append {κ} : (Q : A → Type κ) (us vs : List A) → All Q us → All Q vs → All Q (us ++ vs)
  All-append Q [] vs none_left rest = rest
  All-append Q (u ∷ us) vs (q, qs) rest = (q, All-append Q us vs qs rest)

-- How often a number stands in a list.
abbrev pub count : ℕ → List ℕ → ℕ
count k [] = 0
count k (y ∷ ys) = (if y == k then 1 else 0) + count k ys

pub count-append : (k : ℕ) (us vs : List ℕ) → count k (us ++ vs) ≡ count k us + count k vs
count-append k [] vs = ground arith
count-append k (u ∷ us) vs = ground (arith, count-append k us vs)

module _ {ℓ} {A : Type ℓ} where
  pub get_elem?-lt : (xs : List A) (i : ℕ) → i < length xs → (a : A) × (get_elem? xs i ≡ some a)
  get_elem?-lt [] i h = absurd (omega arith)
  get_elem?-lt (x ∷ xs) zero h = (x, refl)
  get_elem?-lt (x ∷ xs) (suc i) h = get_elem?-lt xs i (omega arith)

-- What holds of the numbers that occur in a list holds of its entries.
pub All-of_count {ℓ} : (P : ℕ → Type ℓ) (xs : List ℕ) → ((c : ℕ) → count c xs ≢ 0 → P c) → All P xs
All-of_count P [] h = tt
All-of_count P (x ∷ xs) h =
    (h x (λ e. absurd (ground arith)), All-of_count P xs (λ c k. h c (λ e. k (omega (arith, e)))))

-- The list without the entries equal to `a`.
abbrev pub without : ℕ → List ℕ → List ℕ
without a [] = []
without a (x ∷ xs) = if x == a then without a xs else x ∷ without a xs

pub length-without : (a : ℕ) (xs : List ℕ) → length xs ≡ length (without a xs) + count a xs
length-without a [] = omega arith
length-without a (x ∷ xs) = ground (arith, length-without a xs)

pub count-without :
    (a j : ℕ) (xs : List ℕ) → count j (without a xs) ≡ (if a == j then 0 else count j xs)
count-without a j [] = ground arith
count-without a j (x ∷ xs) = ground (arith, count-without a j xs)

-- The first occurrences of a list's numbers, in order.
abbrev pub distinct : List ℕ → List ℕ
distinct [] = []
distinct (x ∷ xs) = x ∷ without x (distinct xs)

pub count-distinct :
    (j : ℕ) (xs : List ℕ) → count j (distinct xs) ≡ (if count j xs == 0 then 0 else 1)
count-distinct j [] = ground arith
count-distinct j (x ∷ xs) = ground (arith, count-without x j (distinct xs), count-distinct j xs)

-- A list of distinct numbers below `n` has at most `n` entries.
pub length-le_of_distinct :
    (n : ℕ) (xs : List ℕ)
    → ((j : ℕ) → count j xs ≤ 1)
    → ((j : ℕ) → n ≤ j → count j xs ≡ 0)
    → length xs ≤ n
length-le_of_distinct zero [] d b = omega arith
length-le_of_distinct zero (x ∷ xs) d b = absurd (ground (arith, b x (omega arith)))
length-le_of_distinct (suc n) xs d b =
    let rest : length (without n xs) ≤ n =
      length-le_of_distinct n (without n xs) (λ j. ground (arith, count-without n j xs, d j))
        (λ j h. ground (arith, count-without n j xs, b j)) in
    omega (arith, rest, length-without n xs, d n)

module _ {ℓ} {A : Type ℓ} where
  pub get_elem?-append_left :
      (xs ys : List A) (i : ℕ) {a : A} → get_elem? xs i ≡ some a → get_elem? (xs ++ ys) i ≡ some a
  get_elem?-append_left [] ys i e = cc
  get_elem?-append_left (x ∷ xs) ys zero e = e
  get_elem?-append_left (x ∷ xs) ys (suc i) e = get_elem?-append_left xs ys i e

  pub get_elem?-append_right :
      (xs ys : List A) (i : ℕ) → get_elem? (xs ++ ys) (length xs + i) ≡ get_elem? ys i
  get_elem?-append_right [] ys i = ap (get_elem? ys) (omega arith)
  get_elem?-append_right (x ∷ xs) ys i =
      let e : length (x ∷ xs) + i ≡ suc (length xs + i) = omega arith in
      rw e (get_elem?-append_right xs ys i)

  pub get_elem?-lt_length : (xs : List A) (i : ℕ) {a : A} → get_elem? xs i ≡ some a → i < length xs
  get_elem?-lt_length [] i e = cc
  get_elem?-lt_length (x ∷ xs) zero e = omega arith
  get_elem?-lt_length (x ∷ xs) (suc i) e = omega (arith, get_elem?-lt_length xs i e)

-- The list has the element `a`.
abbrev pub IsIn : {A : Type 0} → A → List A → Type 0
IsIn a [] = ⊥
IsIn a (x ∷ xs) = (x ≡ a) ⊎ IsIn a xs

module _ {A : Type 0} where
  pub IsIn-append : (a : A) (xs ys : List A) → IsIn a (xs ++ ys) ↔ (IsIn a xs ⊎ IsIn a ys)
  IsIn-append a [] ys = (inr, λ h. elim h [ inl n ↦ absurd n | inr k ↦ k ])
  IsIn-append a (x ∷ xs) ys =
      let rest = IsIn-append a xs ys in
      (
        λ h. elim h [
          | inl e ↦ inl (inl e)
          | inr k ↦ elim (rest.0 k) [ inl l ↦ inl (inr l) | inr r ↦ inr r ]
        ],
        λ h. elim h [
          | inl k ↦ elim k [ inl e ↦ inl e | inr l ↦ inr (rest.1 (inl l)) ]
          | inr r ↦ inr (rest.1 (inr r))
        ],
      )

  pub IsIn-All {κ} : (P : A → Type κ) (xs : List A) → ((a : A) → IsIn a xs → P a) → All P xs
  IsIn-All P [] each = tt
  IsIn-All P (x ∷ xs) each = (each x (inl refl), IsIn-All P xs (λ a k. each a (inr k)))

  pub All-IsIn {κ} : (P : A → Type κ) (xs : List A) (a : A) → All P xs → IsIn a xs → P a
  All-IsIn P [] a all k = absurd k
  All-IsIn P (x ∷ xs) a (p, ps) (inl e) = subst P e p
  All-IsIn P (x ∷ xs) a (p, ps) (inr k) = All-IsIn P xs a ps k
