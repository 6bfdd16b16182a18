-- ===== src/Preparation/Groups.antt =====
-- The points of a bitcode file, grouped by the function that they change.
use mathlib.Core.Logic.{ite}
use mull.Base.{
  ℕ, ◌+◌, ◌<◌, List, [], ◌∷◌, ◌++◌, none, some, map, count, count-append, All, All-append, IsIn,
  IsIn-append, ◌==◌, if◌then◌else◌, ℕ_discrete, ◌≡◌, ◌≢◌, ◌⊎◌, inl, inr, refl, sym, arith, ◌∙◌, ◌≤◌,
}
use mull.Base.Dict.{lookup, insert, lookup-insert_ne}
use mull.Preparation.{MutationPoint, Points, PointsMap, push_point, add_point, add_points}

abbrev pub IsPointOf : ℕ → MutationPoint → Type 0
IsPointOf f p = p.original_function ≡ f

abbrev pub AllOf : ℕ → Points → Type 0
AllOf f (p, ps) = IsPointOf f p × All (IsPointOf f) ps

-- Each function stands once, is one of the first `n` ones and has points of its own only.
abbrev pub IsGrouped : (n : ℕ) → PointsMap → Type 0
IsGrouped n [] = Unit
IsGrouped n ((f, v) ∷ g) = (f < n) × (lookup ℕ_discrete f g ≡ none) × AllOf f v × IsGrouped n g

pub IsGrouped-mono : (n m : ℕ) (g : PointsMap) → n ≤ m → IsGrouped n g → IsGrouped m g
IsGrouped-mono n m [] l w = tt
IsGrouped-mono n m ((f, v) ∷ g) l w = (omega (arith, l, w.0), w.1, w.2, IsGrouped-mono n m g l w.3)

abbrev pub Has : MutationPoint → PointsMap → Type 0
Has p [] = ⊥
Has p ((f, (q, qs)) ∷ g) = IsIn p (q ∷ qs) ⊎ Has p g

abbrev pub ids : List MutationPoint → List ℕ
ids = map (λ p. p.id)

abbrev pub group_ids : PointsMap → List ℕ
group_ids [] = []
group_ids ((f, (q, qs)) ∷ g) = ids (q ∷ qs) ++ group_ids g

add_point-cons :
    (p : MutationPoint) (f : ℕ) (v : Points) (g : PointsMap)
    → add_point p ((f, v) ∷ g)
      ≡ ite
          (ℕ_discrete f p.original_function)
          ((f, push_point p (some v)) ∷ g)
          ((f, v) ∷ add_point p g)
unfolding lookup insert
add_point-cons p f v g =
    elim (ℕ_discrete f p.original_function)
      as (λ d.
        ite d ((f, push_point p (ite d (some v) (lookup ℕ_discrete p.original_function g))) ∷ g) (
          (f, v)
          ∷ insert ℕ_discrete p.original_function
              (push_point p (ite d (some v) (lookup ℕ_discrete p.original_function g))) g)
        ≡ ite d ((f, push_point p (some v)) ∷ g) ((f, v) ∷ add_point p g)) [
          | yes e ↦ refl
          | no e ↦ refl
        ]

lookup-add_point_ne :
    (p : MutationPoint) (j : ℕ) (g : PointsMap)
    → p.original_function ≢ j
    → lookup ℕ_discrete j (add_point p g) ≡ lookup ℕ_discrete j g
lookup-add_point_ne p j g apart = lookup-insert_ne ℕ_discrete p.original_function j _ g apart

add_point-IsGrouped :
    (n : ℕ) (p : MutationPoint) (g : PointsMap)
    → p.original_function < n
    → IsGrouped n g
    → IsGrouped n (add_point p g)
unfolding lookup insert
add_point-IsGrouped n p [] h w = (h, refl, (refl, tt), tt)
add_point-IsGrouped n p ((f, v) ∷ g) h w =
    rw (add_point-cons p f v g)
      (elim (ℕ_discrete f p.original_function)
        as (λ d. IsGrouped n (ite d ((f, push_point p (some v)) ∷ g) ((f, v) ∷ add_point p g))) [
          | yes e ↦
              (w.0, w.1, (w.2.0, All-append (IsPointOf f) v.1 (p ∷ []) w.2.1 (sym e, tt)), w.3)
          | no apart ↦ (
            w.0,
            lookup-add_point_ne p f g (λ e. apart (sym e)) ∙ w.1,
            w.2,
            add_point-IsGrouped n p g h w.3,
          )
        ])

pub add_points-IsGrouped :
    (n : ℕ) (ps : List MutationPoint) (g : PointsMap)
    → All (λ p. p.original_function < n) ps
    → IsGrouped n g
    → IsGrouped n (add_points ps g)
add_points-IsGrouped n [] g h w = w
add_points-IsGrouped n (p ∷ ps) g (h, hs) w =
    add_points-IsGrouped n ps (add_point p g) hs (add_point-IsGrouped n p g h w)

lookup-add_points :
    (j : ℕ) (ps : List MutationPoint) (g : PointsMap)
    → All (λ p. p.original_function ≢ j) ps
    → lookup ℕ_discrete j (add_points ps g) ≡ lookup ℕ_discrete j g
lookup-add_points j [] g h = refl
lookup-add_points j (p ∷ ps) g (h, hs) =
    lookup-add_points j ps (add_point p g) hs ∙ lookup-add_point_ne p j g h

-- A function without points has no group.
pub lookup-add_points-none :
    (j : ℕ) (ps : List MutationPoint)
    → All (λ p. p.original_function ≢ j) ps
    → lookup ℕ_discrete j (add_points ps []) ≡ none
unfolding lookup
lookup-add_points-none j ps h = lookup-add_points j ps [] h

add_point-Has : (p q : MutationPoint) (g : PointsMap) → (p ≡ q) ⊎ Has q g → Has q (add_point p g)
unfolding lookup insert
add_point-Has p q [] (inl e) = inl (inl e)
add_point-Has p q [] (inr k) = absurd k
add_point-Has p q ((f, (r, rs)) ∷ g) h =
    rw (add_point-cons p f (r, rs) g)
      (elim (ℕ_discrete f p.original_function)
        as (λ d.
          Has q (ite d ((f, push_point p (some (r, rs))) ∷ g) ((f, (r, rs)) ∷ add_point p g))) [
            | yes e ↦ elim h [
              | inl at ↦ inl (inr ((IsIn-append q rs (p ∷ [])).1 (inr (inl at))))
              | inr k ↦ elim k [
                | inl i ↦ elim i [
                  | inl at ↦ inl (inl at)
                  | inr l ↦ inl (inr ((IsIn-append q rs (p ∷ [])).1 (inl l)))
                ]
                | inr l ↦ inr l
              ]
            ]
            | no apart ↦ elim h [
              | inl at ↦ inr (add_point-Has p q g (inl at))
              | inr k ↦ elim k [ inl i ↦ inl i | inr l ↦ inr (add_point-Has p q g (inr l)) ]
            ]
          ])

-- Each point that was added has its place.
pub add_points-Has :
    (ps : List MutationPoint) (q : MutationPoint) (g : PointsMap)
    → IsIn q ps ⊎ Has q g
    → Has q (add_points ps g)
add_points-Has [] q g (inl i) = absurd i
add_points-Has [] q g (inr k) = k
add_points-Has (p ∷ ps) q g (inl (inl e)) =
    add_points-Has ps q (add_point p g) (inr (add_point-Has p q g (inl e)))
add_points-Has (p ∷ ps) q g (inl (inr i)) = add_points-Has ps q (add_point p g) (inl i)
add_points-Has (p ∷ ps) q g (inr k) =
    add_points-Has ps q (add_point p g) (inr (add_point-Has p q g (inr k)))

ids-append : (ps qs : List MutationPoint) → ids (ps ++ qs) ≡ ids ps ++ ids qs
ids-append [] qs = refl
ids-append (p ∷ ps) qs = rw (ids-append ps qs)

count-add_point :
    (i : ℕ) (p : MutationPoint) (g : PointsMap)
    → count i (group_ids (add_point p g)) ≡ (if p.id == i then 1 else 0) + count i (group_ids g)
unfolding lookup insert
count-add_point i p [] = refl
count-add_point i p ((f, (r, rs)) ∷ g) =
    rw (add_point-cons p f (r, rs) g)
      (elim (ℕ_discrete f p.original_function)
        as (λ d.
          count i (
            group_ids (ite d ((f, push_point p (some (r, rs))) ∷ g) ((f, (r, rs)) ∷ add_point p g)))
          ≡ (if p.id == i then 1 else 0) + count i (group_ids ((f, (r, rs)) ∷ g))) [
            | yes e ↦ rw (ids-append rs (p ∷ [])) (
                omega (
                  arith,
                  count-append i (ids rs ++ p.id ∷ []) (group_ids g),
                  count-append i (ids rs) (group_ids g),
                  count-append i (ids rs) (p.id ∷ []),
                ))
            | no apart ↦ omega (
              arith,
              count-append i (ids rs) (group_ids (add_point p g)),
              count-append i (ids rs) (group_ids g),
              count-add_point i p g,
            )
          ])

-- Each identity stands among the groups as often as among the points.
pub count-add_points :
    (i : ℕ) (ps : List MutationPoint) (g : PointsMap)
    → count i (group_ids (add_points ps g)) ≡ count i (ids ps) + count i (group_ids g)
count-add_points i [] g = omega arith
count-add_points i (p ∷ ps) g =
    omega (arith, count-add_points i ps (add_point p g), count-add_point i p g)
