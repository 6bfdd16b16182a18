-- ===== src/Reporters/Sqlite/Points.antt =====
-- Of mutation points with one identifier, lib/Reporters/SQLiteReporter.cpp stores the first one.
use mathlib.Core.Logic.{ite}
use mull.Base.{
  List, [], ◌∷◌, ◌++◌, Bool, true, false, not, ◌&&◌, String_discrete, append_assoc, append-nil,
  Bool-cases, inl, inr, ◌≡◌, refl, sym, ap, ◌∙◌, subst, fun_ext, arith,
}
use mull.ReachableFunction.Selection.{filter}
use mull.Reporters.Sqlite.{MutationPoint, Database, has_point, insert_points}

-- Another identifier than that of `p`.
abbrev pub is_other : (p q : MutationPoint) → Bool
is_other p q = ite (String_discrete p.unique_identifier q.unique_identifier) false true

-- The points without those that an earlier point has the identifier of.
abbrev pub first_points : List MutationPoint → List MutationPoint
first_points [] = []
first_points (p ∷ ps) = p ∷ filter (is_other p) (first_points ps)

-- No point that is kept has the identifier.
abbrev pub is_new : (kept : List MutationPoint) → MutationPoint → Bool
is_new kept p = not (has_point p.unique_identifier kept)

is_new-append :
    (kept : List MutationPoint) (p q : MutationPoint)
    → is_new (kept ++ p ∷ []) q ≡ (is_new kept q && is_other p q)
is_new-append [] p q = by_name (String_discrete p.unique_identifier q.unique_identifier)
  where
    by_name : {T : Type 0} (d : Dec T) → not (ite d true false) ≡ (true && ite d false true)
    by_name (yes e) = refl
    by_name (no n) = refl
is_new-append (k ∷ kept) p q =
    by_name (String_discrete k.unique_identifier q.unique_identifier) (is_new-append kept p q)
  where
    by_name :
        {T : Type 0} (d : Dec T)
        → not (has_point q.unique_identifier (kept ++ p ∷ []))
          ≡ (not (has_point q.unique_identifier kept) && is_other p q)
        → not (ite d true (has_point q.unique_identifier (kept ++ p ∷ [])))
          ≡ (not (ite d true (has_point q.unique_identifier kept)) && is_other p q)
    by_name (yes e) rest = refl
    by_name (no n) rest = rest

-- A point with an identifier that is kept already adds nothing to `is_new`.
is_new-old :
    (kept : List MutationPoint) (p q : MutationPoint)
    → is_new kept p ≡ false
    → is_new kept q ≡ (is_new kept q && is_other p q)
is_new-old kept p q old = by_name (String_discrete p.unique_identifier q.unique_identifier)
  where
    by_name :
        (d : Dec (p.unique_identifier ≡ q.unique_identifier))
        → is_new kept q ≡ (is_new kept q && ite d false true)
    by_name (yes e) = rw (subst (λ k. not (has_point k kept) ≡ false) e old) refl
    by_name (no n) = ground arith

filter-filter :
    {A : Type 0} (f g : A → Bool) (xs : List A)
    → filter f (filter g xs) ≡ filter (λ x. f x && g x) xs
filter-filter f g [] = refl
filter-filter f g (x ∷ xs) = by_tests (filter-filter f g xs) (f x) (g x) refl refl
  where
    by_tests :
        filter f (filter g xs) ≡ filter (λ y. f y && g y) xs
        → (a b : Bool) → f x ≡ a
        → g x ≡ b
        → filter f (filter g (x ∷ xs)) ≡ filter (λ y. f y && g y) (x ∷ xs)
    by_tests rest true true p q = rw q (rw p (ap (λ l. x ∷ l) (rest)))
    by_tests rest false true p q = rw q (rw p rest)
    by_tests rest true false p q = rw q (rw p rest)
    by_tests rest false false p q = rw q (rw p rest)

-- The table after inserting the points in the order given.
pub insert_points-first_points :
    (ps : List MutationPoint) (db : Database)
    → insert_points ps db ≡ record db {
      mutation_point = db.mutation_point ++ filter (is_new db.mutation_point) (first_points ps);
    }
unfolding insert_points
insert_points-first_points [] db =
    λ i. record db { mutation_point = sym (append-nil db.mutation_point) i }
insert_points-first_points (p ∷ ps) db =
    let kept = db.mutation_point in
    let rest = first_points ps in
    elim (Bool-cases (has_point p.unique_identifier kept)) [
      | inl old ↦
          let gone : is_new kept p ≡ false = rw old refl in
          rw (old) (
            insert_points-first_points ps db ∙ (λ i. record db {
              mutation_point =
                  kept
                  ++ (ap (λ f. filter f rest) (fun_ext (λ q. is_new-old kept p q gone))
                        ∙ sym (filter-filter (is_new kept) (is_other p) rest))
                      i;
            }))
      | inr fresh ↦ rw fresh (
          insert_points-first_points ps (record db { mutation_point = kept ++ p ∷ [] }) ∙ (λ i.
            record db {
              mutation_point =
                  (append_assoc kept (p ∷ []) (filter (is_new (kept ++ p ∷ [])) rest)
                      ∙ ap (λ l. kept ++ p ∷ l)
                          (ap (λ f. filter f rest) (fun_ext (λ q. is_new-append kept p q))
                            ∙ sym (filter-filter (is_new kept) (is_other p) rest)))
                    i;
            }))
    ]
