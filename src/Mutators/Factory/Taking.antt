-- ===== src/Mutators/Factory/Taking.antt =====
-- What the loop of `MutatorsFactory::mutators` (lib/Mutators/MutatorsFactory.cpp) takes from the register,
-- and where it exits in strict mode.
use mull.Base.{
  ◌≡◌, refl, sym, ap, ◌∙◌, subst, inl, inr, List, [], ◌∷◌, ◌++◌, Option, none, some, true, false,
  String, String_discrete, concat, Option-cases, IsIn, append_assoc, append-nil,
}
use mull.Base.Dict.{lookup, erase, lookup-erase_ne}
use mull.Base.Names.{IsDistinct}
use mull.Mutators.Factory.{
  MutatorsMapping, Selection, Run, goes_on, exits, take_mutators, check_empty,
}
use mull.Mutators.Factory.Registry.{Mutator}

abbrev pub found_one : Option Mutator → List Mutator → List Mutator
found_one none ms = ms
found_one (some m) ms = m ∷ ms

-- The mutators that a register holds for the names, in the order of the names.
abbrev pub found : MutatorsMapping → List String → List Mutator
found start [] = []
found start (x ∷ xs) = found_one (lookup String_discrete x start) (found start xs)

abbrev pub unknown_one : String → Option Mutator → List String → List String
unknown_one x none ws = concat "Unknown mutator: " x ∷ ws
unknown_one x (some m) ws = ws

-- A warning for each name that the register does not hold.
abbrev pub unknown : MutatorsMapping → List String → List String
unknown start [] = []
unknown start (x ∷ xs) = unknown_one x (lookup String_discrete x start) (unknown start xs)

abbrev last_warning : String
last_warning = "No valid mutators specified."

abbrev pub no_valid : List Mutator → List String
no_valid [] = last_warning ∷ []
no_valid (m ∷ ms) = []

-- The register that a selection starts from, as far as the names ask for it.
abbrev pub Agrees : MutatorsMapping → Selection → List String → Type 0
Agrees start s xs =
    (k : String)
    → IsIn k xs
    → lookup String_discrete k s.mutators_mapping ≡ lookup String_discrete k start

abbrev taken : Selection → String → Mutator → Selection
taken s x m = record {
  mutators = s.mutators ++ m ∷ [];
  warnings = s.warnings;
  mutators_mapping = erase String_discrete x s.mutators_mapping;
}

abbrev warned_of : Selection → String → Selection
warned_of s x = record s { warnings = s.warnings ++ concat "Unknown mutator: " x ∷ [] }

taken-Agrees :
    (x : String) (xs : List String) (s : Selection) (start : MutatorsMapping) (m : Mutator)
    → ¬ IsIn x xs
    → Agrees start s (x ∷ xs)
    → Agrees start (taken s x m) xs
taken-Agrees x xs s start m x∉xs same k i =
    lookup-erase_ne String_discrete x k s.mutators_mapping
      (λ q. x∉xs (subst (λ y. IsIn y xs) (sym q) i))
    ∙ same k (inr i)

-- Out of strict mode the loop goes on to the end.
pub take_mutators-found :
    (xs : List String) (s : Selection) (start : MutatorsMapping)
    → IsDistinct xs
    → Agrees start s xs
    → (t : Selection) × (take_mutators false xs s ≡ goes_on t)
      × (t.mutators ≡ s.mutators ++ found start xs)
      × (t.warnings ≡ s.warnings ++ unknown start xs)
unfolding take_mutators
take_mutators-found [] s start d same =
    (s, refl, sym (append-nil s.mutators), sym (append-nil s.warnings))
take_mutators-found (x ∷ xs) s start (x∉xs, d) same =
    elim (Option-cases (lookup String_discrete x s.mutators_mapping)) [
      | inl e ↦
          let e' = sym (same x (inl refl)) ∙ e in
          let (t, run, took, warned) =
            take_mutators-found xs (warned_of s x) start d (λ k i. same k (inr i)) in
          (
            t,
            rw (e, take_mutators) run,
            took ∙ ap (λ o. s.mutators ++ found_one o (found start xs)) (sym e'),
            warned
                ∙ append_assoc s.warnings (concat "Unknown mutator: " x ∷ []) (unknown start xs)
                ∙ ap (λ o. s.warnings ++ unknown_one x o (unknown start xs)) (sym e'),
          )
      | inr (m, e) ↦
          let e' = sym (same x (inl refl)) ∙ e in
          let (t, run, took, warned) =
            take_mutators-found xs (taken s x m) start d (taken-Agrees x xs s start m x∉xs same) in
          (
            t,
            rw (e, take_mutators) run,
            took
                ∙ append_assoc s.mutators (m ∷ []) (found start xs)
                ∙ ap (λ o. s.mutators ++ found_one o (found start xs)) (sym e'),
            warned ∙ ap (λ o. s.warnings ++ unknown_one x o (unknown start xs)) (sym e'),
          )
    ]

-- The program goes on when there are no warnings, and exits after the first one.
abbrev pub cut : (warnings : List String) → Run → Run
cut [] run = run
cut (w ∷ ws) run = exits (w ∷ [])

-- In strict mode the loop exits at the first unknown name, and is the same where there is none.
pub take_mutators-cut :
    (xs : List String) (s : Selection) (start : MutatorsMapping)
    → IsDistinct xs
    → Agrees start s xs
    → s.warnings ≡ []
    → take_mutators true xs s ≡ cut (unknown start xs) (take_mutators false xs s)
unfolding take_mutators
take_mutators-cut [] s start d same none_yet = refl
take_mutators-cut (x ∷ xs) s start (x∉xs, d) same none_yet =
    elim (Option-cases (lookup String_discrete x s.mutators_mapping)) [
      | inl e ↦
          let e' = sym (same x (inl refl)) ∙ e in
          rw (e, e', take_mutators)
            (ap (λ l. exits (l ++ concat "Unknown mutator: " x ∷ [])) none_yet)
      | inr (m, e) ↦
          let e' = sym (same x (inl refl)) ∙ e in
          rw (e, e', take_mutators)
            (take_mutators-cut xs (taken s x m) start d (taken-Agrees x xs s start m x∉xs same)
              none_yet)
    ]

-- Out of strict mode the last warning is added if nothing is selected.
abbrev pub IsChecked : Selection → Type 0
IsChecked s =
    (t : Selection) × (check_empty false s ≡ goes_on t)
    × (t.mutators ≡ s.mutators)
    × (t.warnings ≡ s.warnings ++ no_valid s.mutators)

pub check_empty-IsChecked : (s : Selection) → IsChecked s
unfolding check_empty
check_empty-IsChecked s = by_cases s.mutators refl
  where
    by_cases : (ms : List Mutator) → s.mutators ≡ ms → IsChecked s
    by_cases [] e =
        let warned = goes_on (record s { warnings = s.warnings ++ last_warning ∷ [] }) in
        let run : check_empty false s ≡ warned =
          ap (λ (l : List Mutator). elim l [ [] ↦ warned | n ∷ ns ↦ goes_on s ]) e in
        (_, run, refl, ap (λ l. s.warnings ++ no_valid l) (sym e))
    by_cases (m ∷ ms) e =
        let warned = goes_on (record s { warnings = s.warnings ++ last_warning ∷ [] }) in
        let run : check_empty false s ≡ goes_on s =
          ap (λ (l : List Mutator). elim l [ [] ↦ warned | n ∷ ns ↦ goes_on s ]) e in
        (s, run, refl, sym (append-nil s.warnings) ∙ ap (λ l. s.warnings ++ no_valid l) (sym e))

pub check_empty-cut :
    (s : Selection)
    → s.warnings ≡ []
    → check_empty true s ≡ cut (no_valid s.mutators) (check_empty false s)
unfolding check_empty
check_empty-cut s none_yet = by_cases s.mutators refl
  where
    by_cases :
        (ms : List Mutator)
        → s.mutators ≡ ms
        → check_empty true s ≡ cut (no_valid s.mutators) (check_empty false s)
    by_cases [] e = rw (e, check_empty) (ap (λ l. exits (l ++ last_warning ∷ [])) none_yet)
    by_cases (m ∷ ms) e = rw (e, check_empty) refl
