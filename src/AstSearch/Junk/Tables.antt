-- ===== src/AstSearch/Junk/Tables.antt =====
-- The operators that lib/AST/ASTVisitor.cpp records are found by the visitors of
-- lib/JunkDetection/CXX/CXXJunkDetector.cpp.
use mathlib.Core.Logic.{ite}
use mull.Base.{
  Option, none, some, List, [], ◌∷◌, true, false, ◌&&◌, ◌==◌, if◌then◌else◌, IsIn, All, All-IsIn,
  Bool-cases, some_injective, ◌≡◌, inl, inr, refl, sym, ap, ◌∙◌, subst, arith,
}
use mull.Mutators.Kind.{MutatorKind}
use mull.AstSearch.{Opcode, opcode_discrete, binary_mutations}
use mull.AstSearch.Junk.{
  binary_visitor, junk_visitor, Event, binary, unary, call, var_decl, children, MutantLocation,
  Expression, match_at, first_match, found_mutant,
}

abbrev Agrees : Opcode × MutatorKind → Type 0
Agrees (o, k) = junk_visitor k ≡ binary_visitor o

All-Agrees : All Agrees binary_mutations
unfolding junk_visitor
All-Agrees = search

pub junk_visitor-binary_mutations :
    (o : Opcode) (k : MutatorKind)
    → IsIn (o, k) binary_mutations
    → junk_visitor k ≡ binary_visitor o
junk_visitor-binary_mutations o k i = All-IsIn Agrees binary_mutations (o, k) All-Agrees i

abbrev Found : Opcode → MutantLocation → List Event → Option Expression → Type 0
Found o l events found = (e : Expression) × (found ≡ some e) × IsIn (binary o l.id e) events

match_at-binary :
    (o : Opcode) (l : MutantLocation) (event : Event) (e : Expression)
    → match_at (binary_visitor o) l event ≡ some e
    → event ≡ binary o l.id e
unfolding match_at
match_at-binary o l (binary p at x) e eq =
    elim (opcode_discrete p o)
        as (λ d.
          (if ite d true false && (at == l.id) then some x else none) ≡ some e
          → binary p at x ≡ binary o l.id e) [
            | yes same ↦ λ h. elim (Bool-cases (at == l.id)) [
              | inl b ↦
                  let here : at ≡ l.id = ground arith in
                  let found : x ≡ e = some_injective (rw b at h) in
                  λ t. binary (same t) (here t) (found t)
              | inr b ↦ cc (rw b at h)
            ]
            | no apart ↦ λ h. cc (h)
          ]
      eq
match_at-binary o l (unary p at x) e eq = cc (eq)
match_at-binary o l (call void real at x) e eq = cc (eq)
match_at-binary o l (var_decl only at init) e eq = cc (eq)
match_at-binary o l (children constants x) e eq = cc (eq)

match_at-here :
    (o : Opcode) (l : MutantLocation) (e : Expression)
    → match_at (binary_visitor o) l (binary o l.id e) ≡ some e
unfolding match_at
match_at-here o l e = ground arith

first_match-Found :
    (o : Opcode) (l : MutantLocation) (events : List Event) (e : Expression)
    → IsIn (binary o l.id e) events
    → Found o l events (first_match (binary_visitor o) l events)
unfolding first_match
first_match-Found o l [] e i = absurd i
first_match-Found o l (event ∷ events) e i =
    split (first_match-Found o l events e) (match_at (binary_visitor o) l event) refl i
  where
    split :
        (IsIn (binary o l.id e) events → Found o l events (first_match (binary_visitor o) l events))
        → (m : Option Expression) → match_at (binary_visitor o) l event ≡ m
        → IsIn (binary o l.id e) (event ∷ events)
        → Found o l
            (event ∷ events)
            (elim m [ none ↦ first_match (binary_visitor o) l events | some x ↦ some x ])
    split rec (some x) eq k = (x, refl, inl (match_at-binary o l event x eq))
    split rec none eq (inl here) =
        cc (sym (match_at-here o l e) ∙ ap (match_at (binary_visitor o) l) (sym here) ∙ eq)
    split rec none eq (inr later) = let (x, found, at) = rec later in (x, found, inr at)

-- When the walk of a declaration reports an operator at the location of a point whose kind the table
-- of the search pairs with that operator, the visitor of that kind finds a mutant, which is such an
-- operator at that location.
pub found_mutant-binary_mutations :
    (o : Opcode) (k : MutatorKind) (l : MutantLocation) (events : List Event) (e : Expression)
    → IsIn (o, k) binary_mutations
    → IsIn (binary o l.id e) events
    → Found o l events (found_mutant (junk_visitor k) l events)
unfolding found_mutant
found_mutant-binary_mutations o k l events e i j =
    subst (λ v. Found o l events (found_mutant v l events))
      (sym (junk_visitor-binary_mutations o k i)) (first_match-Found o l events e j)
