-- ===== src/ReachableFunction/Selection.antt =====
-- `selectInstructions` (lib/ReachableFunction.cpp) keeps the instructions that no filter skips.
use mull.Base.{
  ℕ, ◌≡◌, refl, sym, ap, ◌∙◌, List, [], ◌∷◌, ◌++◌, Bool, not, true, if◌then◌else◌, ◌&&◌, Bool-cases,
  append_assoc, append-nil, inl, inr,
}
use mull.ReachableFunction.{FunctionUnderTest, is_selected, select_loop, select_instructions}

-- The entries that satisfy a test.
abbrev pub filter : {A : Type 0} → (A → Bool) → List A → List A
filter keep [] = []
filter keep (x ∷ xs) = if keep x then x ∷ filter keep xs else filter keep xs

-- No filter skips the instruction.
abbrev pub none_skips : {A : Type 0} → A → List (A → Bool) → Bool
none_skips i [] = true
none_skips i (should_skip ∷ filters) = not (should_skip i) && none_skips i filters

is_selected-none_skips :
    (filters : List (ℕ → Bool)) (i : ℕ) → is_selected filters i ≡ none_skips i filters
unfolding is_selected
is_selected-none_skips [] i = refl
is_selected-none_skips (should_skip ∷ filters) i = elim (Bool-cases (should_skip i)) [
  | inl skips ↦ rw skips refl
  | inr keeps ↦ rw keeps (is_selected-none_skips filters i)
]

select_loop-filter :
    (filters : List (ℕ → Bool)) (is selected : List ℕ)
    → select_loop filters is selected ≡ selected ++ filter (λ i. none_skips i filters) is
unfolding select_loop
select_loop-filter filters [] selected = sym (append-nil selected)
select_loop-filter filters (i ∷ is) selected = elim (Bool-cases (none_skips i filters)) [
  | inl keeps ↦
      rw (is_selected-none_skips filters i, keeps)
        (select_loop-filter filters is (selected ++ i ∷ [])
          ∙ append_assoc selected (i ∷ []) (filter (λ j. none_skips j filters) is))
  | inr skips ↦
      rw (is_selected-none_skips filters i, skips) (select_loop-filter filters is selected)
]

-- Selecting appends to the instructions selected before, in order, exactly the instructions of the
-- function that no filter skips, and changes nothing else.
pub select_instructions-filter :
    (filters : List (ℕ → Bool)) (instructions : List ℕ) (u : FunctionUnderTest)
    → select_instructions filters instructions u ≡ record u {
      selected_instructions =
          u.selected_instructions ++ filter (λ i. none_skips i filters) instructions;
    }
unfolding select_instructions
select_instructions-filter filters instructions u =
    ap (λ l. record u { selected_instructions = l })
      (select_loop-filter filters instructions u.selected_instructions)
