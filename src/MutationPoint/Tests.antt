-- ===== src/MutationPoint/Tests.antt =====
-- Two functions, of which the second has two blocks.
use mull.Base.{ℕ, ◌+◌, ◌≡◌, refl, sym, ◌∙◌, [], ◌∷◌, some, inl, inr, arith}
use mull.MutationPoint.{
  BasicBlock, Function, Module, MutationPointAddress, Instruction, address_from_instruction,
  find_in_function, find_instruction,
}
use mull.MutationPoint.Address.{
  Stands, IsKeyed, find_instruction-address_from_instruction, find_in_function-copy,
}

abbrev entry : BasicBlock
entry = record { id = 10; instructions = 100 ∷ 101 ∷ [] }

abbrev exit : BasicBlock
exit = record { id = 11; instructions = 102 ∷ 103 ∷ 104 ∷ [] }

abbrev first : Function
first = record { id = 1; blocks = [] }

abbrev second : Function
second = record { id = 2; blocks = entry ∷ exit ∷ [] }

abbrev both : Module
both = first ∷ second ∷ []

abbrev instruction : Instruction
instruction = record { function = second; parent = exit; id = 103 }

IsKeyed-two : {A : Type 0} (key : A → ℕ) (a b : A) → (key a ≡ key b → ⊥) → IsKeyed key (a ∷ b ∷ [])
IsKeyed-two key a b apart x y (inl e) (inl f) same = sym e ∙ f
IsKeyed-two key a b apart x y (inl e) (inr (inl f)) same = absurd (apart (cc (e, f, same)))
IsKeyed-two key a b apart x y (inl e) (inr (inr n)) same = absurd n
IsKeyed-two key a b apart x y (inr (inl e)) (inl f) same = absurd (apart (cc (e, f, same)))
IsKeyed-two key a b apart x y (inr (inl e)) (inr (inl f)) same = sym e ∙ f
IsKeyed-two key a b apart x y (inr (inl e)) (inr (inr n)) same = absurd n
IsKeyed-two key a b apart x y (inr (inr n)) k same = absurd n

instruction-Stands : Stands both instruction
instruction-Stands = record {
  in_module = inr (inl refl);
  in_function = inr (inl refl);
  in_block = inr (inl refl);
  functions = IsKeyed-two (λ f. f.id) first second (λ e. absurd (omega arith));
  blocks = IsKeyed-two (λ b. b.id) entry exit (λ e. absurd (omega arith));
}

find_instruction-address_from_instruction_example :
    (a : MutationPointAddress) × (address_from_instruction both instruction ≡ some a)
    × (find_instruction both a ≡ some 103)
    × (find_in_function second a ≡ some 103)
find_instruction-address_from_instruction_example =
    find_instruction-address_from_instruction both instruction instruction-Stands
      (omega arith, omega arith, omega arith)

abbrev address : MutationPointAddress
address = record { function_index = 1; basic_block_index = 1; instruction_index = 1 }

-- The copy counts its instructions from 200 on.
abbrev copied : ℕ → ℕ
copied i = i + 100

abbrev copy_of_second : Function
copy_of_second = record {
  id = 3;
  blocks =
      record { id = 20; instructions = 200 ∷ 201 ∷ [] }
      ∷ record { id = 21; instructions = 202 ∷ 203 ∷ 204 ∷ [] }
      ∷ [];
}

found_in_second : find_in_function second address ≡ some 103
unfolding find_in_function
found_in_second = refl

find_in_function-copy_case : find_in_function copy_of_second address ≡ some (copied 103)
find_in_function-copy_case =
    find_in_function-copy copied second copy_of_second address 103 refl found_in_second
