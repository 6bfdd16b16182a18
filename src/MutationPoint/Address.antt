-- ===== src/MutationPoint/Address.antt =====
-- The address of an instruction leads back to it.
use mull.Base.{
  ℕ, zero, suc, ◌^◌, ◌<◌, ◌≡◌, refl, ap, ◌∙◌, List, [], ◌∷◌, Option, some, true, Bool-cases, inl,
  inr, ◌==◌, ==_iff, ltb, map, length, get_elem?, get_elem?-lt_length, ◌>>=◌, IsIn, arith,
  some_injective,
}
use mull.MutationPoint.{
  BasicBlock, Function, Module, MutationPointAddress, Instruction, get_index, to_int,
  address_from_instruction, find_in_function, find_instruction,
}

-- Objects with the same identity in a container are the same.
abbrev pub IsKeyed : {A : Type 0} → (A → ℕ) → List A → Type 0
IsKeyed {A} key xs = (x y : A) → IsIn x xs → IsIn y xs → key x ≡ key y → x ≡ y

get_index-found :
    {A : Type 0} (key : A → ℕ) (xs : List A) (v : ℕ) (x : A)
    → IsIn x xs
    → key x ≡ v
    → (y : A) × (get_elem? xs (get_index (map key xs) v) ≡ some y) × IsIn y xs × (key y ≡ v)
unfolding get_index
get_index-found key [] v x k e = absurd k
get_index-found key (a ∷ xs) v x k e = elim (Bool-cases (key a == v)) [
  | inl b ↦ (a, rw b refl, inl refl, (==_iff (key a) v).0 b)
  | inr b ↦ elim k [
    | inl p ↦ absurd (cc (b, (==_iff (key a) v).1 (ap key p ∙ e)))
    | inr k' ↦
        let (y, at, is_in, same) = get_index-found key xs v x k' e in (y, rw b at, inr is_in, same)
  ]
]

-- The position that is computed for an object of a container is where it stands.
get_index-get_elem? :
    {A : Type 0} (key : A → ℕ) (xs : List A) (x : A)
    → IsKeyed key xs
    → IsIn x xs
    → get_elem? xs (get_index (map key xs) (key x)) ≡ some x
get_index-get_elem? key xs x keyed k =
    let (y, at, is_in, same) = get_index-found key xs (key x) x k refl in
    at ∙ ap some (keyed y x is_in k same)

get_index_self : (xs : List ℕ) (x : ℕ) → IsIn x xs → get_elem? xs (get_index xs x) ≡ some x
unfolding get_index
get_index_self [] x k = absurd k
get_index_self (a ∷ xs) x k = elim (Bool-cases (a == x)) [
  | inl b ↦ rw b (ap some ((==_iff a x).0 b))
  | inr b ↦ elim k [
    | inl p ↦ absurd (cc (b, (==_iff a x).1 p))
    | inr k' ↦ rw b (get_index_self xs x k')
  ]
]

-- The instruction stands in the module, where its function and its block do too.
pub record Stands (m : Module) (i : Instruction) : Type 0 where
  pub in_module : IsIn i.function m
  pub in_function : IsIn i.parent i.function.blocks
  pub in_block : IsIn i.id i.parent.instructions
  pub functions : IsKeyed (λ f. f.id) m
  pub blocks : IsKeyed (λ b. b.id) i.function.blocks

-- The positions fit into `int`.
abbrev pub IsSmall : Module → Instruction → Type 0
IsSmall m i =
    (length m < 2 ^ 31)
    × (length i.function.blocks < 2 ^ 31)
    × (length i.parent.instructions < 2 ^ 31)

to_int-small : (n k : ℕ) → n < k → k < 2 ^ 31 → to_int n ≡ some n
to_int-small n k less small = let b : ltb n (2 ^ 31) ≡ true = ground arith in rw b refl

-- An instruction of a module has an address, and the address leads back to it, in its function and
-- in the module, when the containers are no longer than `int` can count.
pub find_instruction-address_from_instruction :
    (m : Module) (i : Instruction)
    → Stands m i
    → IsSmall m i
    → (a : MutationPointAddress) × (address_from_instruction m i ≡ some a)
      × (find_instruction m a ≡ some i.id)
      × (find_in_function i.function a ≡ some i.id)
unfolding address_from_instruction find_instruction find_in_function
find_instruction-address_from_instruction m i stands (small_m, small_f, small_b) =
    let fn = get_index (map (λ f. f.id) m) i.function.id in
    let bb = get_index (map (λ b. b.id) i.function.blocks) i.parent.id in
    let at = get_index i.parent.instructions i.id in
    let e_fn = get_index-get_elem? (λ f. f.id) m i.function stands.functions stands.in_module in
    let e_bb =
      get_index-get_elem? (λ b. b.id) i.function.blocks i.parent stands.blocks stands.in_function in
    let e_at = get_index_self i.parent.instructions i.id stands.in_block in
    let n_fn = to_int-small fn (length m) (get_elem?-lt_length m fn e_fn) small_m in
    let n_bb =
      to_int-small bb (length i.function.blocks) (get_elem?-lt_length i.function.blocks bb e_bb)
        small_f in
    let n_at =
      to_int-small at (length i.parent.instructions)
        (get_elem?-lt_length i.parent.instructions at e_at) small_b in
    (
      record { function_index = fn; basic_block_index = bb; instruction_index = at },
      rw (n_fn, n_bb, n_at) refl,
      rw (e_fn, e_bb) e_at,
      rw (e_bb) e_at,
    )

abbrev within : List (List ℕ) → (n k : ℕ) → Option ℕ
within ls n k = get_elem? ls n >>= λ is. get_elem? is k

within-blocks :
    (bs : List BasicBlock) (n k : ℕ)
    → (get_elem? bs n >>= λ b. get_elem? b.instructions k)
      ≡ within (map (λ b. b.instructions) bs) n k
within-blocks [] n k = refl
within-blocks (b ∷ bs) zero k = refl
within-blocks (b ∷ bs) (suc n) k = within-blocks bs n k

get_elem?-map-some :
    (copy : ℕ → ℕ) (xs : List ℕ) (k i : ℕ)
    → get_elem? xs k ≡ some i
    → get_elem? (map copy xs) k ≡ some (copy i)
get_elem?-map-some copy [] k i e = cc
get_elem?-map-some copy (x ∷ xs) zero i e = ap some (ap copy (some_injective e))
get_elem?-map-some copy (x ∷ xs) (suc k) i e = get_elem?-map-some copy xs k i e

within-copy :
    (copy : ℕ → ℕ) (bs : List BasicBlock) (n k i : ℕ)
    → (get_elem? bs n >>= λ b. get_elem? b.instructions k) ≡ some i
    → within (map (λ b. map copy b.instructions) bs) n k ≡ some (copy i)
within-copy copy [] n k i e = cc
within-copy copy (b ∷ bs) zero k i e = get_elem?-map-some copy b.instructions k i e
within-copy copy (b ∷ bs) (suc n) k i e = within-copy copy bs n k i e

-- In a copy of a function whose blocks hold, position by position, the images of the instructions
-- under `copy`, the address of an instruction leads to the image of the instruction.
pub find_in_function-copy :
    (copy : ℕ → ℕ) (f g : Function) (a : MutationPointAddress) (i : ℕ)
    → map (λ b. b.instructions) g.blocks ≡ map (λ b. map copy b.instructions) f.blocks
    → find_in_function f a ≡ some i
    → find_in_function g a ≡ some (copy i)
unfolding find_in_function
find_in_function-copy copy f g a i same e =
    within-blocks g.blocks a.basic_block_index a.instruction_index
    ∙ ap (λ ls. within ls a.basic_block_index a.instruction_index) same
    ∙ within-copy copy f.blocks a.basic_block_index a.instruction_index i e
