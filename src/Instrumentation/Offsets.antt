-- ===== src/Instrumentation/Offsets.antt =====
-- The index that a callback passes is the index of its function in `functions`.
use mull.Base.{
  ℕ, zero, suc, ◌+◌, ◌%◌, ◌^◌, ◌≡◌, refl, ap, ◌∙◌, ◌≢◌, List, [], ◌∷◌, ◌++◌, Option, some, arith,
  String, String_discrete, Bool-cases, some_injective, inl, inr, ◌≤◌, length, get_elem?-lt_length,
  get_elem?, get_elem?-append_left, get_elem?-append_right, map, All,
}
use mull.Base.Dict.{lookup, lookup-insert_self, lookup-insert_ne}
use mull.Instrumentation.{
  Function, Module, Instrumentation, new_instrumentation, defined, record_functions, record_all,
  insert_callbacks, callback_index,
}

-- The pairs that `insert_callbacks` makes number the defined functions from `index` on.
callbacks-defined :
    (index k f i : ℕ) (fs : List Function)
    → get_elem? (insert_callbacks index fs) k ≡ some (f, i)
    → (get_elem? (map some (defined fs)) k ≡ some (some f)) × (i ≡ index + k)
unfolding insert_callbacks defined
callbacks-defined index k f i [] e = cc
callbacks-defined index k f i (g ∷ fs) e = elim (Bool-cases g.is_declaration) [
  | inl declared ↦
      rw (declared, defined)
        (callbacks-defined index k f i fs (rw (declared, insert_callbacks) at e))
  | inr has_body ↦
      rw (has_body, defined)
        (numbered k (λ j h. callbacks-defined (index + 1) j f i fs h)
          (rw (has_body, insert_callbacks) at e))
]
  where
    numbered :
        (k : ℕ)
        → ((j : ℕ)
            → get_elem? (insert_callbacks (index + 1) fs) j ≡ some (f, i)
            → (get_elem? (map some (defined fs)) j ≡ some (some f)) × (i ≡ index + 1 + j))
        → get_elem? ((g.address, index) ∷ insert_callbacks (index + 1) fs) k ≡ some (f, i)
        → (get_elem? (map some (g.address ∷ defined fs)) k ≡ some (some f)) × (i ≡ index + k)
    numbered zero rec e = (
      ap some (ap (λ p. some p.0) (some_injective e)),
      omega (arith, ap (λ p. p.1) (some_injective e)),
    )
    numbered (suc k) rec e = let (at, eq) = rec k e in (at, omega (arith, eq))

record_all-functions :
    (rest : List Module) (s : Instrumentation) (i : ℕ) {a : Option ℕ}
    → get_elem? s.functions i ≡ some a
    → get_elem? (record_all rest s).functions i ≡ some a
unfolding record_all record_functions
record_all-functions [] s i e = e
record_all-functions (original ∷ rest) s i e =
    record_all-functions rest (record_functions original s) i
      (get_elem?-append_left s.functions (map some (defined original.function_list)) i e)

record_all-offset :
    (rest : List Module) (s : Instrumentation) (id : String)
    → All (λ (other : Module). other.identifier ≢ id) rest
    → lookup String_discrete id (record_all rest s).function_offset_mapping
      ≡ lookup String_discrete id s.function_offset_mapping
unfolding record_all record_functions
record_all-offset [] s id h = refl
record_all-offset (original ∷ rest) s id h =
    record_all-offset rest (record_functions original s) id h.1
    ∙ lookup-insert_ne String_discrete original.identifier id _ _ h.0

record_all-append :
    (xs ys : List Module) (s : Instrumentation)
    → record_all (xs ++ ys) s ≡ record_all ys (record_all xs s)
unfolding record_all
record_all-append [] ys s = refl
record_all-append (x ∷ xs) ys s = record_all-append xs ys (record_functions x s)

-- After all modules are recorded, in a program of at most 2^32 functions: for each module whose
-- identifier no later module has, the offset is known, and the index that the callbacks of a
-- function pass at run time is the index of that function.
pub callback_index-function :
    (before after : List Module) (original : Module) (k f index : ℕ)
    → All (λ (other : Module). other.identifier ≢ original.identifier) after
    → get_elem? (insert_callbacks 0 original.function_list) k ≡ some (f, index)
    → length (record_all (before ++ original ∷ after) new_instrumentation).functions ≤ 2 ^ 32
    → (offset : ℕ) × (lookup String_discrete original.identifier
          (record_all (before ++ original ∷ after) new_instrumentation).function_offset_mapping
        ≡ some offset)
      × (get_elem?
            (record_all (before ++ original ∷ after) new_instrumentation).functions
            (callback_index index offset)
          ≡ some (some f))
unfolding callback_index
callback_index-function before after original k f index distinct e small =
    let s = record_all before new_instrumentation in
    let (f_at, i_eq) = callbacks-defined 0 k f index original.function_list e in
    let t = record_functions original s in
    let split = record_all-append before (original ∷ after) new_instrumentation in
    let placed : get_elem? (record_all after t).functions (length s.functions + k) ≡ some (some f) =
      record_all-functions after t (length s.functions + k) (
        unfold record_functions in
        get_elem?-append_right s.functions (map some (defined original.function_list)) k ∙ f_at) in
    let fits = get_elem?-lt_length (record_all after t).functions (length s.functions + k) placed in
    let short : length (record_all after t).functions ≤ 2 ^ 32 =
      unfold record_all in rw split at small in
    let place : (index + length s.functions) % 2 ^ 32 ≡ length s.functions + k =
      omega (arith, i_eq, fits, short) in
    (
      length s.functions,
      rw split (
          unfold record_all record_functions in
          record_all-offset after t original.identifier distinct
          ∙ lookup-insert_self String_discrete original.identifier _ _),
      rw (split, place) (unfold record_all in placed),
    )
