-- ===== src/CallTree/Search/Owns.antt =====
-- The nodes that a search of lib/Instrumentation/DynamicCallTree.cpp visits, as a relation.
use mathlib.Core.List.Perm
use mathlib.Core.List.{Perm, filter, perm_append_comm}
use mathlib.Core.Logic.{ite, dite}
use mull.Base.{
  ℕ, zero, suc, ◌≤◌, ◌≡◌, refl, sym, ap, subst, List, [], ◌∷◌, ◌++◌, Option, none, some, arith,
  Bool-cases, inl, inr, Bool, true, count, ltb, ◌-◌, if◌then◌else◌, length, length-append,
  append_assoc, append-nil,
}
use mull.CallTree.{Node}
use mull.CallTree.Search.{extract_loop, function_discrete, reach_loop, Reached, reached}

-- Where a search goes on below a node.
abbrev pub below : (Node → Bool) → Node → List ℕ
below expand node = if expand node then node.children else []

-- `visited` lists, parents first, the nodes at the addresses of `queue` and all that hangs below
-- them through nodes at which the search goes on.
pub data Owns (nodes : ℕ → Option Node) (expand : Node → Bool) : List ℕ → List ℕ → Type 0 where
  nil : Owns nodes expand [] []
  cons :
      {a : ℕ} {queue under rest : List ℕ} (node : Node)
      → nodes a ≡ some node
      → Owns nodes expand (below expand node) under
      → Owns nodes expand queue rest
      → Owns nodes expand (a ∷ queue) (a ∷ (under ++ rest))

module _ {nodes : ℕ → Option Node} {expand : Node → Bool} where
  pub Owns-append :
      {xs ys us vs : List ℕ}
      → Owns nodes expand xs us
      → Owns nodes expand ys vs
      → Owns nodes expand (xs ++ ys) (us ++ vs)
  Owns-append nil o = o
  Owns-append {ys = ys} {vs = vs}
        (cons {a = a} {queue = queue} {under = under} {rest = rest} node e u r) o =
      subst (λ l. Owns nodes expand (a ∷ (queue ++ ys)) (a ∷ l)) (sym (append_assoc under rest vs))
        (cons node e u (Owns-append r o))

abbrev pub function_of : Option Node → Option ℕ
function_of none = none
function_of (some node) = node.function

abbrev pub function_at : (ℕ → Option Node) → ℕ → Option ℕ
function_at nodes a = function_of (nodes a)

-- The addresses among `visited` of the nodes of the function `entry`.
pub entries : (ℕ → Option Node) → Option ℕ → List ℕ → List ℕ
entries nodes entry = filter (λ a. function_discrete (function_at nodes a) entry)

choose-cons {ℓ} :
    {P : Type ℓ} (d : Dec P) (a : ℕ) {found rest : List ℕ}
    → Perm found rest
    → Perm (ite d (a ∷ found) found) (dite d (λ _. a ∷ rest) (λ _. rest))
choose-cons (yes h) a p = Perm.cons a p
choose-cons (no h) a p = p

module _ (nodes : ℕ → Option Node) (entry : Option ℕ) where
  entries-cons :
      (a : ℕ) (node : Node) (found visited : List ℕ)
      → nodes a ≡ some node
      → Perm found (entries nodes entry visited)
      → Perm
          (ite (function_discrete node.function entry) (a ∷ found) found)
          (entries nodes entry (a ∷ visited))
  unfolding entries
  entries-cons a node found visited e p =
      rw (ap function_of e) (choose-cons (function_discrete node.function entry) a p)

  entries-perm :
      (found xs ys : List ℕ)
      → Perm found (entries nodes entry (xs ++ ys))
      → Perm found (entries nodes entry (ys ++ xs))
  unfolding entries
  entries-perm found xs ys p =
      Perm.trans p
        (Perm.filter (λ a. function_discrete (function_at nodes a) entry) (perm_append_comm xs ys))

  extract_loop-step :
      (fuel a : ℕ) (queue found : List ℕ) (node : Node)
      → nodes a ≡ some node
      → extract_loop fuel nodes entry (queue ++ node.children) ≡ some found
      → extract_loop (suc fuel) nodes entry (a ∷ queue)
        ≡ some (ite (function_discrete node.function entry) (a ∷ found) found)
  unfolding extract_loop
  extract_loop-step fuel a queue found node e run = rw (e, run, extract_loop) refl

  pub extract_loop-entries :
      (fuel : ℕ) (queue visited : List ℕ)
      → Owns nodes (λ _. true) queue visited
      → length visited ≤ fuel
      → (found : List ℕ) × (extract_loop fuel nodes entry queue ≡ some found)
        × Perm found (entries nodes entry visited)
  unfolding extract_loop entries
  extract_loop-entries fuel [] visited nil h = ([], refl, Perm.refl [])
  extract_loop-entries zero (a ∷ queue) visited (cons node e u r) h = absurd (omega arith)
  extract_loop-entries (suc fuel) (a ∷ queue) visited
        (cons {under = under} {rest = rest} node e u r) h =
      let (found, run, p) =
        extract_loop-entries fuel (queue ++ node.children) (rest ++ under) (Owns-append r u)
          (omega (arith, length-append {0} under rest, length-append {0} rest under)) in
      (
        ite (function_discrete node.function entry) (a ∷ found) found,
        extract_loop-step fuel a queue found node e run,
        entries-cons a node found (under ++ rest) e (entries-perm found rest under p),
      )

-- The `ReachableFunction`s of the nodes at the addresses of `visited`.
pub all_reached : ℕ → (ℕ → Option Node) → List ℕ → List Reached
all_reached offset nodes [] = []
all_reached offset nodes (a ∷ visited) = elim (nodes a) [
  | none ↦ all_reached offset nodes visited
  | some node ↦ reached offset node ∷ all_reached offset nodes visited
]

-- The search goes on below a node that is nearer than `max_distance`.
abbrev pub within : ℕ → ℕ → Node → Bool
within offset max_distance node = ltb (node.level - offset) max_distance

module _ (nodes : ℕ → Option Node) (offset max_distance : ℕ) where
  all_reached-append :
      (xs ys : List ℕ)
      → all_reached offset nodes (xs ++ ys)
        ≡ all_reached offset nodes xs ++ all_reached offset nodes ys
  unfolding all_reached
  all_reached-append [] ys = refl
  all_reached-append (x ∷ xs) ys = ground (arith, all_reached-append xs ys)

  all_reached-perm :
      (found : List Reached) (xs ys : List ℕ)
      → Perm found (all_reached offset nodes (xs ++ ys))
      → Perm found (all_reached offset nodes (ys ++ xs))
  all_reached-perm found xs ys p = Perm.trans p (
      rw (all_reached-append xs ys, all_reached-append ys xs)
        (perm_append_comm (all_reached offset nodes xs) (all_reached offset nodes ys)))

  reach_loop-step :
      (fuel a : ℕ) (queue : List ℕ) (found : List Reached) (node : Node)
      → nodes a ≡ some node
      → reach_loop fuel nodes offset max_distance (queue ++ below (within offset max_distance) node)
        ≡ some found
      → reach_loop (suc fuel) nodes offset max_distance (a ∷ queue)
        ≡ some (reached offset node ∷ found)
  unfolding reach_loop
  reach_loop-step fuel a queue found node e run =
      elim (Bool-cases (within offset max_distance node)) [
        | inl near ↦ rw (e, near, rw near at run, reach_loop) refl
        | inr far ↦ rw (e, far, rw (far, append-nil) at run, reach_loop) refl
      ]

  pub reach_loop-all_reached :
      (fuel : ℕ) (queue visited : List ℕ)
      → Owns nodes (within offset max_distance) queue visited
      → length visited ≤ fuel
      → (found : List Reached) × (reach_loop fuel nodes offset max_distance queue ≡ some found)
        × Perm found (all_reached offset nodes visited)
  unfolding reach_loop all_reached
  reach_loop-all_reached fuel [] visited nil h = ([], refl, Perm.refl [])
  reach_loop-all_reached zero (a ∷ queue) visited (cons node e u r) h = absurd (omega arith)
  reach_loop-all_reached (suc fuel) (a ∷ queue) visited
        (cons {under = under} {rest = rest} node e u r) h =
      let (found, run, p) =
        reach_loop-all_reached fuel (queue ++ below (within offset max_distance) node)
          (rest ++ under) (Owns-append r u)
          (omega (arith, length-append {0} under rest, length-append {0} rest under)) in
      (
        reached offset node ∷ found,
        reach_loop-step fuel a queue found node e run,
        rw (e, all_reached) (Perm.cons (reached offset node) (all_reached-perm found rest under p)),
      )

pub count-entries-le :
    (nodes : ℕ → Option Node) (entry : Option ℕ) (j : ℕ) (visited : List ℕ)
    → count j (entries nodes entry visited) ≤ count j visited
unfolding entries
count-entries-le nodes entry j [] = omega arith
count-entries-le nodes entry j (a ∷ visited) =
    choose-le (function_discrete (function_at nodes a) entry) a j _ visited
      (count-entries-le nodes entry j visited)
  where
    choose-le :
        {P : Type 0} (d : Dec P) (a j : ℕ) (rest visited : List ℕ)
        → count j rest ≤ count j visited
        → count j (dite d (λ _. a ∷ rest) (λ _. rest)) ≤ count j (a ∷ visited)
    choose-le (yes h) a j rest visited le = omega (arith, le)
    choose-le (no h) a j rest visited le = omega (arith, le)
