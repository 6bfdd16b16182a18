-- ===== src/AstSearch/Lexical.antt =====
-- Where the nodes stand that lib/AST/ASTVisitor.cpp visits: the nesting of functions and expressions,
-- and the flag of the visitor, which knows only the function declared last.
use mull.Base.{
  String, List, [], ◌∷◌, ◌++◌, Bool, true, false, ◌||◌, if◌then◌else◌, ◌≡◌, refl, ap, ◌∙◌,
}
use mull.AstSearch.{Expr, Node, function_decl, expr, is_text}
use mull.AstSearch.Recorded.{unskipped}

-- The nodes of a declaration: a function with what stands in it, or an expression, and what follows.
pub data Tree : Type 0 where
  done : Tree
  function : (name : String) → (inside after : Tree) → Tree
  expression : Expr → (after : Tree) → Tree

-- The order in which the visitor meets the nodes.
abbrev pub preorder : Tree → List Node
preorder done = []
preorder (function name inside after) = function_decl name ∷ (preorder inside ++ preorder after)
preorder (expression e after) = expr e ∷ preorder after

-- The expressions in no function named `main`; `in_main` tells whether the tree stands in one.
abbrev pub outside_main : (in_main : Bool) → Tree → List Expr
outside_main in_main done = []
outside_main in_main (function name inside after) =
    outside_main (in_main || is_text name "main") inside ++ outside_main in_main after
outside_main in_main (expression e after) =
    let rest = outside_main in_main after in if in_main then rest else e ∷ rest

abbrev pub HasNoFunctions : Tree → Type 0
HasNoFunctions done = Unit
HasNoFunctions (function name inside after) = ⊥
HasNoFunctions (expression e after) = HasNoFunctions after

-- No function is declared in another one, and an expression outside all functions does not come
-- after `main` as the function declared last.
abbrev pub HasFlatFunctions : (after_main : Bool) → Tree → Type 0
HasFlatFunctions after_main done = Unit
HasFlatFunctions after_main (function name inside after) =
    HasNoFunctions inside × HasFlatFunctions (is_text name "main") after
HasFlatFunctions after_main (expression e after) =
    (after_main ≡ false) × HasFlatFunctions after_main after

unskipped-inside :
    (in_main : Bool) (inside : Tree) (nodes : List Node)
    → HasNoFunctions inside
    → unskipped in_main (preorder inside ++ nodes)
      ≡ outside_main in_main inside ++ unskipped in_main nodes
unskipped-inside in_main done nodes none_inside = refl
unskipped-inside in_main (function name inside after) nodes none_inside = absurd none_inside
unskipped-inside true (expression e after) nodes none_inside =
    unskipped-inside true after nodes none_inside
unskipped-inside false (expression e after) nodes none_inside =
    ap (λ l. e ∷ l) (unskipped-inside false after nodes none_inside)

-- Where functions are not nested, the flag tells what stands in `main`.
pub unskipped-preorder :
    (after_main : Bool) (tree : Tree)
    → HasFlatFunctions after_main tree
    → unskipped after_main (preorder tree) ≡ outside_main false tree
unskipped-preorder after_main done flat = refl
unskipped-preorder after_main (function name inside after) (inner, flat) =
    unskipped-inside (is_text name "main") inside (preorder after) inner
    ∙ ap (λ l. outside_main (is_text name "main") inside ++ l)
        (unskipped-preorder (is_text name "main") after flat)
unskipped-preorder true (expression e after) (no_main, flat) = cc (no_main)
unskipped-preorder false (expression e after) (no_main, flat) =
    ap (λ l. e ∷ l) (unskipped-preorder false after flat)
