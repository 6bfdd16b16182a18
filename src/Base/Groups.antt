-- ===== src/Base/Groups.antt =====
-- Values grouped by a name, `map[key].push_back(value)`, each group in the order of insertion.
use mathlib.Core.Path.{◌≡◌, refl, sym, ap, ◌∙◌, subst}
use mathlib.Core.Logic.{ite}
use mathlib.Core.List.{List, [], ◌∷◌, ◌++◌, append_assoc, append-nil}
use mathlib.Core.Option.{Option, none, some}
use Prim.Native.String.{String}
use mull.Base.Texts.{String_discrete}
use mull.Base.Dict.{lookup, insert, lookup-insert_self, lookup-insert_ne}

module _ {A : Type 0} where
  abbrev pub or_nil : Option (List A) → List A
  or_nil none = []
  or_nil (some xs) = xs

  abbrev pub push_group : String → A → List (String × List A) → List (String × List A)
  push_group k a m = insert String_discrete k (or_nil (lookup String_discrete k m) ++ a ∷ []) m

  abbrev pub group_all :
      (key : A → String) → List A → List (String × List A) → List (String × List A)
  group_all key [] m = m
  group_all key (a ∷ as_left) m = group_all key as_left (push_group (key a) a m)

  -- The group of a name.
  abbrev pub group_of : String → List (String × List A) → List A
  group_of k m = or_nil (lookup String_discrete k m)

  -- The values with a key, in their order.
  abbrev pub with_key : (key : A → String) → String → List A → List A
  with_key key k [] = []
  with_key key k (a ∷ rest) =
      let others = with_key key k rest in ite (String_discrete (key a) k) (a ∷ others) others

  group_of-push_group :
      (j k : String) (a : A) (m : List (String × List A))
      → group_of j (push_group k a m) ≡ group_of j m ++ ite (String_discrete k j) (a ∷ []) []
  group_of-push_group j k a m =
      elim (String_discrete k j)
        as (λ d. group_of j (push_group k a m) ≡ group_of j m ++ ite d (a ∷ []) []) [
          | yes e ↦
              subst (λ n. group_of n (push_group k a m) ≡ group_of n m ++ a ∷ []) e
                (ap or_nil (lookup-insert_self String_discrete k (group_of k m ++ a ∷ []) m))
          | no apart ↦
              ap or_nil (lookup-insert_ne String_discrete k j (group_of k m ++ a ∷ []) m apart)
              ∙ sym (append-nil (group_of j m))
        ]

  pub group_of-group_all :
      (key : A → String) (j : String) (xs : List A) (m : List (String × List A))
      → group_of j (group_all key xs m) ≡ group_of j m ++ with_key key j xs
  group_of-group_all key j [] m = sym (append-nil (group_of j m))
  group_of-group_all key j (a ∷ xs) m =
      group_of-group_all key j xs (push_group (key a) a m)
      ∙ ap (λ l. l ++ with_key key j xs) (group_of-push_group j (key a) a m)
      ∙ append_assoc (group_of j m) (ite (String_discrete (key a) j) (a ∷ []) [])
          (with_key key j xs)
      ∙ ap (λ l. group_of j m ++ l) (put (String_discrete (key a) j))
    where
      put :
          (d : Dec (key a ≡ j))
          → ite d (a ∷ []) [] ++ with_key key j xs
            ≡ ite d (a ∷ with_key key j xs) (with_key key j xs)
      put (yes e) = refl
      put (no n) = refl
