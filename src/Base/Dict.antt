-- ===== src/Base/Dict.antt =====
-- `std::map` and `std::unordered_map` as association lists with distinct keys.
use mathlib.Core.Path.{◌≡◌, refl}
use mathlib.Core.Logic.{ite, ◌≢◌}
use mathlib.Core.List.{List, [], ◌∷◌}
use mathlib.Core.Option.{Option, none, some}
use native.Mathlib.Omega.{arith}
use mull.Base.Tests.{or_else}

module _ {ℓ} {K : Type 0} {V : Type ℓ} (same : Discrete K) where
  unfoldable pub lookup : K → List (K × V) → Option V
  lookup k [] = none
  lookup k ((j, v) ∷ m) = ite (same j k) (some v) (lookup k m)

  -- `map[k] = v`.
  unfoldable pub insert : K → V → List (K × V) → List (K × V)
  insert k v [] = (k, v) ∷ []
  insert k v ((j, w) ∷ m) = ite (same j k) ((j, v) ∷ m) ((j, w) ∷ insert k v m)

  pub lookup-insert_self : (k : K) (v : V) (m : List (K × V)) → lookup k (insert k v m) ≡ some v
  unfolding lookup insert
  lookup-insert_self k v [] = ground arith
  lookup-insert_self k v ((j, w) ∷ m) = ground (arith, lookup-insert_self k v m)

  pub lookup-insert_ne :
      (k j : K) (v : V) (m : List (K × V)) → k ≢ j → lookup j (insert k v m) ≡ lookup j m
  unfolding lookup insert
  lookup-insert_ne k j v [] h = ground arith
  lookup-insert_ne k j v ((i, w) ∷ m) h = ground (arith, lookup-insert_ne k j v m h)

  unfoldable pub erase : K → List (K × V) → List (K × V)
  erase k [] = []
  erase k ((j, v) ∷ m) = ite (same j k) (erase k m) ((j, v) ∷ erase k m)

  pub lookup-erase_self : (k : K) (m : List (K × V)) → lookup k (erase k m) ≡ none
  unfolding lookup erase
  lookup-erase_self k [] = refl
  lookup-erase_self k ((j, v) ∷ m) = ground (arith, lookup-erase_self k m)

  pub lookup-erase_ne : (k j : K) (m : List (K × V)) → k ≢ j → lookup j (erase k m) ≡ lookup j m
  unfolding lookup erase
  lookup-erase_ne k j [] h = refl
  lookup-erase_ne k j ((i, v) ∷ m) h = ground (arith, lookup-erase_ne k j m h)

  abbrev or_insert : K → V → List (K × V) → Option V → List (K × V)
  or_insert k v m none = insert k v m
  or_insert k v m (some _) = m

  -- `emplace`, which keeps an entry that is there.
  abbrev pub emplace : K → V → List (K × V) → List (K × V)
  emplace k v m = or_insert k v m (lookup k m)

  pub lookup-emplace_self :
      (k : K) (v : V) (m : List (K × V)) → lookup k (emplace k v m) ≡ or_else (lookup k m) (some v)
  lookup-emplace_self k v m = kept (lookup k m) refl
    where
      kept : (o : Option V) → lookup k m ≡ o → lookup k (or_insert k v m o) ≡ or_else o (some v)
      kept none e = lookup-insert_self k v m
      kept (some w) e = e

  pub lookup-emplace_ne :
      (k j : K) (v : V) (m : List (K × V)) → k ≢ j → lookup j (emplace k v m) ≡ lookup j m
  lookup-emplace_ne k j v m apart = kept (lookup k m)
    where
      kept : (o : Option V) → lookup j (or_insert k v m o) ≡ lookup j m
      kept none = lookup-insert_ne k j v m apart
      kept (some w) = refl
