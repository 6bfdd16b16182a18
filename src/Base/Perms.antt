-- ===== src/Base/Perms.antt =====
-- Rearranged lists hold each number equally often.
use mathlib.Core.Logic.{∥∥₁_elim}
use mathlib.Core.Path.{◌≡◌, refl, ◌∙◌}
use mathlib.Core.List.{List, Perm, Permᴰ}
use native.Mathlib.Nat.{ℕ_set}
use native.Mathlib.Omega.{arith}
use Prim.Native.Nat.{ℕ}
use mull.Base.Lists.{count}

count-permᴰ : (a : ℕ) {xs ys : List ℕ} → Permᴰ xs ys → count a xs ≡ count a ys
count-permᴰ a Permᴰ.nil = refl
count-permᴰ a (Permᴰ.cons e p) = ground (arith, count-permᴰ a p)
count-permᴰ a (Permᴰ.swap e f) = ground arith
count-permᴰ a (Permᴰ.trans p q) = count-permᴰ a p ∙ count-permᴰ a q

pub count-perm : (a : ℕ) {xs ys : List ℕ} → Perm xs ys → count a xs ≡ count a ys
count-perm a p = ∥∥₁_elim p (ℕ_set _ _) (count-permᴰ a)
