-- ===== src/AstSearch/Junk/Smallest.antt =====
-- Keeping a smallest one of the expressions that are looked at.
use mull.Base.{
  ◌≤◌, Option, none, some, some_injective, ◌≡◌, ◌⊎◌, ◌↔◌, inl, inr, refl, ap, subst, arith,
}
use mull.AstSearch.Junk.{Expression, range_length}

-- `after` is a smallest one of `before` and the expressions with `Q`.
abbrev pub Keeps : (before after : Option Expression) → (Expression → Type 0) → Type 0
Keeps before none Q = (before ≡ none) × ((e : Expression) → ¬ Q e)
Keeps before (some b) Q =
    ((before ≡ some b) ⊎ Q b)
    × ((c : Expression) → (before ≡ some c) ⊎ Q c → range_length b.range ≤ range_length c.range)

pub Keeps-nothing :
    (best : Option Expression) (Q : Expression → Type 0)
    → ((e : Expression) → ¬ Q e)
    → Keeps best best Q
Keeps-nothing none Q n = (refl, n)
Keeps-nothing (some b) Q n = (
  inl refl,
  λ c d. elim d [
    | inl e ↦ omega (arith, ap (λ x. range_length x.range) (some_injective e))
    | inr q ↦ absurd (n c q)
  ],
)

-- Two steps, one after the other.
pub Keeps-trans :
    (x y z : Option Expression) (P Q R : Expression → Type 0)
    → Keeps x y P
    → Keeps y z Q
    → ((e : Expression) → (P e ⊎ Q e) ↔ R e)
    → Keeps x z R
Keeps-trans x none none P Q R p q same =
    (p.0, λ e r. elim ((same e).1 r) [ inl a ↦ p.1 e a | inr b ↦ q.1 e b ])
Keeps-trans x (some b) none P Q R p q same = cc (q.0)
Keeps-trans x none (some c) P Q R p q same = (
  elim q.0 [ inl e ↦ cc (e) | inr a ↦ inr ((same c).0 (inr a)) ],
  λ d h. elim h [
    | inl e ↦ cc (p.0, e)
    | inr r ↦ elim ((same d).1 r) [ inl a ↦ absurd (p.1 d a) | inr a ↦ q.1 d (inr a) ]
  ],
)
Keeps-trans x (some b) (some c) P Q R p q same = (
  elim q.0 [
    | inl e ↦
        subst (λ o. (x ≡ some o) ⊎ R o) (some_injective e)
          (elim p.0 [ inl f ↦ inl f | inr a ↦ inr ((same b).0 (inl a)) ])
    | inr a ↦ inr ((same c).0 (inr a))
  ],
  λ d h.
      let first = q.1 b (inl refl) in
      elim h [
        | inl e ↦ omega (arith, first, p.1 d (inl e))
        | inr r ↦ elim ((same d).1 r) [
          | inl a ↦ omega (arith, first, p.1 d (inr a))
          | inr a ↦ q.1 d (inr a)
        ]
      ],
)
