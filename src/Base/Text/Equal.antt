-- ===== src/Base/Text/Equal.antt =====
-- The equality test of texts decides their equality.
use seestar_proxy.Base.{◌≡◌, refl, ap₂, ◌==◌, ==_iff, Bool-cases, true, inl, inr, [], ◌∷◌, arith}
use seestar_proxy.Base.Text.{Text, text_eq}

pub text_eq→≡ : (s t : Text) → text_eq s t ≡ true → s ≡ t
unfolding text_eq
text_eq→≡ [] [] h = refl
text_eq→≡ [] (b ∷ t) h = absurd (ground arith)
text_eq→≡ (a ∷ s) [] h = absurd (ground arith)
text_eq→≡ (a ∷ s) (b ∷ t) h = elim (Bool-cases (a == b)) [
  | inr e ↦ absurd (ground arith)
  | inl e ↦ elim (Bool-cases (text_eq s t)) [
    | inr f ↦ absurd (ground arith)
    | inl f ↦ ap₂ ◌∷◌ ((==_iff a b).0 e) (text_eq→≡ s t f)
  ]
]

pub text_eq_refl : (t : Text) → text_eq t t ≡ true
unfolding text_eq
text_eq_refl [] = refl
text_eq_refl (c ∷ cs) = ground (arith, text_eq_refl cs)
