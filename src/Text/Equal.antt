-- ===== src/Text/Equal.antt =====
-- `==` of `str` decides equality; and texts that differ because one lacks a character.
use actix_web_lab.Common.{
  ℕ, true, false, [], ◌∷◌, ◌++◌, ◌≡◌, ◌≢◌, ◌↔◌, refl, arith, Bool-cases, inl, inr,
}
use actix_web_lab.Text.{Text, text_eq}
use actix_web_lab.Text.Split.{Lacks}

pub text_eq_iff : (s t : Text) → (text_eq s t ≡ true) ↔ (s ≡ t)
text_eq_iff (a ∷ s) (b ∷ t) = ground (arith, text_eq_iff s t)
text_eq_iff _ _ = ground arith

pub text_eq_refl : (s : Text) → text_eq s s ≡ true
text_eq_refl s = (text_eq_iff s s).1 refl

pub text_eq_ne : (s t : Text) → s ≢ t → text_eq s t ≡ false
text_eq_ne s t h = elim (Bool-cases (text_eq s t)) [
  | inl same ↦ absurd (h ((text_eq_iff s t).0 same))
  | inr other ↦ other
]

pub ne_of_Lacks : (c : ℕ) (a b k : Text) → Lacks c k → (a ++ c ∷ b) ≢ k
ne_of_Lacks c [] b [] h = ground arith
ne_of_Lacks c [] b (d ∷ k) (p, h) = λ e. p (ground arith)
ne_of_Lacks c (x ∷ a) b [] h = ground arith
ne_of_Lacks c (x ∷ a) b (d ∷ k) (p, h) = λ e. ne_of_Lacks c a b k h (ground arith)
