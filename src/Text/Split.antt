-- ===== src/Text/Split.antt =====
-- `str::split` and `split_once` at a character.
use actix_web_lab.Common.{
  Bool-cases, inl, inr, ℕ, List, [], ◌∷◌, ◌++◌, Option, none, some, ◌≡◌, ◌≢◌, refl, arith, ◌==◌,
  if◌then◌else◌, All,
}
use actix_web_lab.Text.{Text}

abbrev pub cons_head : ℕ → List Text → List Text
cons_head c [] = (c ∷ []) ∷ []
cons_head c (s ∷ ss) = (c ∷ s) ∷ ss

unfoldable pub split : ℕ → Text → List Text
split sep [] = [] ∷ []
split sep (c ∷ s) = if c == sep then [] ∷ split sep s else cons_head c (split sep s)

abbrev onto : ℕ → Option (Text × Text) → Option (Text × Text)
onto c none = none
onto c (some (a, b)) = some (c ∷ a, b)

unfoldable pub split_once : ℕ → Text → Option (Text × Text)
split_once sep [] = none
split_once sep (c ∷ s) = if c == sep then some ([], s) else onto c (split_once sep s)

abbrev pub Lacks : ℕ → Text → Type 0
Lacks sep s = All (λ c. c ≢ sep) s

pub split_of_Lacks : (sep : ℕ) (s : Text) → Lacks sep s → split sep s ≡ s ∷ []
unfolding split
split_of_Lacks sep [] h = refl
split_of_Lacks sep (c ∷ s) (p, h) = ground (arith, split_of_Lacks sep s h)

pub split-append : (sep : ℕ) (a s : Text) → Lacks sep a → split sep (a ++ sep ∷ s) ≡ a ∷ split sep s
unfolding split
split-append sep [] s h = ground arith
split-append sep (c ∷ a) s (p, h) = ground (arith, split-append sep a s h)

pub split_once-append :
    (sep : ℕ) (a s : Text) → Lacks sep a → split_once sep (a ++ sep ∷ s) ≡ some (a, s)
unfolding split_once
split_once-append sep [] s h = ground arith
split_once-append sep (c ∷ a) s (p, h) = ground (arith, split_once-append sep a s h)

pub split_once_of_Lacks : (sep : ℕ) (s : Text) → Lacks sep s → split_once sep s ≡ none
unfolding split_once
split_once_of_Lacks sep [] h = refl
split_once_of_Lacks sep (c ∷ s) (p, h) = ground (arith, split_once_of_Lacks sep s h)

module _ (P : ℕ → Type 0) (sep : ℕ) where
  cons_head-All : (c : ℕ) (ss : List Text) → P c → All (All P) ss → All (All P) (cons_head c ss)
  cons_head-All c [] p h = ((p, tt), tt)
  cons_head-All c (s ∷ ss) p (k, h) = ((p, k), h)

  -- What holds of every character holds of every character of each part.
  pub split-All : (s : Text) → All P s → All (All P) (split sep s)
  unfolding split
  split-All [] h = (tt, tt)
  split-All (c ∷ s) (p, h) = elim (Bool-cases (c == sep)) [
    | inl same ↦ rw same (tt, split-All s h)
    | inr other ↦ rw other (cons_head-All c (split sep s) p (split-All s h))
  ]
