-- ===== src/Text/Trim.antt =====
-- `str::trim`, where it changes nothing and where it drops one leading blank.
use actix_web_lab.Common.{Bool-cases, inl, inr, true, ℕ, Bool, false, [], ◌∷◌, ◌++◌, ◌≡◌, refl, All}
use actix_web_lab.Text.{Text, is_whitespace, trim_start_by, trim_end_by, trim}

pub trim_end_by-concat :
    (p : ℕ → Bool) (s : Text) (d : ℕ) → p d ≡ false → trim_end_by p (s ++ d ∷ []) ≡ s ++ d ∷ []
trim_end_by-concat p [] d h = rw h
trim_end_by-concat p (c ∷ []) d h = rw h
trim_end_by-concat p (c ∷ b ∷ s) d h = rw (trim_end_by-concat p (b ∷ s) d h)

pub trim_end_by-All : (p : ℕ → Bool) (s : Text) → All (λ c. p c ≡ false) s → trim_end_by p s ≡ s
trim_end_by-All p [] h = refl
trim_end_by-All p (c ∷ []) (h, k) = rw h
trim_end_by-All p (c ∷ d ∷ s) (h, k) = rw (trim_end_by-All p (d ∷ s) k)

-- A text between two characters that are no blanks stays as it is.
pub trim_closed :
    (a : ℕ) (s : Text) (b : ℕ)
    → is_whitespace a ≡ false
    → is_whitespace b ≡ false
    → trim (a ∷ (s ++ b ∷ [])) ≡ a ∷ (s ++ b ∷ [])
unfolding trim
trim_closed a s b h k = rw h (trim_end_by-concat is_whitespace (a ∷ s) b k)

pub trim_of_solid : (s : Text) → All (λ c. is_whitespace c ≡ false) s → trim s ≡ s
unfolding trim
trim_of_solid [] h = refl
trim_of_solid (c ∷ s) (p, h) = rw p (trim_end_by-All is_whitespace (c ∷ s) (p, h))

pub trim_blank : (s : Text) → trim (b' ' ∷ s) ≡ trim s
unfolding trim
trim_blank s = refl

pub trim_end_by-append_drop :
    (p : ℕ → Bool) (s : Text) (q : ℕ) → p q ≡ true → trim_end_by p (s ++ q ∷ []) ≡ trim_end_by p s
trim_end_by-append_drop p [] q h = rw h
trim_end_by-append_drop p (c ∷ s) q h = rw (trim_end_by-append_drop p s q h)

-- `trim_matches`
abbrev pub trim_by : (ℕ → Bool) → Text → Text
trim_by p s = trim_end_by p (trim_start_by p s)

pub trim_by-append :
    (p : ℕ → Bool) (s : Text) (q : ℕ) → p q ≡ true → trim_by p (s ++ q ∷ []) ≡ trim_by p s
trim_by-append p [] q h = rw h
trim_by-append p (c ∷ s) q h = elim (Bool-cases (p c)) [
  | inl drops ↦ rw drops (trim_by-append p s q h)
  | inr stays ↦ rw stays (trim_end_by-append_drop p (c ∷ s) q h)
]
