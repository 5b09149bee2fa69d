-- ===== src/Middleware/NormalizePath/Slashes.antt =====
-- Merging slashes, and the slash at the end of a path.
use actix_web_lab.Common.{
  ℕ, Bool, true, false, ◌&&◌, [], ◌∷◌, ◌++◌, ◌≡◌, refl, ◌∙◌, Bool-cases, inl, inr, arith, ◌||◌, ap,
  sym,
}
use actix_web_lab.Text.{Text, trim_end_by}
use actix_web_lab.Middleware.NormalizePath.{is_slash, prepend, merged}

-- Two slashes next to each other.
abbrev pub has_double : Text → Bool
has_double [] = false
has_double (c ∷ []) = false
has_double (c ∷ d ∷ s) = (is_slash c && is_slash d) || has_double (d ∷ s)

abbrev pub ends_with_slash : Text → Bool
ends_with_slash [] = false
ends_with_slash (c ∷ []) = is_slash c
ends_with_slash (c ∷ d ∷ s) = ends_with_slash (d ∷ s)

has_double-prepend : (c : ℕ) (s : Text) → has_double s ≡ false → has_double (prepend c s) ≡ false
has_double-prepend c [] h = refl
has_double-prepend c (d ∷ s) h = elim (Bool-cases (is_slash c && is_slash d)) [
  | inl both ↦ rw both h
  | inr other ↦ rw (other, other, h) refl
]

pub has_double-merged : (s : Text) → has_double (merged s) ≡ false
unfolding merged
has_double-merged [] = refl
has_double-merged (c ∷ s) = has_double-prepend c (merged s) (has_double-merged s)

-- What has no two slashes next to each other stays as it is.
pub merged_of_single : (s : Text) → has_double s ≡ false → merged s ≡ s
unfolding merged
merged_of_single [] h = refl
merged_of_single (c ∷ []) h = refl
merged_of_single (c ∷ d ∷ s) h = elim (Bool-cases (is_slash c && is_slash d)) [
  | inl both ↦ absurd (ground arith)
  | inr other ↦ ap (prepend c) (merged_of_single (d ∷ s) (rw other at h)) ∙ rw other refl
]

prepend-cons : (c : ℕ) (s : Text) → (d : ℕ) × (rest : Text) × (prepend c s ≡ d ∷ rest)
prepend-cons c [] = (c, [], refl)
prepend-cons c (d ∷ s) = elim (Bool-cases (is_slash c && is_slash d)) [
  | inl both ↦ (d, s, rw both)
  | inr other ↦ (c, d ∷ s, rw other)
]

ends_with_slash-prepend :
    (c d : ℕ) (s : Text) → ends_with_slash (prepend c (d ∷ s)) ≡ ends_with_slash (d ∷ s)
ends_with_slash-prepend c d s = elim (Bool-cases (is_slash c && is_slash d)) [
  | inl both ↦ rw both
  | inr other ↦ rw other
]

pub ends_with_slash-merged : (s : Text) → ends_with_slash (merged s) ≡ ends_with_slash s
unfolding merged
ends_with_slash-merged [] = refl
ends_with_slash-merged (c ∷ []) = refl
ends_with_slash-merged (c ∷ d ∷ s) =
    let (e, rest, same) = prepend-cons d (merged s) in
    ap (λ t. ends_with_slash (prepend c t)) same
    ∙ ends_with_slash-prepend c e rest
    ∙ ap ends_with_slash (sym same)
    ∙ ends_with_slash-merged (d ∷ s)

pub ends_with_slash-trim_end_by : (s : Text) → ends_with_slash (trim_end_by is_slash s) ≡ false
ends_with_slash-trim_end_by [] = refl
ends_with_slash-trim_end_by (c ∷ s) = ground (arith, ends_with_slash-trim_end_by s)

-- What does not end with a slash has none to trim.
pub trim_end_by_of_open : (s : Text) → ends_with_slash s ≡ false → trim_end_by is_slash s ≡ s
trim_end_by_of_open [] h = refl
trim_end_by_of_open (c ∷ []) h = rw h
trim_end_by_of_open (c ∷ d ∷ s) h = rw (trim_end_by_of_open (d ∷ s) h)

pub ends_with_slash-append : (s : Text) → ends_with_slash (s ++ b'/' ∷ []) ≡ true
ends_with_slash-append [] = refl
ends_with_slash-append (c ∷ []) = refl
ends_with_slash-append (c ∷ d ∷ s) = ends_with_slash-append (d ∷ s)

-- One more slash behind one at the end is merged away.
pub merged-append :
    (s : Text) → has_double s ≡ false → ends_with_slash s ≡ true → merged (s ++ b'/' ∷ []) ≡ s
unfolding merged
merged-append [] h k = absurd (ground arith)
merged-append (c ∷ []) h k = ground arith
merged-append (c ∷ d ∷ s) h k = elim (Bool-cases (is_slash c && is_slash d)) [
  | inl both ↦ absurd (ground arith)
  | inr other ↦ ap (prepend c) (merged-append (d ∷ s) (rw other at h) k) ∙ rw other refl
]
