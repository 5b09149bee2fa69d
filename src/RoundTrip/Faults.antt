-- ===== src/RoundTrip/Faults.antt =====
-- Input on which decoder.rs panics: a line that begins with none of the field names.
use actix_web_lab.Common.{
  ℕ, suc, false, List, [], ◌∷◌, ◌++◌, Option, none, some, ◌≡◌, ◌≢◌, refl, ap, ◌∙◌, arith, All,
  Bool-cases, inl, inr,
}
use actix_web_lab.Bytes.{Bytes, IsUtf8}
use actix_web_lab.Russe.Search.{
  Finders, Match, patterns, starts_with, pattern_here, or_later, leftmost_first,
}
use actix_web_lab.Russe.{Building, panicked, fresh, matched, run, decode, return}
use actix_web_lab.Russe.Decoding.Delimiter.{IsWhole, joined, terminated, decode-lines}
use actix_web_lab.Russe.Decoding.Fields.{is_utf8_of}

-- No directive stands at the beginning of the line.
abbrev pub HasNoDirective : Bytes → Type 0
HasNoDirective line = All (λ p. starts_with p line ≡ false) patterns

pattern_here-none :
    (place i : ℕ) (ps : List Bytes) (s : Bytes)
    → All (λ p. starts_with p s ≡ false) ps
    → pattern_here place i ps s ≡ none
unfolding pattern_here
pattern_here-none place i [] s h = refl
pattern_here-none place i (p ∷ ps) s (k, h) = rw k (pattern_here-none place (suc i) ps s h)

-- Where a match may start.
abbrev StartsBehind : Option Match → Type 0
StartsBehind none = Unit
StartsBehind (some m) = m.start ≢ 0

pattern_here-StartsBehind :
    (place i : ℕ) (ps : List Bytes) (s : Bytes) → StartsBehind (pattern_here (suc place) i ps s)
unfolding pattern_here
pattern_here-StartsBehind place i [] s = tt
pattern_here-StartsBehind place i (p ∷ ps) s = elim (Bool-cases (starts_with p s)) [
  | inl here ↦ rw here (omega arith)
  | inr other ↦ rw other (pattern_here-StartsBehind place (suc i) ps s)
]

or_later-StartsBehind :
    (m later : Option Match) → StartsBehind m → StartsBehind later → StartsBehind (or_later m later)
or_later-StartsBehind none later h k = k
or_later-StartsBehind (some m) later h k = h

leftmost_first-StartsBehind : (place : ℕ) (s : Bytes) → StartsBehind (leftmost_first (suc place) s)
unfolding leftmost_first
leftmost_first-StartsBehind place [] = tt
leftmost_first-StartsBehind place (c ∷ s) =
    or_later-StartsBehind (pattern_here (suc place) 0 patterns (c ∷ s)) _
      (unfold pattern_here in pattern_here-StartsBehind place 0 patterns (c ∷ s))
      (leftmost_first-StartsBehind (suc place) s)

matched_behind :
    (m : Option Match) (line : Bytes) (b : Building)
    → StartsBehind m
    → matched m line b ≡ return panicked
unfolding matched
matched_behind none line b h = refl
matched_behind (some m) line b h = ground arith

leftmost_first-HasNoDirective :
    (line : Bytes) → HasNoDirective line → StartsBehind (leftmost_first 0 line)
unfolding leftmost_first
leftmost_first-HasNoDirective [] h = tt
leftmost_first-HasNoDirective (c ∷ s) h =
    rw (pattern_here-none 0 0 patterns (c ∷ s) h) (leftmost_first-StartsBehind 0 s)

module _ (finders : Finders) where
  run-panics :
      (line : Bytes) (lines : List Bytes) (b : Building)
      → IsUtf8 line
      → HasNoDirective line
      → run finders (line ∷ lines) b ≡ panicked
  unfolding run
  run-panics line lines b v h = rw (
    is_utf8_of line v,
    finders.directive_first line,
    matched_behind (leftmost_first 0 line) line b (leftmost_first-HasNoDirective line h),
  )

  -- An event of lines that are not empty and end in no carriage return makes the decoder panic if its
  -- first line is valid UTF-8 and begins with no field name and colon, whatever its other lines are;
  -- the event is taken out of the buffer.
  pub decode-panics :
      (line : Bytes) (lines : List Bytes) (rest : Bytes)
      → All IsWhole (line ∷ lines)
      → IsUtf8 line
      → HasNoDirective line
      → decode finders (joined line lines ++ terminated rest) ≡ (panicked, rest)
  decode-panics line lines rest w v h =
      decode-lines finders line lines rest w ∙ ap (λ d. (d, rest)) (run-panics line lines fresh v h)
