-- ===== src/Russe/Search.antt =====
-- What russe uses of the memchr and aho-corasick crates, as an interface: the first occurrence of
-- the event delimiter, and the leftmost-first match of the directives.
use actix_web_lab.Common.{
  ℕ, suc, ◌+◌, Bool, true, false, List, [], ◌∷◌, Option, none, some, ◌≡◌, refl, if◌then◌else◌, ◌==◌,
  ◌&&◌, length,
}
use actix_web_lab.Text.{text}
use actix_web_lab.Bytes.{Bytes}
use actix_web_lab.Bytes.Lines.{newline}

-- `SSE_DELIMITER`
abbrev pub delimiter : Bytes
delimiter = newline ∷ newline ∷ []

-- The patterns in the order of the source, which numbers them from 0.
abbrev pub patterns : List Bytes
patterns =
    text "data: "
    ∷ text "data:"
    ∷ text "id: "
    ∷ text "id:"
    ∷ text "event: "
    ∷ text "event:"
    ∷ text "retry: "
    ∷ text "retry:"
    ∷ text ": "
    ∷ text ":"
    ∷ []

pub record Match : Type 0 where
  pub pattern : ℕ
  pub start : ℕ
  pub end : ℕ

abbrev pub starts_with : Bytes → Bytes → Bool
starts_with [] s = true
starts_with (c ∷ p) [] = false
starts_with (c ∷ p) (d ∷ s) = c == d && starts_with p s

abbrev pub next : Option ℕ → Option ℕ
next none = none
next (some i) = some (suc i)

-- The first place at which a non-empty needle stands.
unfoldable pub first_index : Bytes → Bytes → Option ℕ
first_index needle [] = none
first_index needle (c ∷ s) =
    if starts_with needle (c ∷ s) then some 0 else next (first_index needle s)

-- The first pattern, by number, that stands at the beginning of the text, which is at `place`.
unfoldable pub pattern_here : ℕ → ℕ → List Bytes → Bytes → Option Match
pattern_here place i [] s = none
pattern_here place i (p ∷ ps) s =
    if starts_with p s
    then some (record { pattern = i; start = place; end = place + length p })
    else pattern_here place (suc i) ps s

abbrev pub or_later : Option Match → Option Match → Option Match
or_later none later = later
or_later (some m) later = some m

-- The leftmost place at which a pattern stands, and there the first of the patterns.
unfoldable pub leftmost_first : ℕ → Bytes → Option Match
unfolding pattern_here
leftmost_first place [] = none
leftmost_first place (c ∷ s) =
    or_later (pattern_here place 0 patterns (c ∷ s)) (leftmost_first (suc place) s)

pub record Finders : Type 0 where
  pub event_find : Bytes → Option ℕ
  pub directive_find : Bytes → Option Match
  pub event_first : (src : Bytes) → event_find src ≡ first_index delimiter src
  pub directive_first : (line : Bytes) → directive_find line ≡ leftmost_first 0 line

-- Searches that try each place in turn.
abbrev pub naive : Finders
naive = record {
  event_find = first_index delimiter;
  directive_find = leftmost_first 0;
  event_first = λ src. refl;
  directive_first = λ line. refl;
}
