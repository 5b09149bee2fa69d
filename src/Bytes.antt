-- ===== src/Bytes.antt =====
-- Byte strings, and the UTF-8 validity of Rust's `core::str::from_utf8` as an automaton.
pub mod Lines
use actix_web_lab.Common.{
  ℕ, Bool, true, false, ◌&&◌, ◌||◌, List, [], ◌∷◌, ◌++◌, Option, none, some, ◌≡◌, refl, ◌∙◌, arith,
  leb, ltb, ◌==◌, if◌then◌else◌,
}

abbrev pub Bytes : Type 0
Bytes = List ℕ

-- What may come next: a character, or one to three more bytes of one, the first of them in a
-- narrower range behind 0xe0, 0xed, 0xf0 and 0xf4.
pub data Utf8 : Type 0 where
  start one two three after_e0 after_ed after_f0 after_f4 : Utf8

abbrev between : ℕ → ℕ → ℕ → Utf8 → Option Utf8
between lo hi b next = if leb lo b && leb b hi then some next else none

unfoldable pub utf8_first : ℕ → Option Utf8
utf8_first b =
    if ltb b 0x80
    then some start
    else if leb 0xc2 b && leb b 0xdf
    then some one
    else if b == 0xe0
    then some after_e0
    else if b == 0xed
    then some after_ed
    else if leb 0xe1 b && leb b 0xef
    then some two
    else if b == 0xf0
    then some after_f0
    else if leb 0xf1 b && leb b 0xf3
    then some three
    else if b == 0xf4
    then some after_f4
    else none

unfoldable pub utf8_step : Utf8 → ℕ → Option Utf8
unfolding utf8_first
utf8_step start b = utf8_first b
utf8_step one b = between 0x80 0xbf b start
utf8_step two b = between 0x80 0xbf b one
utf8_step three b = between 0x80 0xbf b two
utf8_step after_e0 b = between 0xa0 0xbf b one
utf8_step after_ed b = between 0x80 0x9f b one
utf8_step after_f0 b = between 0x90 0xbf b two
utf8_step after_f4 b = between 0x80 0x8f b two

abbrev pub utf8_from : Option Utf8 → Bytes → Option Utf8
utf8_from none s = none
utf8_from (some u) [] = some u
utf8_from (some u) (b ∷ s) = utf8_from (utf8_step u b) s

abbrev pub IsUtf8 : Bytes → Type 0
IsUtf8 s = utf8_from (some start) s ≡ some start

abbrev pub is_start : Option Utf8 → Bool
is_start (some start) = true
is_start _ = false

-- Whether `from_utf8` accepts the bytes.
abbrev pub is_utf8 : Bytes → Bool
is_utf8 s = is_start (utf8_from (some start) s)

pub utf8_from-append :
    (o : Option Utf8) (s t : Bytes) → utf8_from o (s ++ t) ≡ utf8_from (utf8_from o s) t
utf8_from-append none s t = refl
utf8_from-append (some u) [] t = refl
utf8_from-append (some u) (b ∷ s) t = utf8_from-append (utf8_step u b) s t

pub IsUtf8-append : (s t : Bytes) → IsUtf8 s → IsUtf8 t → IsUtf8 (s ++ t)
IsUtf8-append s t h k = utf8_from-append (some start) s t ∙ rw h k
