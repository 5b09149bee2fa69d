-- ===== src/Text.antt =====
-- The operations of `str` that the sources call, over code points, and the printing and parsing
-- of unsigned integers. (Rust's standard library; the parts of actix-web-lab/src call it.)
pub mod Split
pub mod Decimal
pub mod Trim
pub mod Equal
pub mod Joined
use Prim.Native.Char.{code}
use Prim.Native.String.{String}
use actix_web_lab.Common.{
  ℕ, Bool, true, false, not, ◌&&◌, ◌||◌, List, [], ◌∷◌, ◌++◌, map, Option, none, some, leb, ◌==◌,
  if◌then◌else◌,
}

-- A `str` by its code points.
abbrev pub Text : Type 0
Text = List ℕ

abbrev pub text : String → Text
text String.[] = []
text (String.◌∷◌ c s) = code c ∷ text s

-- `==` of `str`
abbrev pub text_eq : Text → Text → Bool
text_eq [] [] = true
text_eq (a ∷ s) (b ∷ t) = a == b && text_eq s t
text_eq _ _ = false

-- `char::is_whitespace`, the Unicode property White_Space
abbrev pub is_whitespace : ℕ → Bool
is_whitespace c =
    (leb 9 c && leb c 13)
    || c == 0x20
    || c == 0x85
    || c == 0xa0
    || c == 0x1680
    || (leb 0x2000 c && leb c 0x200a)
    || c == 0x2028
    || c == 0x2029
    || c == 0x202f
    || c == 0x205f
    || c == 0x3000

-- `trim_start_matches` and `trim_end_matches`
abbrev pub trim_start_by : (ℕ → Bool) → Text → Text
trim_start_by p [] = []
trim_start_by p (c ∷ s) = if p c then trim_start_by p s else c ∷ s

abbrev keep_end : Bool → ℕ → Text → Text
keep_end drops c [] = if drops then [] else c ∷ []
keep_end drops c (d ∷ s) = c ∷ d ∷ s

abbrev pub trim_end_by : (ℕ → Bool) → Text → Text
trim_end_by p [] = []
trim_end_by p (c ∷ s) = keep_end (p c) c (trim_end_by p s)

unfoldable pub trim : Text → Text
trim s = trim_end_by is_whitespace (trim_start_by is_whitespace s)

-- `join` of a slice of `str`
abbrev pub join_rest : Text → List Text → Text
join_rest sep [] = []
join_rest sep (s ∷ ss) = sep ++ (s ++ join_rest sep ss)

unfoldable pub join : Text → List Text → Text
join sep [] = []
join sep (s ∷ ss) = s ++ join_rest sep ss

-- `strip_prefix`
abbrev pub strip_prefix : Text → Text → Option Text
strip_prefix [] s = some s
strip_prefix (c ∷ p) [] = none
strip_prefix (c ∷ p) (d ∷ s) = if c == d then strip_prefix p s else none
