-- ===== src/Header/CacheControl/Directive.antt =====
-- `Display` and `FromStr` of one directive of cache_control.rs.
use actix_web_lab.Common.{
  ℕ, ◌≤◌, true, false, List, [], ◌∷◌, ◌++◌, Option, none, some, ◌≡◌, ◌≢◌, refl, ◌∙◌, arith, Result,
  ok, All, All-imp, ◌==◌,
}
use actix_web_lab.Text.{Text, text}
use actix_web_lab.Text.Decimal.{
  IntError, is_digit, show, show-ne-nil, show_digits, parse_uint, parse_uint-show,
}
use actix_web_lab.Text.Equal.{text_eq_ne, ne_of_Lacks}
use actix_web_lab.Text.Split.{Lacks, split_once-append, split_once_of_Lacks}
use actix_web_lab.Text.Trim.{trim_end_by-All}
use actix_web_lab.Header.CacheControl.{
  CacheDirective, max_age, max_stale, min_fresh, s_max_age, extension, display, max_u32, seconds,
  unquote_arg, from_pair, from_other, keywords, from_arms, from_str,
}

-- What a directive must satisfy to be written without loss: a number fits 32 bits; an extension
-- is no keyword and holds no `=` in its name; its argument is neither empty nor quoted.
abbrev pub IsWritable : CacheDirective → Type 0
IsWritable (max_age n) = n ≤ max_u32
IsWritable (max_stale n) = n ≤ max_u32
IsWritable (min_fresh n) = n ≤ max_u32
IsWritable (s_max_age n) = n ≤ max_u32
IsWritable (extension name none) =
    (name ≢ []) × Lacks b'=' name × All (λ arm. name ≢ arm.0) keywords
IsWritable (extension name (some arg)) =
    Lacks b'=' name
    × (arg ≢ [])
    × (unquote_arg arg ≡ arg)
    × All (λ k. name ≢ k)
        (text "max-age" ∷ text "max-stale" ∷ text "min-fresh" ∷ text "s-maxage" ∷ [])
IsWritable _ = Unit

from_arms_none :
    (arms : List (Text × CacheDirective)) (dir : Text)
    (other : Result (Option IntError) CacheDirective)
    → All (λ arm. dir ≢ arm.0) arms
    → from_arms arms dir other ≡ other
unfolding from_arms
from_arms_none [] dir other h = refl
from_arms_none ((k, d) ∷ arms) dir other (p, h) =
    rw (text_eq_ne dir k p) (from_arms_none arms dir other h)

ne_arms :
    (arms : List (Text × CacheDirective)) (a b : Text)
    → All (λ arm. Lacks b'=' arm.0) arms
    → All (λ arm. (a ++ b'=' ∷ b) ≢ arm.0) arms
ne_arms [] a b h = tt
ne_arms ((k, d) ∷ arms) a b (p, h) = (ne_of_Lacks b'=' a b k p, ne_arms arms a b h)

-- A text with `=` is read by its two halves.
from_str-pair : (a b : Text) → Lacks b'=' a → from_str (a ++ b'=' ∷ b) ≡ from_pair a (unquote_arg b)
unfolding from_str from_other
from_str-pair [] b h =
    from_arms_none keywords _ _ (ne_arms keywords [] b (ground arith))
    ∙ rw (split_once-append b'=' [] b h)
from_str-pair (c ∷ a) b h =
    from_arms_none keywords _ _ (ne_arms keywords (c ∷ a) b (ground arith))
    ∙ rw (split_once-append b'=' (c ∷ a) b h)

digit_no_quote : (c : ℕ) → is_digit c ≡ true → (c == b'"') ≡ false
digit_no_quote c h = ground arith

unquote_digits : (s : Text) → All (λ c. is_digit c ≡ true) s → unquote_arg s ≡ s
unquote_digits [] h = refl
unquote_digits (c ∷ s) (p, h) = rw (digit_no_quote c p) (
    trim_end_by-All (λ d. d == b'"') (c ∷ s)
      (All-imp (λ d. is_digit d ≡ true) (λ d. (d == b'"') ≡ false) digit_no_quote (c ∷ s) (p, h)))

-- A number's directive, written with its name and `=`, is read as the number.
module _ (n : ℕ) (fits : n ≤ max_u32) where
  parsed_number : parse_uint max_u32 (show n) ≡ ok n
  parsed_number = parse_uint-show max_u32 n fits

  from_pair-number :
      (dir : Text) (f : ℕ → CacheDirective)
      → ((s : Text) → s ≢ [] → from_pair dir s ≡ seconds f (parse_uint max_u32 s))
      → from_pair dir (unquote_arg (show n)) ≡ ok (f n)
  from_pair-number dir f h =
      rw (unquote_digits (show n) (show_digits n), h (show n) (show-ne-nil n), parsed_number)

from_pair-max_age :
    (s : Text) → s ≢ [] → from_pair (text "max-age") s ≡ seconds max_age (parse_uint max_u32 s)
unfolding from_pair
from_pair-max_age [] h = absurd (h refl)
from_pair-max_age (c ∷ s) h = refl

from_pair-max_stale :
    (s : Text) → s ≢ [] → from_pair (text "max-stale") s ≡ seconds max_stale (parse_uint max_u32 s)
unfolding from_pair
from_pair-max_stale [] h = absurd (h refl)
from_pair-max_stale (c ∷ s) h = refl

from_pair-min_fresh :
    (s : Text) → s ≢ [] → from_pair (text "min-fresh") s ≡ seconds min_fresh (parse_uint max_u32 s)
unfolding from_pair
from_pair-min_fresh [] h = absurd (h refl)
from_pair-min_fresh (c ∷ s) h = refl

from_pair-s_max_age :
    (s : Text) → s ≢ [] → from_pair (text "s-maxage") s ≡ seconds s_max_age (parse_uint max_u32 s)
unfolding from_pair
from_pair-s_max_age [] h = absurd (h refl)
from_pair-s_max_age (c ∷ s) h = refl

from_pair-extension :
    (name arg : Text)
    → arg ≢ []
    → All
        (λ k. name ≢ k)
        (text "max-age" ∷ text "max-stale" ∷ text "min-fresh" ∷ text "s-maxage" ∷ [])
    → from_pair name arg ≡ ok (extension name (some arg))
unfolding from_pair
from_pair-extension name [] ne h = absurd (ne refl)
from_pair-extension name (c ∷ s) ne (h, (i, (j, (k, _)))) =
    rw (text_eq_ne _ _ h, text_eq_ne _ _ i, text_eq_ne _ _ j, text_eq_ne _ _ k)

from_str-name :
    (name : Text)
    → name ≢ []
    → Lacks b'=' name
    → All (λ arm. name ≢ arm.0) keywords
    → from_str name ≡ ok (extension name none)
unfolding from_str from_other
from_str-name [] ne h k = absurd (ne refl)
from_str-name (c ∷ s) ne h k =
    from_arms_none keywords (c ∷ s) _ k ∙ rw (split_once_of_Lacks b'=' (c ∷ s) h)

-- Every directive that satisfies `IsWritable` is read back from its own text.
pub from_str-display : (d : CacheDirective) → IsWritable d → from_str (display d) ≡ ok d
unfolding display
from_str-display (max_age n) h =
    from_str-pair (text "max-age") (show n) (omega arith)
    ∙ from_pair-number n h (text "max-age") max_age from_pair-max_age
from_str-display (max_stale n) h =
    from_str-pair (text "max-stale") (show n) (omega arith)
    ∙ from_pair-number n h (text "max-stale") max_stale from_pair-max_stale
from_str-display (min_fresh n) h =
    from_str-pair (text "min-fresh") (show n) (omega arith)
    ∙ from_pair-number n h (text "min-fresh") min_fresh from_pair-min_fresh
from_str-display (s_max_age n) h =
    from_str-pair (text "s-maxage") (show n) (omega arith)
    ∙ from_pair-number n h (text "s-maxage") s_max_age from_pair-s_max_age
from_str-display (extension name none) (ne, h, k) = from_str-name name ne h k
from_str-display (extension name (some arg)) (h, ne, plain, k) =
    from_str-pair name arg h ∙ rw plain (from_pair-extension name arg ne k)
from_str-display _ h = unfold from_str from_arms in refl
