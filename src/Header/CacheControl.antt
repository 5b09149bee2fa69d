-- ===== src/Header/CacheControl.antt =====
-- actix-web-lab/src/cache_control.rs
pub mod Directive
pub mod Laws
use actix_web_lab.Common.{
  ℕ, ◌-◌, ◌^◌, List, [], ◌∷◌, ◌++◌, Option, none, some, ◌==◌, if◌then◌else◌, Result, ok, err, ◌>>=◌,
  map,
}
use actix_web_lab.Text.{Text, text, text_eq, trim_start_by, trim_end_by}
use actix_web_lab.Text.Decimal.{IntError, show, parse_uint}
use actix_web_lab.Text.Split.{split_once}
use actix_web_lab.Header.Comma.{CommaDelimited}
use actix_web_lab.Header.Http.{HeaderValues}
use actix_web_lab.Header.{ParseError, header}

pub data CacheDirective : Type 0 where
  max_age max_stale min_fresh s_max_age : ℕ → CacheDirective
  no_cache no_store no_transform only_if_cached : CacheDirective
  must_revalidate proxy_revalidate must_understand is_private is_public : CacheDirective
  immutable stale_while_revalidate stale_if_error : CacheDirective
  extension : Text → Option Text → CacheDirective

unfoldable pub display : CacheDirective → Text
display (max_age secs) = text "max-age=" ++ show secs
display (max_stale secs) = text "max-stale=" ++ show secs
display (min_fresh secs) = text "min-fresh=" ++ show secs
display (s_max_age secs) = text "s-maxage=" ++ show secs
display no_cache = text "no-cache"
display no_store = text "no-store"
display no_transform = text "no-transform"
display only_if_cached = text "only-if-cached"
display must_revalidate = text "must-revalidate"
display proxy_revalidate = text "proxy-revalidate"
display must_understand = text "must-understand"
display is_private = text "private"
display is_public = text "public"
display immutable = text "immutable"
display stale_while_revalidate = text "stale-while-revalidate"
display stale_if_error = text "stale-if-error"
display (extension name none) = name
display (extension name (some arg)) = name ++ b'=' ∷ arg

abbrev pub max_u32 : ℕ
max_u32 = 2 ^ 32 - 1

-- `secs.parse().map(f).map_err(Some)`
abbrev pub seconds :
    (ℕ → CacheDirective) → Result IntError ℕ → Result (Option IntError) CacheDirective
seconds f (ok n) = ok (f n)
seconds f (err e) = err (some e)

-- `trim_matches('"')`
abbrev pub unquote_arg : Text → Text
unquote_arg arg = trim_end_by (λ c. c == b'"') (trim_start_by (λ c. c == b'"') arg)

-- The argument of the first `=`, its quotes trimmed.
unfoldable pub from_pair : Text → Text → Result (Option IntError) CacheDirective
from_pair dir [] = err none
from_pair dir (c ∷ s) =
    if text_eq dir (text "max-age")
    then seconds max_age (parse_uint max_u32 (c ∷ s))
    else if text_eq dir (text "max-stale")
    then seconds max_stale (parse_uint max_u32 (c ∷ s))
    else if text_eq dir (text "min-fresh")
    then seconds min_fresh (parse_uint max_u32 (c ∷ s))
    else if text_eq dir (text "s-maxage")
    then seconds s_max_age (parse_uint max_u32 (c ∷ s))
    else ok (extension dir (some (c ∷ s)))

unfoldable pub from_other : Text → Option (Text × Text) → Result (Option IntError) CacheDirective
from_other dir (some (left, right)) = from_pair left (unquote_arg right)
from_other dir none = ok (extension dir none)

-- The arms of the match on a whole directive, in their order.
abbrev pub keywords : List (Text × CacheDirective)
keywords =
    (text "no-cache", no_cache)
    ∷ (text "no-store", no_store)
    ∷ (text "no-transform", no_transform)
    ∷ (text "only-if-cached", only_if_cached)
    ∷ (text "must-revalidate", must_revalidate)
    ∷ (text "public", is_public)
    ∷ (text "private", is_private)
    ∷ (text "proxy-revalidate", proxy_revalidate)
    ∷ (text "must-understand", must_understand)
    ∷ (text "immutable", immutable)
    ∷ (text "stale-while-revalidate", stale_while_revalidate)
    ∷ (text "stale-if-error", stale_if_error)
    ∷ []

pub from_arms :
    List (Text × CacheDirective)
    → Text
    → Result (Option IntError) CacheDirective
    → Result (Option IntError) CacheDirective
from_arms [] dir other = other
from_arms ((k, d) ∷ arms) dir other = if text_eq dir k then ok d else from_arms arms dir other

unfoldable pub from_str : Text → Result (Option IntError) CacheDirective
from_str [] = err none
from_str (c ∷ s) = from_arms keywords (c ∷ s) (from_other (c ∷ s) (split_once b'=' (c ∷ s)))

pub record CacheControl : Type 0 where
  pub directives : List CacheDirective

-- `parse` refuses a header with no directive.
abbrev pub non_empty : List CacheDirective → Result ParseError CacheControl
non_empty [] = err header
non_empty (d ∷ ds) = ok (record { directives = d ∷ ds })

module _ (http : HeaderValues) (comma : CommaDelimited http (Option IntError) CacheDirective) where
  open http use {Value, try_from}
  open comma use {fmt_comma_delimited, from_comma_delimited}

  unfoldable pub try_into_value : CacheControl → Option Value
  try_into_value c = try_from (fmt_comma_delimited (map display c.directives))

  -- `parse`, from the values of the message's headers of that name
  unfoldable pub parse : List Value → Result ParseError CacheControl
  parse headers = do items ← from_comma_delimited from_str headers; non_empty items
