-- ===== src/Header/ClearSiteData.antt =====
-- actix-web-lab/src/clear_site_data.rs
pub mod Laws
use actix_web_lab.Common.{List, [], ◌∷◌, Option, none, some, if◌then◌else◌, Result, ok, err, ◌>>=◌}
use actix_web_lab.Text.{Text, text, text_eq}
use actix_web_lab.Header.Http.{HeaderValues}
use actix_web_lab.Header.{
  ParseError, header, from_comma_delimited_quoted_strings, fmt_comma_delimited_quoted_strings,
}

pub data ClearSiteDataDirective : Type 0 where
  all cache client_hints cookies storage execution_contexts : ClearSiteDataDirective

pub record ClearSiteData : Type 0 where
  pub directives : List ClearSiteDataDirective

-- `ClearSiteData::all`
pub everything : ClearSiteData
everything = record { directives = all ∷ [] }

-- `directive`, which `Display` writes
unfoldable pub directive : ClearSiteDataDirective → Text
directive all = text "*"
directive cache = text "cache"
directive client_hints = text "clientHints"
directive cookies = text "cookies"
directive storage = text "storage"
directive execution_contexts = text "executionContexts"

unfoldable pub from_str : Text → Result (Option ⊥) ClearSiteDataDirective
unfolding directive
from_str dir =
    if text_eq dir (directive all)
    then ok all
    else if text_eq dir (directive cache)
    then ok cache
    else if text_eq dir (directive client_hints)
    then ok client_hints
    else if text_eq dir (directive cookies)
    then ok cookies
    else if text_eq dir (directive storage)
    then ok storage
    else if text_eq dir (directive execution_contexts)
    then ok execution_contexts
    else err none

unfoldable pub display : ClearSiteData → Text
display c = fmt_comma_delimited_quoted_strings directive c.directives

-- `parse` refuses a header with no directive.
abbrev pub non_empty : List ClearSiteDataDirective → Result ParseError ClearSiteData
non_empty [] = err header
non_empty (d ∷ ds) = ok (record { directives = d ∷ ds })

module _ (http : HeaderValues) where
  open http use {Value, try_from, to_str}

  unfoldable pub try_into_value : ClearSiteData → Option Value
  try_into_value c = try_from (display c)

  -- `parse`, from the values of the message's headers of that name
  unfoldable pub parse : List Value → Result ParseError ClearSiteData
  parse headers = do
    items ← from_comma_delimited_quoted_strings from_str to_str headers
    non_empty items
