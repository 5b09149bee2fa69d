-- ===== src/Header/Tests.antt =====
-- The theorems of the typed headers at concrete headers.
use mathlib.Core.Option.{some-injective}
use actix_web_lab.Common.{
  ap, List, [], ◌∷◌, ◌++◌, Option, none, some, ◌≡◌, refl, true, false, arith, Result, ok,
}
use actix_web_lab.Text.{Text, text, join, trim}
use actix_web_lab.Text.Split.{split}
use actix_web_lab.Text.Decimal.{IntError, show, parse_uint}
use actix_web_lab.Time.{from_secs}
use actix_web_lab.Header.{ParseError}
use actix_web_lab.Header.Http.{plain_values}
use actix_web_lab.Header.Comma.{CommaDelimited, comma_joined, kept_parts}
use actix_web_lab.Header.ClearSiteData
use actix_web_lab.Header.ClearSiteData.Laws.{parse-try_into_value}
use actix_web_lab.Header.CacheControl
use actix_web_lab.Header.CacheControl.Laws.{parse-try_into_value_joined}
use actix_web_lab.Header.StrictTransportSecurity
use actix_web_lab.Header.StrictTransportSecurity.Laws.{
  from_str-display_policy, from_str_attributes, contains,
}
use actix_web_lab.Header.ContentLength
use actix_web_lab.Header.Forwarded
use actix_web_lab.Header.Forwarded.Laws.{IsWritable, from_str-display_forwarded}
use actix_web_lab.Header.XForwardedPrefix

-- Clear-Site-Data
abbrev two_kinds : ClearSiteData.ClearSiteData
two_kinds = record { directives = ClearSiteData.cookies ∷ (ClearSiteData.storage ∷ []) }

parse-try_into_value_example :
    (v : Text) × (ClearSiteData.try_into_value plain_values two_kinds ≡ some v)
    × (ClearSiteData.parse plain_values (v ∷ []) ≡ ok two_kinds)
parse-try_into_value_example = parse-try_into_value plain_values two_kinds (λ e. cc)

-- Cache-Control
abbrev first_kept :
    (Text → Result (Option IntError) CacheControl.CacheDirective)
    → List Text
    → Result ParseError (List CacheControl.CacheDirective)
first_kept f [] = ok []
first_kept f (v ∷ vs) = ok (kept_parts f (split b',' v))

abbrev plain_comma : CommaDelimited plain_values (Option IntError) CacheControl.CacheDirective
plain_comma = record {
  fmt_comma_delimited = comma_joined;
  from_comma_delimited = first_kept;
  fmt_joins = λ parts. refl;
  from_keeps = λ f v s h. ap (λ t. ok (kept_parts f (split b',' t))) (some-injective v s h);
}

abbrev a_day : CacheControl.CacheDirective
a_day = CacheControl.max_age 86400

abbrev mode : CacheControl.CacheDirective
mode = CacheControl.extension (text "mode") (some (text "fast"))

parse-try_into_value_joined_example :
    (v : Text) × (CacheControl.try_into_value plain_values plain_comma
        (record { directives = a_day ∷ (CacheControl.is_public ∷ []) })
      ≡ some v)
    × (CacheControl.parse plain_values plain_comma (v ∷ [])
        ≡ ok (record { directives = a_day ∷ (CacheControl.is_public ∷ []) }))
parse-try_into_value_joined_example =
    parse-try_into_value_joined plain_values plain_comma a_day (CacheControl.is_public ∷ [])
      (omega arith, tt) ((tt, tt), tt)

-- Strict-Transport-Security
abbrev two_years : StrictTransportSecurity.StrictTransportSecurity
two_years = record { duration = from_secs 63072000; include_subdomains = true; preload = true }

from_str-display_policy_example :
    StrictTransportSecurity.from_str (StrictTransportSecurity.display two_years)
    ≡ ok (record { duration = from_secs 63072000; include_subdomains = false; preload = true })
from_str-display_policy_example = from_str-display_policy two_years (omega arith)

from_str_attributes_example :
    StrictTransportSecurity.from_str (text "max-age=" ++ (show 10 ++ b';' ∷ text " preload "))
    ≡ ok (record {
      duration = from_secs 10;
      include_subdomains = contains (text "includeSubdomains") (split b';' (text " preload "));
      preload = contains (text "preload") (split b';' (text " preload "));
    })
from_str_attributes_example = from_str_attributes 10 (text " preload ") (omega arith)

-- Content-Length
abbrev four_k : ContentLength.ContentLength
four_k = record { into_inner = 4096 }

from_str-four_k : ContentLength.from_str (text " 4096 ") ≡ ok four_k
unfolding ContentLength.from_str parse_uint trim
from_str-four_k = refl

-- Forwarded
abbrev two_hops : Forwarded.Forwarded
two_hops = record {
  by = none;
  for_chain = text "1.2.3.4" ∷ (text "_hidden" ∷ []);
  host = some (text "rust-lang.org");
  proto = some (text "https");
}

two_hops-IsWritable : IsWritable two_hops
two_hops-IsWritable = record {
  by = tt;
  for_chain = (
    record { no_semicolon = omega arith; no_comma = omega arith; no_outer_quotes = refl },
    (record { no_semicolon = omega arith; no_comma = omega arith; no_outer_quotes = refl }, tt),
  );
  host = record { no_semicolon = omega arith; no_comma = omega arith; no_outer_quotes = refl };
  proto = record { no_semicolon = omega arith; no_comma = omega arith; no_outer_quotes = refl };
}

from_str-display_forwarded_example :
    Forwarded.from_str (Forwarded.display (λ parts sep. join sep parts) two_hops) ≡ two_hops
from_str-display_forwarded_example =
    from_str-display_forwarded (λ parts sep. join sep parts) (λ parts sep. refl) two_hops
      two_hops-IsWritable

-- X-Forwarded-Prefix, with paths that are their texts, or the root if those are empty
abbrev or_slash : Text → Text
or_slash [] = text "/"
or_slash (c ∷ t) = c ∷ t

or_slash_again : (t : Text) → or_slash (or_slash t) ≡ or_slash t
or_slash_again [] = refl
or_slash_again (c ∷ t) = refl

abbrev plain_paths : XForwardedPrefix.Paths
plain_paths = record {
  PathAndQuery = Text;
  parse_path = λ t. some t;
  as_str = or_slash;
  display = or_slash;
  query = λ p. none;
  root = text "/";
  parse_display = λ p. (or_slash p, refl, or_slash_again p, refl);
}

-- A request for `/bar` behind the prefix `/foo`, and one without the header
reconstructs :
    XForwardedPrefix.from_request plain_values plain_paths (some (text "/foo")) (some (text "/bar"))
    ≡ XForwardedPrefix.ready (text "/foo/bar")
unfolding XForwardedPrefix.from_request XForwardedPrefix.reconstructed XForwardedPrefix.parse
    XForwardedPrefix.prefix_of XForwardedPrefix.non_empty XForwardedPrefix.without_query
    XForwardedPrefix.unwrap trim
reconstructs = refl

panics_without :
    XForwardedPrefix.from_request plain_values plain_paths none (some (text "/bar"))
    ≡ XForwardedPrefix.panics
unfolding XForwardedPrefix.from_request XForwardedPrefix.reconstructed XForwardedPrefix.parse
    XForwardedPrefix.prefix_of
panics_without = refl
