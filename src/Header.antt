-- ===== src/Header.antt =====
-- actix-web-lab/src/header.rs: lists of quoted strings in header values. `HeaderValue` and its
-- `to_str` belong to the http crate and are parameters (Header/Http).
pub mod Http
pub mod Quoted
pub mod Comma
pub mod ClearSiteData
pub mod CacheControl
pub mod StrictTransportSecurity
pub mod ContentLength
pub mod Forwarded
pub mod XForwardedPrefix
mod Tests
use actix_web_lab.Common.{
  ℕ, true, List, [], ◌∷◌, ◌++◌, Option, none, some, map, ◌==◌, if◌then◌else◌, Result, ok, err,
  ◌>>=◌, ok_or,
}
use actix_web_lab.Text.{Text, trim, strip_prefix}
use actix_web_lab.Text.Split.{split}

-- `actix_http::error::ParseError`, of which the typed headers give one case.
pub data ParseError : Type 0 where
  header : ParseError

-- `strip_suffix` at one character
abbrev pub strip_last : ℕ → Text → Option Text
strip_last q [] = none
strip_last q (c ∷ []) = if c == q then some [] else none
strip_last q (c ∷ d ∷ s) = elim (strip_last q (d ∷ s)) [ none ↦ none | some t ↦ some (c ∷ t) ]

abbrev pub unquoted : Text → Option Text
unquoted part = elim (strip_prefix (b'"' ∷ []) part) [
  | none ↦ none
  | some rest ↦ strip_last b'"' rest
]

module _ {ℓ κ} {E : Type κ} {A : Type ℓ} (from_str : Text → Result E A) where
  -- `if let Ok(part) = … { result.push(part) }`
  abbrev keep_ok : Result E A → List A → List A
  keep_ok (ok a) items = a ∷ items
  keep_ok (err e) items = items

  -- One part of a list, trimmed, in front of what is read behind it.
  unfoldable pub quoted_part : Text → Result ParseError (List A) → Result ParseError (List A)
  quoted_part [] rest = rest
  quoted_part (y ∷ ys) rest = do
    part ← ok_or (unquoted (y ∷ ys)) header
    items ← rest
    ok (keep_ok (from_str part) items)

  -- The parts of one header value, in front of those of the values behind it.
  unfoldable pub quoted_parts : List Text → Result ParseError (List A) → Result ParseError (List A)
  unfolding quoted_part
  quoted_parts [] later = later
  quoted_parts (x ∷ xs) later = quoted_part (trim x) (quoted_parts xs later)

  unfoldable pub from_comma_delimited_quoted_strings {μ} :
      {V : Type μ} → (V → Option Text) → List V → Result ParseError (List A)
  from_comma_delimited_quoted_strings to_str [] = ok []
  from_comma_delimited_quoted_strings to_str (hdr ∷ all) =
      let rest = from_comma_delimited_quoted_strings to_str all in
      do hdr_str ← ok_or (to_str hdr) header; quoted_parts (split b',' hdr_str) rest

abbrev pub quoted : Text → Text
quoted s = b'"' ∷ (s ++ b'"' ∷ [])

unfoldable pub fmt_rest {ℓ} : {A : Type ℓ} → (A → Text) → List A → Text
fmt_rest display [] = []
fmt_rest display (part ∷ parts) = b',' ∷ (b' ' ∷ (quoted (display part) ++ fmt_rest display parts))

unfoldable pub fmt_comma_delimited_quoted_strings {ℓ} : {A : Type ℓ} → (A → Text) → List A → Text
fmt_comma_delimited_quoted_strings display [] = []
fmt_comma_delimited_quoted_strings display (part ∷ parts) =
    quoted (display part) ++ fmt_rest display parts
