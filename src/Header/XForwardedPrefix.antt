-- ===== src/Header/XForwardedPrefix.antt =====
-- actix-web-lab/src/x_forwarded_prefix.rs: the header's parser, and the extractor of the path as the
-- client saw it.
pub mod Laws
use actix_web_lab.Common.{Option, none, some, [], ◌∷◌, ◌++◌, ◌≡◌, refl, Result, err, ok_or, ok}
use actix_web_lab.Common.Options.{◌>>=◌}
use actix_web_lab.Header.{ParseError, header}
use actix_web_lab.Text.{Text, trim}
use actix_web_lab.Header.Http.{HeaderValues}

-- What the code uses of http's `PathAndQuery`: the text that is displayed of a path is parsed as a
-- path that is displayed the same, with the same query.
pub record Paths : Type 1 where
  pub PathAndQuery : Type 0
  pub parse_path : Text → Option PathAndQuery
  pub as_str : PathAndQuery → Text
  pub display : PathAndQuery → Text
  pub query : PathAndQuery → Option Text
  pub root : PathAndQuery
  pub parse_display :
      (p : PathAndQuery)
      → (q : PathAndQuery) × (parse_path (display p) ≡ some q)
        × (display q ≡ display p)
        × (query q ≡ query p)

-- `filter(|hdr| !hdr.is_empty())`
unfoldable pub non_empty : Text → Option Text
non_empty [] = none
non_empty (c ∷ t) = some (c ∷ t)

-- How a future ends that is ready at once: `unwrap` panics.
pub data Ready (A : Type 0) : Type 0 where
  panics : Ready A
  ready : A → Ready A

-- What `unwrap` makes of an option, in a future that is ready.
unfoldable pub unwrap : {A : Type 0} → Option A → Ready A
unwrap none = panics
unwrap (some a) = ready a

-- The body of `ReconstructedPath::from_request`, once the prefix is parsed
unfoldable pub reconstructed :
    (paths : Paths)
    → Result ParseError paths.PathAndQuery
    → paths.PathAndQuery
    → Ready paths.PathAndQuery
reconstructed paths (err e) path_and_query = panics
reconstructed paths (ok prefix) path_and_query =
    unwrap (paths.parse_path (paths.as_str prefix ++ paths.as_str path_and_query))

module _ (http : HeaderValues) (paths : Paths) where
  -- `XForwardedPrefix::try_into_value`, with the derived `Display`
  unfoldable pub try_into_value : paths.PathAndQuery → Option http.Value
  try_into_value prefix = http.try_from (paths.display prefix)

  -- `filter(|path| path.query().is_none())`
  unfoldable pub without_query : paths.PathAndQuery → Option Text → Option paths.PathAndQuery
  without_query path none = some path
  without_query path (some q) = none

  unfoldable pub prefix_of : Option http.Value → Option paths.PathAndQuery
  prefix_of hdr = do
    value ← hdr
    read ← http.to_str value
    text ← non_empty (trim read)
    path ← paths.parse_path text
    without_query path (paths.query path)

  -- `XForwardedPrefix::parse`, given the first header of that name
  unfoldable pub parse : Option http.Value → Result ParseError paths.PathAndQuery
  parse hdr = ok_or (prefix_of hdr) header

  -- `ReconstructedPath::from_request`, given that header and the request's path
  unfoldable pub from_request :
      Option http.Value → Option paths.PathAndQuery → Ready paths.PathAndQuery
  from_request hdr path_and_query =
      reconstructed paths (parse hdr) (elim path_and_query [ none ↦ paths.root | some path ↦ path ])
