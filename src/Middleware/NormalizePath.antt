-- ===== src/Middleware/NormalizePath.antt =====
-- actix-web-lab/src/normalize_path.rs: the middleware, up to the point at which the request goes on
-- to the inner service or a redirect goes back.
pub mod Slashes
pub mod Laws
pub mod Calls
pub mod Serving
mod Tests
use actix_web_lab.Common.{
  ℕ, Bool, true, false, ◌&&◌, List, [], ◌∷◌, ◌++◌, Option, none, some, ◌==◌, ◌≡◌, if◌then◌else◌,
  leb, ltb,
}
use actix_web_lab.Text.{Text, text, text_eq, trim_end_by}

abbrev pub is_slash : ℕ → Bool
is_slash c = c == b'/'

abbrev pub prepend : ℕ → Text → Text
prepend c [] = c ∷ []
prepend c (d ∷ s) = if is_slash c && is_slash d then d ∷ s else c ∷ d ∷ s

-- A text with each run of slashes as one.
unfoldable pub merged : Text → Text
merged [] = []
merged (c ∷ s) = prepend c (merged s)

-- The regex crate's `replace_all` of "//+" by "/"
pub record MergeSlash : Type 0 where
  pub replace_all : Text → Text
  pub merges : (path : Text) → replace_all path ≡ merged path

-- actix-web's `TrailingSlash`, the variants that the code tells apart
pub data TrailingSlash : Type 0 where
  always merge_only trim : TrailingSlash

pub record NormalizePath : Type 0 where
  pub trailing_slash_behavior : TrailingSlash
  pub use_redirects : Option ℕ

unfoldable pub new : TrailingSlash → NormalizePath
new behavior = record { trailing_slash_behavior = behavior; use_redirects = none }

-- `use_redirects`, with 307, and `use_redirects_with`, which panics if the status is no redirect
unfoldable pub use_redirects : NormalizePath → NormalizePath
use_redirects n = record n { use_redirects = some 307 }

unfoldable pub use_redirects_with : NormalizePath → ℕ → Option NormalizePath
use_redirects_with n code =
    if leb 300 code && ltb code 400 then some (record n { use_redirects = some code }) else none

-- What the middleware reads and writes of a URI; `origin` is its other parts.
pub record Uri (Origin : Type 0) : Type 0 where
  pub origin : Origin
  pub path : Text
  pub query : Option Text

-- The URI of the head, and the one that `match_info` was brought up to.
pub record Request (Origin : Type 0) : Type 0 where
  pub uri : Uri Origin
  pub match_uri : Uri Origin

-- The inner service is called, or a response with that status and location is given.
pub data Served (Origin : Type 0) : Type 0 where
  service : Request Origin → Served Origin
  redirect : ℕ → Uri Origin → Served Origin

-- The first match of `call`, by the configured behaviour
unfoldable pub with_trailing : TrailingSlash → Text → Text
with_trailing always path = path ++ b'/' ∷ []
with_trailing merge_only path = path
with_trailing trim path = trim_end_by is_slash path

-- "Ensure root paths are still resolvable."
unfoldable pub or_root : Text → Text
or_root [] = text "/"
or_root (c ∷ s) = c ∷ s

module _ (merge_slash : MergeSlash) where
  unfoldable pub normalized : TrailingSlash → Text → Text
  normalized behavior path = or_root (merge_slash.replace_all (with_trailing behavior path))

  module _ {Origin : Type 0} where
    -- The last match of `call`
    unfoldable pub answer : Option ℕ → Bool → Request Origin → Served Origin
    answer (some code) true req = redirect code req.uri
    answer (some code) false req = service req
    answer none path_altered req = service req

    -- What `call` makes of a request whose path is not empty.
    abbrev pub altered : Text → Request Origin → Request Origin
    altered path req =
        let uri = record req.uri { path = path } in record { uri = uri; match_uri = uri }

    unfoldable pub call_path : NormalizePath → Text → Request Origin → Served Origin
    unfolding answer normalized
    call_path n [] req = answer n.use_redirects false req
    call_path n (c ∷ s) req =
        let path = normalized n.trailing_slash_behavior (c ∷ s) in
        if text_eq path (c ∷ s)
        then answer n.use_redirects false req
        else answer n.use_redirects true (altered path req)

    unfoldable pub call : NormalizePath → Request Origin → Served Origin
    unfolding call_path
    call n req = call_path n req.uri.path req
