-- ===== src/Extract/Query.antt =====
-- actix-web-lab/src/query.rs and path.rs.
use actix_web_lab.Text.{Text, text}
use actix_web_lab.Common.{List, Result, ℕ, ok, err, ◌++◌, if◌then◌else◌, ltb, [], length}

-- Where deserialization failed: the segments of the place and how it is shown.
pub record Place : Type 0 where
  pub segments : List Text
  pub shown : Text

pub record QueryDeserializeError (Source : Type 0) : Type 0 where
  pub path : Place
  pub source : Source

pub record Query (T : Type 0) : Type 0 where
  pub value : T

abbrev pub into_query :
    {T Source : Type 0}
    → Result (Place × Source) T
    → Result (QueryDeserializeError Source) (Query T)
into_query (ok value) = ok (record { value = value })
into_query (err (path, source)) = err (record { path = path; source = source })

-- `deserialize` is serde_path_to_error over serde_html_form, on the pairs that form_urlencoded parses.
module _ {T Source : Type 0} (deserialize : Text → Result (Place × Source) T) where
  unfoldable pub from_query : Text → Result (QueryDeserializeError Source) (Query T)
  from_query query_str = into_query (deserialize query_str)

  unfoldable pub query_from_request : Text → Result (QueryDeserializeError Source) (Query T)
  unfolding from_query
  query_from_request query_string = from_query query_string

unfoldable pub display_error : {Source : Type 0} → QueryDeserializeError Source → Text
display_error e =
    text "Query deserialization failed"
    ++ (if ltb 0 (length e.path.segments) then text " at path: " ++ e.path.shown else [])

unfoldable pub status_code : {Source : Type 0} → QueryDeserializeError Source → ℕ
status_code e = 422

pub record Extracted (T : Type 0) : Type 0 where
  pub value : T

-- `deserialize` is that of `PathDeserializer` on the request's match info, and `not_found` is
-- `ErrorNotFound`.
abbrev pub into_path :
    {T DeError Error : Type 0} → (DeError → Error) → Result DeError T → Result Error (Extracted T)
into_path not_found (ok value) = ok (record { value = value })
into_path not_found (err e) = err (not_found e)

unfoldable pub path_from_request :
    {T MatchInfo DeError Error : Type 0}
    → (MatchInfo → Result DeError T)
    → (DeError → Error)
    → MatchInfo
    → Result Error (Extracted T)
path_from_request deserialize not_found match_info = into_path not_found (deserialize match_info)
