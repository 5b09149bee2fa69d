-- ===== src/Lines/Responding.antt =====
-- The bodies and the responses of csv.rs, ndjson.rs and display_stream.rs, and infallible_body_stream.rs.
-- A body's state is its stream's, which is polled through `into_chunk_stream` and, where it cannot
-- fail, through `infallible`; what actix-http's bodies do with the chunks is not looked at.
use actix_web_lab.Text.{Text, text}
use actix_web_lab.Common.{ℕ}

pub data MessageBody (S : Type 0) : Type 0 where
  body_stream : S → MessageBody S
  sized_stream : ℕ → S → MessageBody S

pub record Response (S : Type 0) : Type 0 where
  pub status : ℕ
  pub content_type : Text
  pub body : MessageBody S

module _ {S : Type 0} where
  unfoldable pub new_infallible_body_stream : S → MessageBody S
  new_infallible_body_stream s = body_stream s

  unfoldable pub new_infallible_sized_stream : ℕ → S → MessageBody S
  new_infallible_sized_stream size s = sized_stream size s

  -- `into_body_stream` of the three
  unfoldable pub into_body_stream : S → MessageBody S
  into_body_stream s = body_stream s

  abbrev pub ok_with : Text → S → Response S
  ok_with mime s = record { status = 200; content_type = mime; body = into_body_stream s }

abbrev pub ndjson_mime : Text
ndjson_mime = text "application/x-ndjson"

abbrev pub csv_mime : Text
csv_mime = text "text/csv; charset=utf-8"

abbrev pub display_mime : Text
display_mime = text "text/plain; charset=utf-8"

module _ {S : Type 0} where
  unfoldable pub ndjson_responder : S → Response S
  ndjson_responder s = ok_with ndjson_mime s

  unfoldable pub csv_responder : S → Response S
  csv_responder s = ok_with csv_mime s

  unfoldable pub display_responder : S → Response S
  display_responder s = ok_with display_mime s
