-- ===== src/Payload/JsonBody.antt =====
-- actix-web-lab/src/json.rs: the extractor of a JSON payload. serde_json's `from_slice` and the mime
-- crate are parameters.
pub mod Laws
use actix_web_lab.Common.{
  ℕ, zero, suc, ◌<◌, ltb, if◌then◌else◌, Result, ok, err, to_option, length, [], Option, none, some,
  ◌≡◌, refl, arith, Bool, false, Bool-cases, inl, inr, ◌||◌, true, Result-cases, ◌⊎◌, or-cases,
  or_of, sym, ◌∙◌, ap,
}
use mathlib.Core.Bool.{true≢false}
use actix_web_lab.Bytes.{Bytes}
use actix_web_lab.Text.{Text}
use actix_web_lab.Text.Decimal.{parse_uint, IntError}
use actix_web_lab.Header.ContentLength.{max_usize}
use actix_web_lab.Payload.{Payload, Extraction, Body, error, reading, returns, drive, poll}
use actix_web_lab.Payload.Reading.{drive-collects, contents, IsSound}

pub data JsonPayloadError (PayloadError Deserialize : Type 0) : Type 0 where
  overflow_known_length : (length limit : ℕ) → JsonPayloadError PayloadError Deserialize
  overflow : (limit : ℕ) → JsonPayloadError PayloadError Deserialize
  content_type : JsonPayloadError PayloadError Deserialize
  deserialize : Deserialize → JsonPayloadError PayloadError Deserialize
  payload : PayloadError → JsonPayloadError PayloadError Deserialize

-- What the mime crate says of a media type: whether its subtype and its suffix are "json".
pub record Mime : Type 0 where
  pub subtype_is_json : Bool
  pub suffix_is_json : Bool

-- `can_parse_json`, from what `req.mime_type()` gives
unfoldable pub can_parse_json : {E : Type 0} → Result E (Option Mime) → Bool
can_parse_json (ok (some mime)) = mime.subtype_is_json || mime.suffix_is_json
can_parse_json (ok none) = false
can_parse_json (err e) = false

-- The length that is announced, from `to_str` of the header if it is there
unfoldable pub announced_length : Option Text → Option ℕ
announced_length none = none
announced_length (some text) = to_option (parse_uint max_usize text)

abbrev pub deserialized :
    {PayloadError Deserialize T : Type 0}
    → Result Deserialize T
    → Result (JsonPayloadError PayloadError Deserialize) T
deserialized (ok json) = ok json
deserialized (err e) = err (deserialize e)

abbrev pub sized :
    {PayloadError Deserialize : Type 0}
    → ℕ
    → Option ℕ
    → Payload PayloadError
    → Body PayloadError (JsonPayloadError PayloadError Deserialize)
sized limit none arrivals = reading none arrivals []
sized limit (some len) arrivals =
    if ltb limit len
    then error (some (overflow_known_length len limit))
    else reading (some len) arrivals []

-- `JsonBody::new`
unfoldable pub new :
    {PayloadError Deserialize ContentTypeError : Type 0}
    → ℕ
    → Result ContentTypeError (Option Mime)
    → Option Text
    → Payload PayloadError
    → Body PayloadError (JsonPayloadError PayloadError Deserialize)
new limit mime_type content_length arrivals =
    if can_parse_json mime_type
    then sized limit (announced_length content_length) arrivals
    else error (some content_type)

module _ {PayloadError Deserialize T : Type 0} (from_slice : Bytes → Result Deserialize T) where
  -- The loop of `JsonBody::poll`; the buffer is only lent to `from_slice`.
  abbrev pub json_body : ℕ → Extraction PayloadError (JsonPayloadError PayloadError Deserialize) T
  json_body limit = record {
    limit = limit;
    overflow = λ buf_len. overflow limit;
    payload_error = payload;
    decode = λ buf. deserialized (from_slice buf);
    leave = λ buf. buf;
  }
