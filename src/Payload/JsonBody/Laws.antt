-- ===== src/Payload/JsonBody/Laws.antt =====
-- What json.rs makes of a payload that does not fail.
use actix_web_lab.Payload.JsonBody.{
  Mime, JsonPayloadError, deserialized, overflow, deserialize, content_type, overflow_known_length,
}
use actix_web_lab.Common.{
  ℕ, ltb, if◌then◌else◌, Result, ok, err, length, Option, none, some, ◌≡◌, true, ◌⊎◌,
}
use actix_web_lab.Bytes.{Bytes}
use actix_web_lab.Text.{Text}
use actix_web_lab.Text.Decimal.{parse_uint, IntError}
use actix_web_lab.Header.ContentLength.{max_usize}
use actix_web_lab.Payload.{Payload}

-- A request that announces JSON: its media type is known, and its subtype or its suffix says so.
abbrev pub IsJson : {E : Type 0} → Result E (Option Mime) → Type 0
IsJson (ok (some mime)) = (mime.subtype_is_json ≡ true) ⊎ (mime.suffix_is_json ≡ true)
IsJson (ok none) = ⊥
IsJson (err e) = ⊥

-- The length that a header announces: the number that its text is, if there is a header and it is
-- one.
pub data Announces : Option Text → Option ℕ → Type 0 where
  no_header : Announces none none
  length_in : {t : Text} {len : ℕ} → parse_uint max_usize t ≡ ok len → Announces (some t) (some len)
  no_number : {t : Text} {e : IntError} → parse_uint max_usize t ≡ err e → Announces (some t) none

module _ {PayloadError Deserialize T : Type 0} (from_slice : Bytes → Result Deserialize T) where
  -- What the model comes to for a payload that may be JSON
  abbrev pub computed : ℕ → Option ℕ → Bytes → Result (JsonPayloadError PayloadError Deserialize) T
  computed limit none all =
      if ltb limit (length all) then err (overflow limit) else deserialized (from_slice all)
  computed limit (some len) all =
      if ltb limit len
      then err (overflow_known_length len limit)
      else if ltb limit (length all)
      then err (overflow limit)
      else deserialized (from_slice all)

  -- What is promised of the text of a payload: its value, or why it has none
  abbrev pub parsed : Result Deserialize T → Result (JsonPayloadError PayloadError Deserialize) T
  parsed said = elim said [ ok json ↦ ok json | err e ↦ err (deserialize e) ]

  -- What the extractor promises of a payload that may be JSON
  abbrev pub promised : ℕ → Option ℕ → Bytes → Result (JsonPayloadError PayloadError Deserialize) T
  promised limit none all =
      if ltb limit (length all) then err (overflow limit) else parsed (from_slice all)
  promised limit (some len) all =
      if ltb limit len
      then err (overflow_known_length len limit)
      else if ltb limit (length all)
      then err (overflow limit)
      else parsed (from_slice all)

  -- What the extractor promises of any request.
  pub data Answers {E : Type 0} (mime_type : Result E (Option Mime)) (content_length : Option Text)
      (limit : ℕ) (all : Bytes)
      : Result (JsonPayloadError PayloadError Deserialize) T → Type 0 where
    refuses : ¬ IsJson mime_type → Answers mime_type content_length limit all (err content_type)
    keeps_promise :
        {announced : Option ℕ}
        → IsJson mime_type
        → Announces content_length announced
        → Answers mime_type content_length limit all (promised limit announced all)
